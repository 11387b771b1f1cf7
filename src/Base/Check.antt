-- ===== src/Base/Check.antt =====
-- Facts about the numbers below a bound, proved by evaluating a test at each of them.
use Prim.Native.Nat.{ℕ, zero, suc, ◌+◌, ◌<◌, ◌≤◌}
use mathlib.Core.Path.{◌≡◌}
use mathlib.Core.Bool.{Bool, true, ◌&&◌}
use mathlib.Core.Logic.{inl, inr, ◌≢◌}
use packetry.Base.Tests.{◌==◌, ==_iff, Bool-cases, ==_false}
use native.Mathlib.Omega.{arith}

-- The test passes at each of the `count` numbers from `start` on.
unfoldable pub passes : (test : ℕ → Bool) (start count : ℕ) → Bool
passes test start zero = true
passes test start (suc count) = test start && passes test (suc start) count

next : (start k : ℕ) → start ≤ k → start ≢ k → suc start ≤ k
next start k h n = ground arith

pub passes_sound :
    (test : ℕ → Bool) (start count k : ℕ)
    → passes test start count ≡ true
    → start ≤ k
    → k < start + count
    → test k ≡ true
unfolding passes
passes_sound test start zero k all from below = absurd (omega arith)
passes_sound test start (suc count) k all from below = elim (Bool-cases (start == k)) [
  | inl same ↦ rw (← (==_iff start k).0 same) (ground arith)
  | inr other ↦
      passes_sound test (suc start) count k (ground arith)
        (next start k from (==_false start k other)) (omega arith)
]
