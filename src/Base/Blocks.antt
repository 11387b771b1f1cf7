-- ===== src/Base/Blocks.antt =====
-- Positions in blocks of a size: where the block of a position begins, and the offset in it.
use Prim.Native.Nat.{ℕ, suc, ◌+◌, ◌*◌, ◌/◌, ◌%◌, ◌≤◌, ◌<◌}
use mathlib.Core.Path.{◌≡◌, ap, ◌∙◌}
use native.Mathlib.Nat.{
  div-mul-le_self, lt-div-mul-add, le-div_iff_mul-le, mul-add-div_right, mul-add-mod_self_right,
  mod-eq_of_lt, div-eq_of_lt,
}
use native.Mathlib.Omega.{arith}

pub block-le : (x size : ℕ) → x / size * size ≤ x
block-le x size = grind (arith, div-mul-le_self)

pub lt-block : (x size : ℕ) → 0 < size → x < x / size * size + size
lt-block x size h = grind (arith, lt-div-mul-add)

pub mul_le_mono : (a b c : ℕ) → a ≤ b → a * c ≤ b * c
mul_le_mono a b c h = grind arith

pub le-block : (k x size : ℕ) → 0 < size → k * size ≤ x → k * size ≤ x / size * size
le-block k x size h l = mul_le_mono k (x / size) size ((le-div_iff_mul-le h).1 l)

pub block_of : (k p size : ℕ) → p < size → (k * size + p) / size * size ≡ k * size
block_of k p size h =
    ap (λ n. n * size)
      (mul-add-div_right (omega arith) k p ∙ ap (λ n. k + n) (div-eq_of_lt h) ∙ omega arith)

pub offset_of : (k p size : ℕ) → p < size → (k * size + p) % size ≡ p
offset_of k p size h = mul-add-mod_self_right k size p ∙ mod-eq_of_lt h

pub suc_block : (k size : ℕ) → suc k * size ≡ k * size + size
suc_block k size = grind arith

pub add_block : (a b size : ℕ) → (a + b) * size ≡ a * size + b * size
add_block a b size = grind arith

pub le-blocks : (k size : ℕ) → 0 < size → k ≤ k * size
le-blocks k size h = grind arith
