-- ===== src/Base/Sorted.antt =====
-- Lists of numbers that do not decrease.
use Prim.Native.Nat.{ℕ, zero, suc, ◌+◌, ◌≤◌, ◌<◌}
use mathlib.Core.Path.{◌≡◌, refl}
use mathlib.Core.List.{List, [], ◌∷◌, ◌++◌}
use native.Mathlib.Omega.{arith}
use mathlib.Core.Logic.{inl, inr}
use packetry.Base.Tests.{ltb, ltb→lt, ltb-false, Bool-cases}
use packetry.Base.Lists.{length, get_or, length-append}

-- No value is below the one before it, nor the first below `from`.
abbrev pub Ascending : (from : ℕ) → List ℕ → Type 0
Ascending from [] = Unit
Ascending from (x ∷ xs) = (from ≤ x) × Ascending x xs

-- The same by positions.
abbrev pub IsSorted : List ℕ → Type 0
IsSorted xs = (i j : ℕ) → i ≤ j → j < length xs → get_or xs i 0 ≤ get_or xs j 0

Ascending-lower :
    (from : ℕ) (xs : List ℕ) (i : ℕ) → Ascending from xs → i < length xs → from ≤ get_or xs i 0
Ascending-lower from [] i a h = elim h [ ]
Ascending-lower from (x ∷ xs) zero (l, a) h = l
Ascending-lower from (x ∷ xs) (suc i) (l, a) h =
    omega (arith, Ascending-lower x xs i a (omega arith))

pub Ascending-IsSorted : (from : ℕ) (xs : List ℕ) → Ascending from xs → IsSorted xs
Ascending-IsSorted from [] a i j l h = elim h [ ]
Ascending-IsSorted from (x ∷ xs) (l, a) zero zero le h = omega arith
Ascending-IsSorted from (x ∷ xs) (l, a) zero (suc j) le h = Ascending-lower x xs j a (omega arith)
Ascending-IsSorted from (x ∷ xs) (l, a) (suc i) zero le h = elim le [ ]
Ascending-IsSorted from (x ∷ xs) (l, a) (suc i) (suc j) le h =
    Ascending-IsSorted x xs a i j (omega arith) (omega arith)

pub get_or-append_left :
    (xs ys : List ℕ) (i : ℕ) → i < length xs → get_or (xs ++ ys) i 0 ≡ get_or xs i 0
get_or-append_left [] ys i h = elim h [ ]
get_or-append_left (x ∷ xs) ys zero h = refl
get_or-append_left (x ∷ xs) ys (suc i) h = get_or-append_left xs ys i (omega arith)

pub get_or-append_last : (xs : List ℕ) (x i : ℕ) → i ≡ length xs → get_or (xs ++ (x ∷ [])) i 0 ≡ x
get_or-append_last [] x zero h = refl
get_or-append_last [] x (suc i) h = absurd (omega arith)
get_or-append_last (y ∷ xs) x zero h = absurd (omega arith)
get_or-append_last (y ∷ xs) x (suc i) h = get_or-append_last xs x i (omega arith)

-- A new last value that is no smaller than any other.
pub IsSorted-append_last :
    (xs : List ℕ) (x : ℕ)
    → IsSorted xs
    → ((i : ℕ) → i < length xs → get_or xs i 0 ≤ x)
    → IsSorted (xs ++ (x ∷ []))
IsSorted-append_last xs x s b i j le h =
    let n : length (xs ++ (x ∷ [])) ≡ length xs + 1 = omega (arith, length-append xs (x ∷ [])) in
    elim (Bool-cases (ltb j (length xs))) [
      | inl y ↦
          let l : j < length xs = ltb→lt j (length xs) y in
          omega (
            arith,
            get_or-append_left xs (x ∷ []) i (omega arith),
            get_or-append_left xs (x ∷ []) j l,
            s i j le l,
          )
      | inr last ↦
          let e : j ≡ length xs = omega (arith, ltb-false j (length xs) last) in
          elim (Bool-cases (ltb i (length xs))) [
            | inl y ↦
                let l : i < length xs = ltb→lt i (length xs) y in
                omega
                  (arith, get_or-append_left xs (x ∷ []) i l, get_or-append_last xs x j e, b i l)
            | inr same ↦ omega (
              arith,
              get_or-append_last xs x i (omega (arith, ltb-false i (length xs) same)),
              get_or-append_last xs x j e,
            )
          ]
    ]

-- A bound of a list that also bounds a new last value.
pub append_last-bound :
    (xs : List ℕ) (x bound : ℕ)
    → ((i : ℕ) → i < length xs → get_or xs i 0 ≤ bound)
    → x ≤ bound
    → (i : ℕ) → i < length (xs ++ (x ∷ []))
    → get_or (xs ++ (x ∷ [])) i 0 ≤ bound
append_last-bound xs x bound b l i h = elim (Bool-cases (ltb i (length xs))) [
  | inl y ↦
      let li : i < length xs = ltb→lt i (length xs) y in
      omega (arith, get_or-append_left xs (x ∷ []) i li, b i li)
  | inr n ↦ omega (
    arith,
    length-append xs (x ∷ []),
    get_or-append_last xs x i (omega (arith, ltb-false i (length xs) n, length-append xs (x ∷ []))),
  )
]
