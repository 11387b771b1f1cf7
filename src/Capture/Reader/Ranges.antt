-- ===== src/Capture/Reader/Ranges.antt =====
-- src/compact_index.rs: what `get` and `target_range` return on an index of values in order.
use packetry.Base.{
  Safe, leb, leb-false, ℕ, zero, suc, ◌+◌, ◌≤◌, ◌<◌, ◌≡◌, refl, List, [], ◌∷◌, inl, inr, ltb,
  length, get_or, ok, index, arith, Bool-cases, ltb-false, lt→leb_false,
}
use packetry.Base.Sorted.{IsSorted}
use packetry.Capture.Reader.{get_position, target_range}

pub index-get_or : (xs : List ℕ) (i : ℕ) → i < length xs → index xs i ≡ ok (get_or xs i 0)
index-get_or [] i h = elim h [ ]
index-get_or (x ∷ xs) zero h = refl
index-get_or (x ∷ xs) (suc i) h = index-get_or xs i (omega arith)

pub get_position-get_or :
    (xs : List ℕ) (i : ℕ) → i < length xs → get_position xs i ≡ ok (get_or xs i 0)
unfolding get_position
get_position-get_or xs i h = rw (lt→leb_false (length xs) i h) (index-get_or xs i h)

pub get_position-Safe : (xs : List ℕ) (i : ℕ) → Safe (get_position xs i) (λ x. x ≡ get_or xs i 0)
unfolding get_position
get_position-Safe xs i = elim (Bool-cases (leb (length xs) i)) [
  | inl y ↦ rw y tt
  | inr n ↦ rw (n, index-get_or xs i (leb-false (length xs) i n)) refl
]

-- An index into `target_length` values: its values do not decrease, and none is past the end.
abbrev pub IndexInto : List ℕ → (target_length : ℕ) → Type 0
IndexInto index target_length =
    IsSorted index × ((i : ℕ) → i < length index → get_or index i 0 ≤ target_length)

-- `target_range` of an index into `target_length` values.
pub record Between (index : List ℕ) (position target_length : ℕ) : Type 0 where
  pub next : ℕ
  pub found : target_range index position target_length ≡ ok (get_or index position 0, next)
  pub ordered : get_or index position 0 ≤ next
  pub within : next ≤ target_length

pub target_range-Between :
    (values : List ℕ) (position target_length : ℕ)
    → IndexInto values target_length
    → position < length values
    → Between values position target_length
unfolding target_range
target_range-Between values position target_length (s, b) h =
    elim (Bool-cases (ltb (length values) (position + 2))) [
      | inl y ↦ record {
        next = target_length;
        found = rw (y, get_position-get_or values position h) refl;
        ordered = b position h;
        within = omega arith;
      }
      | inr n ↦
          let l : position + 1 < length values = omega (arith, ltb-false _ _ n) in
          record {
            next = get_or values (position + 1) 0;
            found =
                rw
                  (
                    n,
                    get_position-get_or values position h,
                    get_position-get_or values (position + 1) l,
                  )
                  refl;
            ordered = s position (position + 1) (omega arith) l;
            within = b (position + 1) l;
          }
    ]
