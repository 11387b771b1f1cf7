-- ===== src/Storage/Compact/Bytes.antt =====
-- src/compact_index.rs: the width of a difference, and its bytes.
use packetry.Base.{
  ℕ, zero, suc, ◌+◌, ◌-◌, ◌*◌, ◌/◌, ◌%◌, ◌^◌, ◌≤◌, ◌<◌, ◌≡◌, refl, sym, ap, ◌∷◌, ltb, ltb→lt,
  ==_iff, ==_false, ◌≢◌, ◌==◌, length, take, arith, Bool-cases, inl, inr,
}
use native.Mathlib.Numerals.{towards_suc}
use packetry.Storage.Compact.{leading_zeros, byte_width, le_bytes, from_le_bytes}

-- A number has at most this many bytes.
abbrev pub Fits : (count value : ℕ) → Type 0
Fits zero value = value ≡ 0
Fits (suc n) value = Fits n (value / 256)

pow_double : (n : ℕ) → 2 ^ suc n ≡ 2 * 2 ^ n
pow_double n = let e : suc n ≡ n + 1 = omega arith in rw e (simp towards_suc (omega arith))

pow_byte : (n : ℕ) → 2 ^ (8 * suc n) ≡ 256 * 2 ^ (8 * n)
pow_byte n = let e : 8 * suc n ≡ 8 * n + 8 = omega arith in rw e (simp towards_suc (omega arith))

Fits-pow : (n value : ℕ) → value < 2 ^ (8 * n) → Fits n value
Fits-pow zero value h = omega arith
Fits-pow (suc n) value h = Fits-pow n (value / 256) (omega (arith, pow_byte n))

leading_zeros-bound :
    (w value : ℕ)
    → value < 2 ^ w
    → (leading_zeros w value ≤ w) × (value < 2 ^ (w - leading_zeros w value))
unfolding leading_zeros
leading_zeros-bound zero value h = (omega arith, omega arith)
leading_zeros-bound (suc w) value h = elim (Bool-cases (ltb value (2 ^ w))) [
  | inl y ↦
      let (l, b) = leading_zeros-bound w value (ltb→lt value (2 ^ w) y) in
      let e : suc w - suc (leading_zeros w value) ≡ w - leading_zeros w value = omega arith in
      rw (y, e) (omega arith, b)
  | inr n ↦ let e : suc w - 0 ≡ suc w = omega arith in rw (n, e) (omega arith, h)
]

pow_mono : (a b : ℕ) → a ≤ b → 2 ^ a ≤ 2 ^ b
pow_mono zero zero h = omega arith
pow_mono (suc a) zero h = elim h [ ]
pow_mono a (suc b) h = elim (Bool-cases (a == suc b)) [
  | inl y ↦ let e : a ≡ suc b = (==_iff a (suc b)).0 y in rw e (omega arith)
  | inr n ↦ omega (arith, pow_double b, pow_mono a b (omega (arith, ==_false a (suc b) n)))
]

pub byte_width-Fits :
    (value : ℕ)
    → value < 2 ^ 64
    → (byte_width value ≤ 8) × (1 ≤ byte_width value) × Fits (byte_width value) value
unfolding byte_width
byte_width-Fits value h = elim (Bool-cases (value == 0)) [
  | inl y ↦ let e : value ≡ 0 = (==_iff value 0).0 y in rw y (omega arith, omega arith, omega arith)
  | inr n ↦
      let ne : value ≢ 0 = ==_false value 0 n in
      let (l, b) = leading_zeros-bound 64 value h in
      let some_bit : leading_zeros 64 value < 64 = not_all value ne l b in
      rw n (
        omega arith,
        omega arith,
        Fits-pow (8 - leading_zeros 64 value / 8) value (
            omega (
              arith,
              pow_mono (64 - leading_zeros 64 value) (8 * (8 - leading_zeros 64 value / 8))
                  (omega arith),
            )),
      )
]
  where
    not_all :
        (value : ℕ)
        → value ≢ 0
        → leading_zeros 64 value ≤ 64
        → value < 2 ^ (64 - leading_zeros 64 value)
        → leading_zeros 64 value < 64
    not_all value ne l b = elim (Bool-cases (leading_zeros 64 value == 64)) [
      | inl y ↦
          let e : 64 - leading_zeros 64 value ≡ 0 =
            omega (arith, (==_iff (leading_zeros 64 value) 64).0 y) in
          let one : value < 2 ^ 0 = rw e at b in absurd (omega arith)
      | inr n ↦ omega (arith, ==_false (leading_zeros 64 value) 64 n)
    ]

pub Fits-mono : (m n value : ℕ) → m ≤ n → Fits m value → Fits n value
Fits-mono zero zero value h f = f
Fits-mono zero (suc n) value h f = Fits-mono zero n (value / 256) (omega arith) (omega arith)
Fits-mono (suc m) (suc n) value h f = Fits-mono m n (value / 256) (omega arith) f
Fits-mono (suc m) zero value h f = elim h [ ]

pub from_le_bytes-le_bytes : (n value : ℕ) → Fits n value → from_le_bytes (le_bytes n value) ≡ value
unfolding from_le_bytes le_bytes
from_le_bytes-le_bytes zero value f = sym f
from_le_bytes-le_bytes (suc n) value f = omega (arith, from_le_bytes-le_bytes n (value / 256) f)

pub take-le_bytes : (m n value : ℕ) → m ≤ n → take m (le_bytes n value) ≡ le_bytes m value
unfolding le_bytes
take-le_bytes zero n value h = refl
take-le_bytes (suc m) zero value h = elim h [ ]
take-le_bytes (suc m) (suc n) value h =
    ap (λ l. (value % 256) ∷ l) (take-le_bytes m n (value / 256) (omega arith))

pub length-le_bytes : (n value : ℕ) → length (le_bytes n value) ≡ n
unfolding le_bytes
length-le_bytes zero value = refl
length-le_bytes (suc n) value = ap suc (length-le_bytes n (value / 256))
