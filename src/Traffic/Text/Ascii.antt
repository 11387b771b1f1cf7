-- ===== src/Traffic/Text/Ascii.antt =====
-- src/capture.rs: which bytes `looks_like_ascii` takes for text.
use packetry.Base.{
  ℕ, suc, ◌⊎◌, ◌*◌, ◌+◌, ◌/◌, ◌≤◌, ◌<◌, ◌≡◌, ◌≢◌, sym, ◌↔◌, ◌∙◌, subst, refl, true, false, List, [],
  ◌∷◌, if◌then◌else◌, length, arith, Bool-cases, inl, inr,
}
use packetry.Storage.Index.Counts.{count}
use packetry.Traffic.Text.{Bytes, outside, printable, ascii_loop, looks_like_ascii}

-- Every byte is one of 1 to 127.
abbrev pub AllAscii : List ℕ → Type 0
AllAscii [] = Unit
AllAscii (b ∷ bs) = (0 < b) × (b < 128) × AllAscii bs

ne_true : false ≢ true
ne_true e = cc

inside : (b : ℕ) → outside b ≡ false → (0 < b) × (b < 128)
inside b h = (ground arith, ground arith)

outside-false : (b : ℕ) → 0 < b → b < 128 → outside b ≡ false
outside-false b l h = ground arith

-- The bytes printed up to here, counted in one place or the other.
step :
    (printed b rest : ℕ)
    → (if printable b then printed + 1 else printed) + rest
      ≡ printed + ((if printable b then 1 else 0) + rest)
step printed b rest = elim (Bool-cases (printable b)) [
  | inl y ↦ rw y (omega arith)
  | inr n ↦ rw n (omega arith)
]

ascii_loop_iff :
    (total printed : ℕ) (bytes : List ℕ)
    → (ascii_loop total printed bytes ≡ true) ↔ (
        AllAscii bytes
        × (0 < printed + count printable bytes)
        × (total / 2 ≤ printed + count printable bytes))
unfolding ascii_loop
ascii_loop_iff total printed [] = (λ e. (tt, ground arith, ground arith), λ (_, p, q). ground arith)
ascii_loop_iff total printed (b ∷ bs) =
    let ih = ascii_loop_iff total (if printable b then printed + 1 else printed) bs in
    let same = step printed b (count printable bs) in
    elim (Bool-cases (outside b)) [
      | inl y ↦ rw y (
        λ e. absurd (ne_true e),
        λ ((l, h, _), _, _). absurd (ne_true (sym (outside-false b l h) ∙ y)),
      )
      | inr n ↦ rw n (
        λ e.
            let (a, p, q) = ih.0 e in
            (((inside b n).0, (inside b n).1, a), omega (arith, same), omega (arith, same)),
        λ ((l, h, a), p, q). ih.1 (a, omega (arith, same), omega (arith, same)),
      )
    ]

-- A character that text may have: from the space to the brace before the tilde, a tab, a new line
-- or a carriage return.
abbrev pub Printable : ℕ → Type 0
Printable b = ((32 ≤ b) × (b ≤ 125)) ⊎ ((b ≡ 9) ⊎ ((b ≡ 10) ⊎ (b ≡ 13)))

-- That many of the bytes are such characters.
pub data Printed : List ℕ → ℕ → Type 0 where
  no_bytes : Printed [] 0
  shown : {b n : ℕ} {bs : List ℕ} → Printable b → Printed bs n → Printed (b ∷ bs) (suc n)
  hidden : {b n : ℕ} {bs : List ℕ} → ¬ Printable b → Printed bs n → Printed (b ∷ bs) n

Printable-printable : (b : ℕ) → Printable b → printable b ≡ true
Printable-printable b (inl (l, u)) = ground arith
Printable-printable b (inr (inl e)) = ground arith
Printable-printable b (inr (inr (inl e))) = ground arith
Printable-printable b (inr (inr (inr e))) = ground arith

printable-Printable : (b : ℕ) → printable b ≡ true → Printable b
printable-Printable b h = ground arith

count-Printed : (bs : List ℕ) → Printed bs (count printable bs)
count-Printed [] = no_bytes
count-Printed (b ∷ bs) = elim (Bool-cases (printable b)) [
  | inl y ↦
      rw y (
        subst (Printed (b ∷ bs)) (omega arith) (shown (printable-Printable b y) (count-Printed bs)))
  | inr n ↦ rw n (
      subst (Printed (b ∷ bs)) (omega arith)
        (hidden (λ p. ne_true (sym n ∙ Printable-printable b p)) (count-Printed bs)))
]

Printed-count : (bs : List ℕ) (n : ℕ) → Printed bs n → n ≡ count printable bs
Printed-count [] n no_bytes = refl
Printed-count (b ∷ bs) n (shown y p) =
    rw (Printable-printable b y) (omega (arith, Printed-count bs _ p))
Printed-count (b ∷ bs) n (hidden x p) = elim (Bool-cases (printable b)) [
  | inl y ↦ absurd (x (printable-Printable b y))
  | inr n ↦ rw n (omega (arith, Printed-count bs _ p))
]

-- `looks_like_ascii` holds of exactly the bytes that are all from 1 to 127, where some `n` of them,
-- at least one, are characters from the space up to 125, tabs, new lines or carriage returns, and
-- there are no more than `2 * n + 1` bytes. So the tilde is not counted, and of an odd number of
-- bytes one less than half is enough.
pub looks_like_ascii_iff :
    (b : Bytes)
    → (looks_like_ascii b ≡ true)
      ↔ (AllAscii b.bytes × ((n : ℕ) × Printed b.bytes n × (0 < n) × (length b.bytes ≤ 2 * n + 1)))
unfolding looks_like_ascii
looks_like_ascii_iff b =
    let (f, g) = ascii_loop_iff (length b.bytes) 0 b.bytes in
    (
      λ e.
          let (a, p, q) = f e in
          (a, (count printable b.bytes, count-Printed b.bytes, omega arith, omega arith)),
      λ (a, (n, p, q, r)).
          let same = Printed-count b.bytes n p in g (a, omega (arith, same), omega (arith, same)),
    )
