-- ===== src/Usb/Descriptors/Walk.antt =====
-- src/usb.rs: when the iterator over descriptors ends, and what it finds.
use packetry.Base.{
  ℕ, zero, suc, ◌+◌, ◌-◌, ◌<◌, ◌≤◌, ◌≡◌, ◌≢◌, refl, ap, ◌∙◌, sym, subst, true, false, Option, none,
  some, List, [], ◌∷◌, ◌++◌, ltb, length, get_or, take, drop, Result, ok, err, panic, hang, ◌>>=◌,
  arith, Bool-cases, inl, inr, ltb-false, le→ltb-false, length-append, get_or-append_length,
  take-append_length, drop-append_length,
}
use packetry.Usb.Descriptors.{
  DescriptorType, expected_length, descriptor_type_from, Descriptor, descriptor_of, inspect,
  next_loop, next_descriptor, Parse, parse_descriptor, parse_loop, configuration_from_bytes,
}

-- Each length byte on the way from the offset to the end moves the iterator on.
pub data Advances (bytes : List ℕ) : (offset : ℕ) → Type 0 where
  at_end : (offset : ℕ) → length bytes ≤ offset + 2 → Advances bytes offset
  advance :
      (offset : ℕ)
      → offset + 2 < length bytes
      → 0 < get_or bytes offset 0
      → Advances bytes (offset + get_or bytes offset 0)
      → Advances bytes offset

-- A call ended, possibly by a panic.
abbrev Ended {ℓ} : {A : Type ℓ} → Result A → Type 0
Ended (ok _) = Unit
Ended err = Unit
Ended panic = Unit
Ended hang = ⊥

Ended→≢ {ℓ} : {A : Type ℓ} (r : Result A) → Ended r → r ≢ hang
Ended→≢ r h e = subst Ended e h

-- What a call of the iterator may return when it has not hung.
abbrev Moves : List ℕ → ℕ → Result (Option (Descriptor × ℕ)) → Type 0
Moves bytes offset (ok none) = Unit
Moves bytes offset (ok (some (d, n))) =
    Advances bytes n × (offset < n) × (offset + 2 < length bytes)
Moves bytes offset panic = Unit
Moves bytes offset err = ⊥
Moves bytes offset hang = ⊥

abbrev Quiet : Result (Option Descriptor) → Type 0
Quiet (ok _) = Unit
Quiet panic = Unit
Quiet err = ⊥
Quiet hang = ⊥

inspect-Quiet : (bytes : List ℕ) (offset : ℕ) → Quiet (inspect bytes offset)
inspect-Quiet bytes offset = ground arith

Moves-elim :
    (bytes : List ℕ) (offset next : ℕ) (r : Result (Option Descriptor))
    (rest : Result (Option (Descriptor × ℕ)))
    → Quiet r
    → Moves bytes offset rest
    → Advances bytes next × (offset < next) × (offset + 2 < length bytes)
    → Moves bytes offset (elim r [
      | ok none ↦ rest
      | ok (some d) ↦ ok (some (d, next))
      | err ↦ err
      | panic ↦ panic
      | hang ↦ hang
    ])
Moves-elim bytes offset next (ok none) rest q m a = m
Moves-elim bytes offset next (ok (some d)) rest q m a = a
Moves-elim bytes offset next err rest q m a = elim q [ ]
Moves-elim bytes offset next hang rest q m a = elim q [ ]
Moves-elim bytes offset next panic rest q m a = tt

Moves-weaken :
    (bytes : List ℕ) (offset offset' : ℕ) (r : Result (Option (Descriptor × ℕ)))
    → offset < offset'
    → Moves bytes offset' r
    → Moves bytes offset r
Moves-weaken bytes o o' (ok none) h m = tt
Moves-weaken bytes o o' (ok (some (d, n))) h (a, b, c) = (a, omega arith, omega arith)
Moves-weaken bytes o o' err h m = elim m [ ]
Moves-weaken bytes o o' hang h m = elim m [ ]
Moves-weaken bytes o o' panic h m = tt

next_loop-Moves :
    (fuel : ℕ) (bytes : List ℕ) (offset : ℕ)
    → Advances bytes offset
    → length bytes - 2 - offset < fuel
    → Moves bytes offset (next_loop fuel bytes offset)
unfolding next_loop
next_loop-Moves zero bytes offset a h = absurd (omega arith)
next_loop-Moves (suc fuel) bytes offset (at_end o b) h =
    let e : ltb offset (length bytes - 2) ≡ false = ground arith in rw e tt
next_loop-Moves (suc fuel) bytes offset (advance o b p a) h =
    let e : ltb offset (length bytes - 2) ≡ true = ground arith in
    rw e (
      Moves-elim bytes offset (offset + get_or bytes offset 0) (inspect bytes offset) _
        (inspect-Quiet bytes offset)
        (Moves-weaken bytes offset (offset + get_or bytes offset 0) _ (omega arith)
          (next_loop-Moves fuel bytes (offset + get_or bytes offset 0) a (omega arith)))
        (a, omega arith, b))

next_descriptor-Moves :
    (bytes : List ℕ) (offset : ℕ)
    → Advances bytes offset
    → Moves bytes offset (next_descriptor bytes offset)
unfolding next_descriptor
next_descriptor-Moves bytes offset a = elim (Bool-cases (ltb (length bytes) 2)) [
  | inl y ↦ rw y tt
  | inr n ↦
      rw n (
        next_loop-Moves (length bytes) bytes offset a (omega (arith, ltb-false (length bytes) 2 n)))
]

parse_descriptor-Ended : (d : Descriptor) (s : Parse) → Ended (parse_descriptor d s)
unfolding parse_descriptor packetry.VecMap.push
parse_descriptor-Ended d s = ground arith

bind-Ended :
    {A B : Type 0} (r : Result A) (f : A → Result B)
    → Ended r
    → ((a : A) → Ended (f a))
    → Ended (r >>= f)
bind-Ended (ok a) f h k = k a
bind-Ended err f h k = tt
bind-Ended panic f h k = tt
bind-Ended hang f h k = elim h [ ]

item-Ended :
    (bytes : List ℕ) (offset : ℕ) (s : Parse) (k : ℕ → Parse → Result Parse)
    (r : Result (Option (Descriptor × ℕ)))
    → Moves bytes offset r
    → ((n : ℕ) (s' : Parse)
        → Advances bytes n
        → offset < n
        → offset + 2 < length bytes
        → Ended (k n s'))
    → Ended (
        r >>= λ item. elim item [
          | none ↦ ok s
          | some (d, next_offset) ↦ parse_descriptor d s >>= k next_offset
        ])
item-Ended bytes offset s k (ok none) m f = tt
item-Ended bytes offset s k (ok (some (d, n))) (b, l, m) f =
    bind-Ended (parse_descriptor d s) (k n) (parse_descriptor-Ended d s) (λ s'. f n s' b l m)
item-Ended bytes offset s k panic m f = tt
item-Ended bytes offset s k err m f = elim m [ ]
item-Ended bytes offset s k hang m f = elim m [ ]

parse_loop-Ended :
    (fuel : ℕ) (bytes : List ℕ) (offset : ℕ) (s : Parse)
    → Advances bytes offset
    → length bytes - offset < fuel
    → Ended (parse_loop fuel bytes offset s)
unfolding parse_loop
parse_loop-Ended zero bytes offset s a h = absurd (omega arith)
parse_loop-Ended (suc fuel) bytes offset s a h =
    item-Ended bytes offset s (parse_loop fuel bytes) (next_descriptor bytes offset)
      (next_descriptor-Moves bytes offset a)
      (λ n s' b l m. parse_loop-Ended fuel bytes n s' b (omega arith))

-- When each length byte that is met is positive, the call for a configuration ends, with a result
-- or a panic: neither the loop in the iterator nor that over its descriptors runs forever.
pub configuration_from_bytes-ends :
    (bytes : List ℕ) → Advances bytes 0 → configuration_from_bytes bytes ≢ hang
unfolding configuration_from_bytes
configuration_from_bytes-ends bytes a = Ended→≢ _ (
    bind-Ended (parse_loop (length bytes + 1) bytes 0 _) _
      (parse_loop-Ended (length bytes + 1) bytes 0 _ a (omega arith)) (λ s. tt))

get_or-drop : (bytes : List ℕ) (offset : ℕ) → get_or (drop offset bytes) 0 0 ≡ get_or bytes offset 0
get_or-drop [] zero = refl
get_or-drop [] (suc o) = refl
get_or-drop (b ∷ bs) zero = refl
get_or-drop (b ∷ bs) (suc o) = get_or-drop bs o

inspect-zero :
    (bytes : List ℕ) (offset : ℕ)
    → get_or (drop offset bytes) 0 0 ≡ 0
    → inspect bytes offset ≡ ok none
inspect-zero bytes offset z = ground arith

-- A length byte of zero with more than two bytes left, itself included, stops the iterator from
-- moving: whatever the fuel, it is used up.
pub next_loop-zero :
    (fuel : ℕ) (bytes : List ℕ) (offset : ℕ)
    → offset + 2 < length bytes
    → get_or bytes offset 0 ≡ 0
    → next_loop fuel bytes offset ≡ hang
unfolding next_loop
next_loop-zero zero bytes offset h z = refl
next_loop-zero (suc fuel) bytes offset h z =
    let e : ltb offset (length bytes - 2) ≡ true = ground arith in
    let same : offset + 0 ≡ offset = omega arith in
    let i : inspect bytes offset ≡ ok none =
      inspect-zero bytes offset (get_or-drop bytes offset ∙ z) in
    rw (e, i, z, same) (next_loop-zero fuel bytes offset h z)

get_or-left : (d ys : List ℕ) (i : ℕ) → i < length d → get_or (d ++ ys) i 0 ≡ get_or d i 0
get_or-left [] ys i h = absurd (omega arith)
get_or-left (x ∷ d) ys zero h = refl
get_or-left (x ∷ d) ys (suc i) h = get_or-left d ys i (omega arith)

expected_length-long : (t : DescriptorType) (n : ℕ) → expected_length t ≡ some n → 2 < n
expected_length-long t n h = ground arith

inspect-head :
    (d ys : List ℕ) (n : ℕ)
    → expected_length (descriptor_type_from (get_or (d ++ ys) 1 0)) ≡ some n
    → n ≤ length (d ++ ys)
    → get_or (d ++ ys) 0 0 ≡ n
    → inspect (d ++ ys) 0
      ≡ ok (some (descriptor_of (descriptor_type_from (get_or (d ++ ys) 1 0)) (take n (d ++ ys))))
inspect-head d ys n h l z = ground arith

inspect-found :
    (xs d ys : List ℕ) (n : ℕ)
    → expected_length (descriptor_type_from (get_or d 1 0)) ≡ some n
    → length d ≡ n
    → get_or d 0 0 ≡ n
    → inspect (xs ++ (d ++ ys)) (length xs)
      ≡ ok (some (descriptor_of (descriptor_type_from (get_or d 1 0)) d))
inspect-found xs d ys n h l z =
    let long : 2 < n = expected_length-long _ n h in
    let b₀ : get_or (d ++ ys) 0 0 ≡ n = get_or-left d ys 0 (omega arith) ∙ z in
    let b₁ : get_or (d ++ ys) 1 0 ≡ get_or d 1 0 = get_or-left d ys 1 (omega arith) in
    let front : take n (d ++ ys) ≡ d =
      ap (λ m. take m (d ++ ys)) (sym l) ∙ take-append_length d ys in
    ap (λ r. inspect r 0) (drop-append_length xs (d ++ ys))
    ∙ inspect-head d ys n (ap (λ m. expected_length (descriptor_type_from m)) b₁ ∙ h)
        (omega (arith, length-append d ys)) b₀
    ∙ ap (λ m. ok (some (descriptor_of (descriptor_type_from m) (take n (d ++ ys))))) b₁
    ∙ ap (λ m. ok (some (descriptor_of (descriptor_type_from (get_or d 1 0)) m))) front

next_loop-found :
    (fuel : ℕ) (bytes : List ℕ) (offset n : ℕ) (t : Descriptor)
    → 0 < fuel
    → offset + 2 < length bytes
    → get_or bytes offset 0 ≡ n
    → inspect bytes offset ≡ ok (some t)
    → next_loop fuel bytes offset ≡ ok (some (t, offset + n))
unfolding next_loop
next_loop-found zero bytes offset n t f h z i = absurd (omega arith)
next_loop-found (suc fuel) bytes offset n t f h z i =
    let e : ltb offset (length bytes - 2) ≡ true = ground arith in rw (e, i, z) refl

-- The iterator, at a descriptor of a known type that is as long as the type requires and as its
-- length byte says, returns this descriptor and the offset behind it, whatever follows.
pub next_descriptor-found :
    (xs d ys : List ℕ) (n : ℕ)
    → expected_length (descriptor_type_from (get_or d 1 0)) ≡ some n
    → length d ≡ n
    → get_or d 0 0 ≡ n
    → next_descriptor (xs ++ (d ++ ys)) (length xs)
      ≡ ok (some (descriptor_of (descriptor_type_from (get_or d 1 0)) d, length xs + n))
unfolding next_descriptor
next_descriptor-found xs d ys n h l z =
    let long : 2 < n = expected_length-long _ n h in
    let size : length (xs ++ (d ++ ys)) ≡ length xs + (n + length ys) =
      omega (arith, length-append xs (d ++ ys), length-append d ys, l) in
    let enough : ltb (length (xs ++ (d ++ ys))) 2 ≡ false =
      le→ltb-false (length (xs ++ (d ++ ys))) 2 (omega (arith, size)) in
    let head : get_or (xs ++ (d ++ ys)) (length xs) 0 ≡ n =
      ap (λ m. get_or (xs ++ (d ++ ys)) m 0) (omega arith)
      ∙ get_or-append_length xs (d ++ ys) 0 0
      ∙ get_or-left d ys 0 (omega arith)
      ∙ z in
    rw enough (
      next_loop-found (length (xs ++ (d ++ ys))) (xs ++ (d ++ ys)) (length xs) n _
        (omega (arith, size)) (omega (arith, size)) head (inspect-found xs d ys n h l z))
