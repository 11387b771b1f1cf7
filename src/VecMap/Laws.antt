-- ===== src/VecMap/Laws.antt =====
-- Laws of `VecMap`: reads after writes, and what `push` returns.
use packetry.Base.{
  ℕ, zero, suc, ◌+◌, ◌-◌, ◌<◌, ◌≡◌, inl, inr, refl, sym, ap, ◌∙◌, Option, none, some, List, [], ◌∷◌,
  ◌++◌, leb, ltb, ◌==◌, if◌then◌else◌, length, get_elem?, replicate, ok, arith, Bool-cases,
  length-append, length-replicate, get_elem?-append_left, get_elem?-append_right, get_elem?-beyond,
  get_elem?-set_self, get_elem?-set_ne, ==_iff, ltb-false, ltb→lt, ==_refl, ==_false,
}
use packetry.Usb.Fields.{Direction, dir_out, dir_in}
use packetry.VecMap.{Key, VecMap, slot, get, resize, insert, push, endpoint_key_id, endpoint_key_of}

module _ {V : Type 0} where
  slot-replicate : (n i : ℕ) → slot {V = V} (get_elem? (replicate n none) i) ≡ none
  slot-replicate zero i = refl
  slot-replicate (suc n) zero = refl
  slot-replicate (suc n) (suc i) = slot-replicate n i

  length-resize : (vec : List (Option V)) (i : ℕ) → i < length (resize vec i)
  unfolding resize
  length-resize vec i = elim (Bool-cases (leb (length vec) i)) [
    | inl h ↦ rw (h, length-append vec, length-replicate {0} (i + 1 - length vec)) (ground arith)
    | inr h ↦ rw h (ground arith)
  ]

  -- Growing the vector adds no value.
  get-resize :
      (vec : List (Option V)) (i j : ℕ) → slot (get_elem? (resize vec i) j) ≡ slot (get_elem? vec j)
  unfolding resize
  get-resize vec i j = elim (Bool-cases (leb (length vec) i)) [
    | inr h ↦ rw h refl
    | inl h ↦ rw h (elim (Bool-cases (ltb j (length vec))) [
      | inl below ↦ ap slot (get_elem?-append_left vec _ j (ltb→lt _ _ below))
      | inr above ↦
          ap slot (get_elem?-append_right vec _ j (ltb-false _ _ above))
          ∙ slot-replicate (i + 1 - length vec) (j - length vec)
          ∙ ap slot (sym (get_elem?-beyond vec j (ltb-false _ _ above)))
    ])
  ]

  -- A read after a write: the written value at its index, and the old one elsewhere.
  pub get-insert :
      (m : VecMap V) (i j : ℕ) (v : V) → get (insert m i v) j ≡ (if i == j then some v else get m j)
  unfolding get insert
  get-insert m i j v = elim (Bool-cases (i == j)) [
    | inl e ↦ rw (← (==_iff i j).0 e) (
        rw (==_refl i)
          (ap slot (get_elem?-set_self (resize m.vec i) i (some v) (length-resize m.vec i))))
    | inr e ↦ rw e (
        ap slot (get_elem?-set_ne (resize m.vec i) (some v) (==_false i j e))
        ∙ get-resize m.vec i j)
  ]

  -- `push` returns the index behind the value that it adds, so a read at the key
  -- finds nothing, where the key's type has room for that index.
  pub push-get :
      (k : Key ℕ) (m : VecMap V) (v : V)
      → k.key (length m.vec + 1) ≡ ok (length m.vec + 1)
      → (m' : VecMap V) × (push k m v ≡ ok (length m.vec + 1, m'))
        × (get m' (length m.vec) ≡ some v)
        × (get m' (length m.vec + 1) ≡ none)
  unfolding push get
  push-get k m v h =
      let grown : List (Option V) = m.vec ++ (some v ∷ []) in
      let e : length grown ≡ length m.vec + 1 = omega (arith, length-append m.vec (some v ∷ [])) in
      let same : length m.vec - length m.vec ≡ 0 = omega arith in
      (
        record { vec = grown },
        rw (e, h),
        rw (get_elem?-append_right m.vec (some v ∷ []) (length m.vec) (omega arith), same),
        ap slot (get_elem?-beyond grown (length m.vec + 1) (omega (arith, e))),
      )

-- The index of an endpoint's key determines the key, for a device address and an endpoint number
-- of the widths that a token has for them.
pub endpoint_key_round_trip :
    (a n : ℕ) (d : Direction)
    → a < 128
    → n < 16
    → (endpoint_key_id (record { dev_addr = a; direction = d; ep_num = n }) < 4096)
      × (endpoint_key_of (endpoint_key_id (record { dev_addr = a; direction = d; ep_num = n }))
          ≡ record { dev_addr = a; direction = d; ep_num = n })
unfolding endpoint_key_id endpoint_key_of
endpoint_key_round_trip a n dir_out h k = (omega arith, ground arith)
endpoint_key_round_trip a n dir_in h k = (omega arith, ground arith)
