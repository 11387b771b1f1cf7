-- ===== src/Usb/WellFormed.antt =====
-- The packets that USB 2.0 section 8.3 and 8.4 allow, and that `validate_packet` accepts just these.
use packetry.Base.{
  ℕ, suc, ◌+◌, ◌*◌, ◌-◌, ◌/◌, ◌%◌, ◌≤◌, ◌≡◌, ◌≢◌, ◌↔◌, ◌⊎◌, inl, inr, refl, sym, ap, ◌∙◌, subst,
  Bool, true, false, ◌&&◌, List, [], ◌∷◌, ◌++◌, leb, ◌==◌, if◌then◌else◌, length, get_or, take,
  arith, Bool-cases, length-append, length-take, append-last_two, take-append_length,
  get_or-append_length,
}
use packetry.Usb.Pid.{
  Pid, split, malformed, to_byte, from_byte, is_any, from_byte-to_byte, from_byte_inv, eq_pid_sound,
}
use packetry.Usb.Crc.{crc5}
use packetry.Usb.Validate.{
  valid, is_token, is_data, is_handshake, slice, le16, le32, is_valid, validate_packet,
}

module _ (crc16 : List ℕ → ℕ) where
  -- A packet of the kind `p`, byte by byte.
  pub data WellFormed (p : Pid) (packet : List ℕ) : Type 0 where
    token_packet :
        (a b : ℕ)
        → is_token p ≡ true
        → packet ≡ to_byte p ∷ a ∷ b ∷ []
        → b / 8 ≡ crc5 (a + b % 8 * 256) 11
        → WellFormed p packet
    split_packet :
        (a b c : ℕ)
        → p ≡ split
        → packet ≡ to_byte p ∷ a ∷ b ∷ c ∷ []
        → c / 8 ≡ crc5 (a + b * 256 + c % 8 * 65536) 19
        → WellFormed p packet
    data_packet :
        (body : List ℕ) (a b : ℕ)
        → is_data p ≡ true
        → packet ≡ to_byte p ∷ body ++ (a ∷ b ∷ [])
        → length body ≤ 1024
        → a + b * 256 ≡ crc16 body
        → WellFormed p packet
    handshake_packet : is_handshake p ≡ true → packet ≡ to_byte p ∷ [] → WellFormed p packet

  -- The source's four arms as alternatives.
  arms :
      (t s d h : Bool) (n x₁ y₁ x₂ y₂ x₃ y₃ : ℕ)
      → (if t && n == 3
          then x₁ == y₁
          else if s && n == 4
          then x₂ == y₂
          else if d && (leb 3 n && leb n 1027)
          then x₃ == y₃
          else h && n == 1)
        ≡ true
      → ((t ≡ true) × (n ≡ 3) × (x₁ ≡ y₁))
        ⊎ (((s ≡ true) × (n ≡ 4) × (x₂ ≡ y₂))
            ⊎ (((d ≡ true) × (3 ≤ n) × (n ≤ 1027) × (x₃ ≡ y₃)) ⊎ ((h ≡ true) × (n ≡ 1))))
  arms t s d h n x₁ y₁ x₂ y₂ x₃ y₃ e = ground arith

  -- Those alternatives at a packet.
  abbrev Arms : Pid → List ℕ → Type 0
  Arms p bs =
      let packet : List ℕ = to_byte p ∷ bs in
      let len : ℕ = length packet in
      let byte : ℕ → ℕ = λ i. get_or packet i 0 in
      ((is_token p ≡ true) × (len ≡ 3) × (byte 2 / 8 ≡ crc5 (le32 (byte 1) (byte 2 % 8) 0 0) 11))
      ⊎ (((is_any p (split ∷ []) ≡ true)
            × (len ≡ 4)
            × (byte 3 / 8 ≡ crc5 (le32 (byte 1) (byte 2) (byte 3 % 8) 0) 19))
          ⊎ (((is_data p ≡ true)
                × (3 ≤ len)
                × (len ≤ 1027)
                × (le16 (byte (len - 2)) (byte (len - 1)) ≡ crc16 (slice packet 1 (len - 2))))
              ⊎ ((is_handshake p ≡ true) × (len ≡ 1))))

  module _ (p : Pid) where
    of_token :
        (bs : List ℕ)
        → is_token p ≡ true
        → length (to_byte p ∷ bs) ≡ 3
        → get_or bs 1 0 / 8 ≡ crc5 (le32 (get_or bs 0 0) (get_or bs 1 0 % 8) 0 0) 11
        → WellFormed p (to_byte p ∷ bs)
    of_token (a ∷ b ∷ []) t n c = token_packet a b t refl (c ∙ ap (λ d. crc5 d 11) (omega arith))
    of_token [] t n c = absurd (omega arith)
    of_token (a ∷ []) t n c = absurd (omega arith)
    of_token (a ∷ b ∷ d ∷ bs) t n c = absurd (omega arith)

    of_split :
        (bs : List ℕ)
        → is_any p (split ∷ []) ≡ true
        → length (to_byte p ∷ bs) ≡ 4
        → get_or bs 2 0 / 8 ≡ crc5 (le32 (get_or bs 0 0) (get_or bs 1 0) (get_or bs 2 0 % 8) 0) 19
        → WellFormed p (to_byte p ∷ bs)
    of_split (a ∷ b ∷ d ∷ []) s n c =
        split_packet a b d (eq_pid_sound p split (ground arith)) refl
          (c ∙ ap (λ e. crc5 e 19) (omega arith))
    of_split [] s n c = absurd (omega arith)
    of_split (a ∷ []) s n c = absurd (omega arith)
    of_split (a ∷ b ∷ []) s n c = absurd (omega arith)
    of_split (a ∷ b ∷ d ∷ e ∷ bs) s n c = absurd (omega arith)

    of_data :
        (bs : List ℕ)
        → is_data p ≡ true
        → 3 ≤ length (to_byte p ∷ bs)
        → length (to_byte p ∷ bs) ≤ 1027
        → le16
            (get_or (to_byte p ∷ bs) (length (to_byte p ∷ bs) - 2) 0)
            (get_or (to_byte p ∷ bs) (length (to_byte p ∷ bs) - 1) 0)
          ≡ crc16 (slice (to_byte p ∷ bs) 1 (length (to_byte p ∷ bs) - 2))
        → WellFormed p (to_byte p ∷ bs)
    of_data bs d lo hi c =
        let k : ℕ = length bs - 2 in
        let e₁ : suc (length bs) - 2 ≡ suc k = omega arith in
        let e₂ : suc (length bs) - 1 ≡ suc (k + 1) = omega arith in
        let e₃ : suc k - 1 ≡ k = omega arith in
        data_packet (take k bs) (get_or bs k 0) (get_or bs (k + 1) 0) d
          (ap (λ l. to_byte p ∷ l) (append-last_two bs k 0 (omega arith)))
          (omega (arith, length-take k bs)) (rw (e₁, e₂, e₃) at c)

    of_handshake :
        (bs : List ℕ)
        → is_handshake p ≡ true
        → length (to_byte p ∷ bs) ≡ 1
        → WellFormed p (to_byte p ∷ bs)
    of_handshake [] k n = handshake_packet k refl
    of_handshake (a ∷ bs) k n = absurd (omega arith)

  -- What is accepted is a packet of its kind.
  is_valid-WellFormed :
      (p : Pid) (bs : List ℕ)
      → is_valid crc16 p (to_byte p ∷ bs) ≡ true
      → WellFormed p (to_byte p ∷ bs)
  unfolding is_valid
  is_valid-WellFormed p bs h =
      let packet : List ℕ = to_byte p ∷ bs in
      let len : ℕ = length packet in
      let byte : ℕ → ℕ = λ i. get_or packet i 0 in
      of_arms (
        arms (is_token p) (is_any p (split ∷ [])) (is_data p) (is_handshake p) len (byte 2 / 8)
          (crc5 (le32 (byte 1) (byte 2 % 8) 0 0) 11) (byte 3 / 8)
          (crc5 (le32 (byte 1) (byte 2) (byte 3 % 8) 0) 19) (le16 (byte (len - 2)) (byte (len - 1)))
          (crc16 (slice packet 1 (len - 2))) h)
    where
      of_arms : Arms p bs → WellFormed p (to_byte p ∷ bs)
      of_arms (inl (t, n, c)) = of_token p bs t n c
      of_arms (inr (inl (s, n, c))) = of_split p bs s n c
      of_arms (inr (inr (inl (d, lo, hi, c)))) = of_data p bs d lo hi c
      of_arms (inr (inr (inr (k, n)))) = of_handshake p bs k n

  -- The classes of the identifiers are disjoint.
  classes :
      (p : Pid)
      → (is_data p ≡ true → (is_token p ≡ false) × (is_any p (split ∷ []) ≡ false))
        × (is_handshake p ≡ true
            → (is_token p ≡ false) × (is_any p (split ∷ []) ≡ false) × (is_data p ≡ false))
  classes malformed = (λ h. (refl, refl), λ h. (refl, refl, refl))
  classes _ = (λ h. ground arith, λ h. ground arith)

  -- A packet of a kind is accepted as that kind.
  WellFormed-is_valid :
      (p : Pid) (packet : List ℕ) → WellFormed p packet → is_valid crc16 p packet ≡ true
  unfolding is_valid
  WellFormed-is_valid p packet (token_packet a b t e c) = rw e (ground arith)
  WellFormed-is_valid p packet (split_packet a b d s e c) = rw (e, s) (ground arith)
  WellFormed-is_valid p packet (data_packet body a b d e n c) = rw e (
      let k : ℕ = length body in
      let ends : List ℕ = a ∷ b ∷ [] in
      let e₁ : length (body ++ ends) ≡ suc (suc k) = omega (arith, length-append body ends) in
      let e₂ : suc (suc (suc k)) - 2 ≡ suc k = omega arith in
      let e₃ : suc (suc (suc k)) - 1 ≡ suc (suc k) = omega arith in
      let e₄ : suc k - 1 ≡ k = omega arith in
      let e₅ : k + 0 ≡ k = omega arith in
      let e₆ : k + 1 ≡ suc k = omega arith in
      let g₀ : get_or (body ++ ends) k 0 ≡ a = rw e₅ at (get_or-append_length body ends 0 0) in
      let g₁ : get_or (body ++ ends) (suc k) 0 ≡ b =
        rw e₆ at (get_or-append_length body ends 1 0) in
      rw (e₁, e₂, e₃, e₄, g₀, g₁, take-append_length body ends) (ground (arith, (classes p).0 d)))
  WellFormed-is_valid p packet (handshake_packet k e) = rw e (ground (arith, (classes p).1 k))

  malformed_is_invalid : (packet : List ℕ) → is_valid crc16 malformed packet ≡ false
  unfolding is_valid
  malformed_is_invalid packet = refl

  not_empty : (p : Pid) → ¬ WellFormed p []
  not_empty p (token_packet a b t e c) = cc
  not_empty p (split_packet a b d s e c) = cc
  not_empty p (data_packet body a b d e n c) = cc
  not_empty p (handshake_packet k e) = cc

  first_byte : (p : Pid) (b : ℕ) (bs : List ℕ) → WellFormed p (b ∷ bs) → b ≡ to_byte p
  first_byte p b bs (token_packet _ _ t e c) = ap (λ l. get_or l 0 0) e
  first_byte p b bs (split_packet _ _ d s e c) = ap (λ l. get_or l 0 0) e
  first_byte p b bs (data_packet body _ _ d e n c) = ap (λ l. get_or l 0 0) e
  first_byte p b bs (handshake_packet k e) = ap (λ l. get_or l 0 0) e

  accepted-WellFormed :
      (b : ℕ) (bs : List ℕ)
      → is_valid crc16 (from_byte b) (b ∷ bs) ≡ true
      → WellFormed (from_byte b) (b ∷ bs)
  accepted-WellFormed b bs h =
      let known : from_byte b ≢ malformed = λ e. cc (malformed_is_invalid (b ∷ bs), rw e at h) in
      let e : b ≡ to_byte (from_byte b) = from_byte_inv b known in
      subst (λ x. WellFormed (from_byte b) (x ∷ bs)) (sym e)
        (is_valid-WellFormed (from_byte b) bs
          (subst (λ x. is_valid crc16 (from_byte b) (x ∷ bs) ≡ true) e h))

  valid_injective : {p q : Pid} → valid p ≡ valid q → p ≡ q
  valid_injective h = cc

  -- A packet is accepted as `p` exactly when it is a packet of the kind `p`.
  pub validate_packet_iff :
      (p : Pid) (packet : List ℕ) → (validate_packet crc16 packet ≡ valid p) ↔ WellFormed p packet
  unfolding validate_packet
  validate_packet_iff p [] = (λ h. cc, λ w. absurd (not_empty p w))
  validate_packet_iff p (b ∷ bs) = (
    λ h. elim (Bool-cases (is_valid crc16 (from_byte b) (b ∷ bs))) [
      | inl good ↦
          subst (λ q. WellFormed q (b ∷ bs)) (valid_injective (rw good at h))
            (accepted-WellFormed b bs good)
      | inr bad ↦ cc (rw bad at h)
    ],
    λ w.
        let e : from_byte b ≡ p = ap from_byte (first_byte p b bs w) ∙ from_byte-to_byte p in
        rw (e, WellFormed-is_valid p (b ∷ bs) w),
  )
