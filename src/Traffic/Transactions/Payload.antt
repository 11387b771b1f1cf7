-- ===== src/Traffic/Transactions/Payload.antt =====
-- src/capture.rs: what `transaction` and `transaction_bytes` make of the packets of a transaction.
use packetry.Base.{
  ℕ, Bool, ◌+◌, ◌-◌, ◌≤◌, ◌<◌, ◌≡◌, refl, sym, ap, ◌∙◌, true, false, none, some, List, [], ◌∷◌,
  ◌++◌, ltb, ◌==◌, length, take, drop, get_elem?, ok, arith, length-append, append_assoc,
  le→ltb-false, le→leb, ==_iff, ne→==_false, take-append_length, drop-append_length,
}
use packetry.Usb.Pid.{Pid, token_out, data0, token_in, data1, setup, from_byte, is_any}
use packetry.Usb.Validate.{slice}
use packetry.Capture.Writer.{CaptureWriter, create_capture}
use packetry.Capture.Reader.{get_position, target_range, get_range, read_range}
use packetry.Decoder.State.{Decoder}
use packetry.Decoder.Packets.{new_decoder}
use packetry.Decoder.Log.RoundTrip.{decode, decode-Stored}
use packetry.Decoder.Log.OnStream.{packets_of, OnStream, decode-OnStream}
use packetry.Storage.Stream.{Platform}
use packetry.Storage.Stream.Keep.{Works}
use packetry.Storage.Stream.Start.{Pieces}
use packetry.Decoder.Log.Placed.{Placed, Stored-Placed, get_position-Placed}
use packetry.Traffic.Transactions.{
  Transaction, payload_size, packet_pid, find_data_packet, find_payload, body_range, transaction,
  transaction_bytes,
}

packet_pid-Placed :
    (c : CaptureWriter) (k b : ℕ) (rest : List ℕ)
    → Placed c k (b ∷ rest)
    → packet_pid c k ≡ ok (from_byte b)
unfolding packet_pid
packet_pid-Placed c k b rest p =
    let same : length p.before + 0 ≡ length p.before = omega arith in
    let first : get_position c.packet_data (length p.before) ≡ ok b =
      ap (get_position c.packet_data) (sym same)
      ∙ get_position-Placed c k 0 (b ∷ rest) p (omega arith) in
    rw (p.here, first) refl

-- The body of a list between what stands before and behind it.
slice-body :
    (front body back : List ℕ)
    → slice (front ++ (body ++ back)) (length front) (length front + length body) ≡ body
slice-body front body back =
    let count : length front + length body - length front ≡ length body = omega arith in
    ap (λ n. take n (drop (length front) (front ++ (body ++ back)))) count
    ∙ ap (take (length body)) (drop-append_length front (body ++ back))
    ∙ take-append_length body back

read_range-body :
    (front body back : List ℕ)
    → read_range (front ++ (body ++ back)) (length front, length front + length body) ≡ ok body
unfolding read_range get_range
read_range-body front [] back =
    let same : (length front + 0 == length front) ≡ true =
      (==_iff (length front + 0) (length front)).1 (omega arith) in
    rw (le→ltb-false (length front + 0) (length front) (omega arith), same) refl
read_range-body front (x ∷ body) back =
    rw
      (
        le→ltb-false (length front + length (x ∷ body)) (length front) (omega arith),
        ne→==_false (length front + length (x ∷ body)) (length front) (λ e. omega arith),
        le→ltb-false (length (front ++ ((x ∷ body) ++ back))) (length front + length (x ∷ body)) (
            omega (arith, length-append front ((x ∷ body) ++ back), length-append (x ∷ body) back)),
      )
      (ap ok (slice-body front (x ∷ body) back))

-- A packet of one byte, a body and two bytes.
abbrev pub framed : (b x y : ℕ) (body : List ℕ) → List ℕ
framed b x y body = b ∷ (body ++ (x ∷ y ∷ []))

module _ (c : CaptureWriter) (k b x y : ℕ) (body : List ℕ)
    (p : Placed c k (framed b x y body)) where
  front : List ℕ
  front = p.before ++ (b ∷ [])

  data_split : c.packet_data ≡ front ++ (body ++ ((x ∷ y ∷ []) ++ p.after))
  unfolding front
  data_split =
      p.whole
      ∙ ap (λ l. p.before ++ (b ∷ l)) (append_assoc body (x ∷ y ∷ []) p.after)
      ∙ sym (append_assoc p.before (b ∷ []) (body ++ ((x ∷ y ∷ []) ++ p.after)))

  length-front : length front ≡ length p.before + 1
  unfolding front
  length-front = length-append p.before (b ∷ [])

  body_range-Placed :
      body_range (length p.before, length p.before + length (framed b x y body))
      ≡ ok (length front, length front + length body)
  body_range-Placed =
      let next = length p.before + length (framed b x y body) in
      let count = length-append body (x ∷ y ∷ []) in
      let two : ltb next 2 ≡ false = le→ltb-false next 2 (omega arith) in
      let first : length p.before + 1 ≡ length front = sym length-front in
      let last : next - 2 ≡ length front + length body = omega (arith, length-front) in
      rw two (ap (λ n. ok (n, next - 2)) first ∙ ap (λ n. ok (length front, n)) last)

  read_range-Placed : read_range c.packet_data (length front, length front + length body) ≡ ok body
  read_range-Placed =
      ap (λ l. read_range l (length front, length front + length body)) data_split
      ∙ read_range-body front body ((x ∷ y ∷ []) ++ p.after)

find_data_packet-token :
    (c : CaptureWriter) (pid : Pid) (start count : ℕ)
    → is_any pid (setup ∷ token_in ∷ token_out ∷ []) ≡ true
    → 2 ≤ count
    → find_data_packet c pid start count ≡ ok (none, some (start + 1))
unfolding find_data_packet
find_data_packet-token c pid start count token two = rw (token, le→leb 2 count two) refl

find_payload-Placed :
    (c : CaptureWriter) (k b x y : ℕ) (body : List ℕ) (p : Placed c k (framed b x y body))
    → is_any (from_byte b) (data0 ∷ data1 ∷ []) ≡ true
    → find_payload c (some k)
      ≡ ok (some (length (front c k b x y body p), length (front c k b x y body p) + length body))
unfolding find_payload
find_payload-Placed c k b x y body p payload =
    let same : length p.before + 0 ≡ length p.before = omega arith in
    let byte : get_position c.packet_data (length p.before) ≡ ok b =
      ap (get_position c.packet_data) (sym same)
      ∙ get_position-Placed c k 0 (framed b x y body) p (omega arith) in
    rw (p.range, byte, payload, body_range-Placed c k b x y body p) refl

-- What is read of a transaction that holds a payload.
abbrev pub Carries : CaptureWriter → (id : ℕ) → (first last : Pid) → (body : List ℕ) → Type 0
Carries c id first last body =
    (t : Transaction) × ((transaction c id ≡ ok t)
      × (t.start_pid ≡ first)
      × (t.end_pid ≡ last)
      × (transaction_bytes c t ≡ ok body)
      × (payload_size t ≡ ok (some (length body))))

transaction-Placed :
    (c : CaptureWriter) (id start next : ℕ) (b₀ b₁ b₂ x y : ℕ) (rest₀ body rest₂ : List ℕ)
    → target_range c.transaction_index id (length c.packet_index) ≡ ok (start, next)
    → start + 2 ≤ next
    → Placed c start (b₀ ∷ rest₀)
    → Placed c (start + 1) (framed b₁ x y body)
    → Placed c (next - 1) (b₂ ∷ rest₂)
    → is_any (from_byte b₀) (setup ∷ token_in ∷ token_out ∷ []) ≡ true
    → is_any (from_byte b₁) (data0 ∷ data1 ∷ []) ≡ true
    → Carries c id (from_byte b₀) (from_byte b₂) body
unfolding transaction transaction_bytes payload_size
transaction-Placed c id start next b₀ b₁ b₂ x y rest₀ body rest₂ range two p₀ p₁ p₂ token payload =
    let fits : ltb next start ≡ false = le→ltb-false next start (omega arith) in
    let last : ltb next 1 ≡ false = le→ltb-false next 1 (omega arith) in
    let first = length (front c (start + 1) b₁ x y body p₁) in
    let size : first + length body - first ≡ length body = omega arith in
    (
      record {
        start_pid = from_byte b₀;
        end_pid = from_byte b₂;
        split_token = none;
        packet_id_range = (start, next);
        data_packet_id = some (start + 1);
        payload_byte_range = some (first, first + length body);
      },
      (
        rw
            (
              range,
              fits,
              packet_pid-Placed c start b₀ rest₀ p₀,
              last,
              packet_pid-Placed c (next - 1) b₂ rest₂ p₂,
              find_data_packet-token c (from_byte b₀) start (next - start) token (omega arith),
              find_payload-Placed c (start + 1) b₁ x y body p₁ payload,
            )
            refl,
        refl,
        refl,
        rw (p₁.range, body_range-Placed c (start + 1) b₁ x y body p₁)
            (read_range-Placed c (start + 1) b₁ x y body p₁),
        rw (le→ltb-false (first + length body) first (omega arith), size) refl,
      ),
    )

module _ (crc16 : List ℕ → ℕ) (block_size : ℕ) (platform : Platform) (held : ℕ → Bool)
    (page_size : ℕ) (works : Works block_size platform) (some_size : 0 < block_size)
    (pages : page_size ≤ block_size) (ps : List (List ℕ × ℕ))
    (pieces : Pieces block_size (packets_of ps)) where
  -- When a new decoder has taken in packets, each of a byte or more and of a block or less, without
  -- an error, a transaction of its capture that begins with a SETUP, IN or OUT packet, with a DATA0
  -- or DATA1 packet of three bytes or more behind it, is read back: with the identifiers of its
  -- first packet and of its last, and as its payload the bytes of the data packet between the
  -- identifier and the checksum. Where the platform's calls do not fail, the stream to which the
  -- packets are appended holds the bytes that the reads are of.
  pub transaction-decode :
      (d d' : Decoder) (id start next : ℕ) (b₀ b₁ b₂ x y t₀ t₁ t₂ : ℕ) (rest₀ body rest₂ : List ℕ)
      → new_decoder create_capture ≡ ok d
      → decode crc16 ps d ≡ ok (tt, d')
      → target_range d'.capture.transaction_index id (length d'.capture.packet_index)
        ≡ ok (start, next)
      → start + 2 ≤ next
      → get_elem? ps start ≡ some (b₀ ∷ rest₀, t₀)
      → get_elem? ps (start + 1) ≡ some (framed b₁ x y body, t₁)
      → get_elem? ps (next - 1) ≡ some (b₂ ∷ rest₂, t₂)
      → is_any (from_byte b₀) (setup ∷ token_in ∷ token_out ∷ []) ≡ true
      → is_any (from_byte b₁) (data0 ∷ data1 ∷ []) ≡ true
      → Carries d'.capture id (from_byte b₀) (from_byte b₂) body
        × OnStream block_size platform held page_size ps d'.capture
  transaction-decode d d' id start next b₀ b₁ b₂ x y t₀ t₁ t₂ rest₀ body rest₂ new run range two e₀
        e₁ e₂ token payload =
      let s = decode-Stored crc16 ps d d' new run in
      let c = d'.capture in
      (
        transaction-Placed c id start next b₀ b₁ b₂ x y rest₀ body rest₂ range two
            (Stored-Placed ps c start (b₀ ∷ rest₀) t₀ s e₀)
            (Stored-Placed ps c (start + 1) (framed b₁ x y body) t₁ s e₁)
            (Stored-Placed ps c (next - 1) (b₂ ∷ rest₂) t₂ s e₂) token payload,
        decode-OnStream crc16 block_size platform held page_size works some_size pages ps pieces d
            d' new run,
      )
