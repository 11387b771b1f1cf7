-- ===== src/Storage/Stream/Start.antt =====
-- src/stream.rs: a new stream, and appends to it one after the other.
use packetry.Base.{
  ℕ, ◌≤◌, ◌<◌, ◌≡◌, refl, sym, ap, ◌∙◌, Bool, none, List, [], ◌∷◌, ◌++◌, length, Result, ok, ◌>>=◌,
  arith, subst, le→ltb-false, append_assoc, append-nil,
}
use packetry.Storage.Stream.{Platform, Buffer, Stream, put, new_buffer, stream, append}
use packetry.Storage.Stream.Keep.{Works, put_self}
use packetry.Storage.Stream.Append.{Represents, append-Represents}

pub stream-Represents :
    (block_size : ℕ) (platform : Platform) (page_size : ℕ)
    → Works block_size platform
    → 0 < block_size
    → page_size ≤ block_size
    → (st : Stream) × ((stream block_size platform page_size ≡ ok st) × Represents block_size st [])
unfolding stream new_buffer
stream-Represents block_size platform page_size works some_size pages =
    let (m, (e, l)) = works.allocates 0 in
    let empty : ℕ → Buffer = λ n. record { block_base = 0; memory = [] } in
    let b : Buffer = record { block_base = 0; memory = m } in
    let made : List ℕ → Stream = λ memory. record {
      shared_length = 0;
      len = 0;
      file = none;
      buffers = put empty 0 (record { block_base = 0; memory = memory });
      allocated = 1;
      current_buffer = 0;
      ptr = 0;
      spare_buffer = none;
    } in
    let named : List ℕ → Result (ℕ × Stream) = λ memory. ok (0, made memory) in
    let now = put_self empty 0 b in
    (
      made m,
      (
        rw (le→ltb-false block_size page_size pages)
            (ap (λ r. r >>= named >>= λ a. ok (record a.1 { current_buffer = a.0 })) e),
        record {
          writing = record {
            block = 0;
            base = ap (λ x. x.block_base) now ∙ omega arith;
            file_size = omega arith;
            room = omega arith;
            whole = refl;
            sizes = λ n h.
                let z : n ≡ 0 = omega arith in
                ap (λ k. length (put empty 0 b k).memory) z ∙ ap (λ x. length x.memory) now ∙ l;
            current_known = omega arith;
            spare_known = λ n q. cc q;
            total = refl;
          };
          not_full = some_size;
          shared = refl;
        },
      ),
    )

-- `append` of one piece after another, with the buffers held at each.
unfoldable pub append_all :
    (block_size : ℕ) (platform : Platform) (held : ℕ → Bool) (pieces : List (List ℕ))
    → Stream
    → Result Stream
append_all block_size platform held [] st = ok st
append_all block_size platform held (p ∷ ps) st =
    append block_size platform held p st >>= λ r. append_all block_size platform held ps r.1

-- The bytes of the pieces, in a row.
abbrev pub joined : List (List ℕ) → List ℕ
joined [] = []
joined (p ∷ ps) = p ++ joined ps

-- Each piece has a byte, and is no longer than a block.
abbrev pub Pieces : (block_size : ℕ) → List (List ℕ) → Type 0
Pieces block_size [] = Unit
Pieces block_size (p ∷ ps) = (0 < length p) × (length p ≤ block_size) × Pieces block_size ps

append_all-Represents :
    (block_size : ℕ) (platform : Platform) (held : ℕ → Bool) (pieces : List (List ℕ))
    (content : List ℕ) (st : Stream)
    → Works block_size platform
    → Represents block_size st content
    → Pieces block_size pieces
    → (st' : Stream) × ((append_all block_size platform held pieces st ≡ ok st')
        × Represents block_size st' (content ++ joined pieces))
unfolding append_all
append_all-Represents block_size platform held [] content st works r fit =
    (st, (refl, subst (Represents block_size st) (sym (append-nil content)) r))
append_all-Represents block_size platform held (p ∷ ps) content st works r
      (some_bytes, small, fit) =
    let (st1, (e1, (r1, kept))) =
      append-Represents block_size platform held p content st works r some_bytes small in
    let (st2, (e2, r2)) =
      append_all-Represents block_size platform held ps (content ++ p) st1 works r1 fit in
    (
      st2,
      (
        ap (λ m. m >>= λ r. append_all block_size platform held ps r.1) e1 ∙ e2,
        subst (Represents block_size st2) (append_assoc content p (joined ps)) r2,
      ),
    )

-- A new stream, of blocks no smaller than a page, to which pieces of a byte or more and a block or
-- less are appended: no call fails where the platform's do not, and the stream then holds the bytes
-- of the pieces in a row.
pub stream-append_all :
    (block_size : ℕ) (platform : Platform) (held : ℕ → Bool) (page_size : ℕ)
    (pieces : List (List ℕ))
    → Works block_size platform
    → 0 < block_size
    → page_size ≤ block_size
    → Pieces block_size pieces
    → (st : Stream) × (((stream block_size platform page_size
            >>= append_all block_size platform held pieces)
          ≡ ok st)
        × Represents block_size st (joined pieces))
stream-append_all block_size platform held page_size pieces works some_size pages fit =
    let (st, (e, r)) = stream-Represents block_size platform page_size works some_size pages in
    let (st', (e', r')) = append_all-Represents block_size platform held pieces [] st works r fit in
    (st', (ap (λ m. m >>= append_all block_size platform held pieces) e ∙ e', r'))
