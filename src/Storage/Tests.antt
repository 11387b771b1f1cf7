-- ===== src/Storage/Tests.antt =====
-- Instances of the theorems on the streams and the indexes: blocks of four bytes, on a platform
-- that never fails, and a cache of one mapping.
use packetry.Base.{
  ℕ, ◌+◌, ◌/◌, ◌≤◌, ◌≡◌, refl, sym, inl, Bool, true, false, Option, none, some, [], ◌∷◌, ◌==◌,
  ==_iff, if◌then◌else◌, length, ok, ◌>>=◌, arith, some_injective,
}
use packetry.Storage.Index.{bisect_left, bisect_right}
use packetry.Storage.Index.Counts.{bisect-count}
use packetry.Storage.Compact.{CompactIndex, compact_index, get}
use packetry.Storage.Compact.Range
use packetry.Storage.Compact.Range.Values.{push_all-get_range}
use packetry.Storage.Compact.Search
use packetry.Storage.Compact.Search.Block.{bisect_left-block}
use packetry.Storage.Compact.Holds.{push_all, push_all-get}
use packetry.Storage.Stream.{Buffer, Stream, Data, stream, append, access, read}
use packetry.Storage.Stream.Keep.{contents}
use packetry.Storage.Stream.Handles.{Kept}
use packetry.Storage.Stream.Append.{Represents, append-Represents}
use packetry.Storage.Stream.Start.{append_all, stream-append_all}
use packetry.Storage.Stream.Access.{Remembers, Sound, access-read}
use packetry.Storage.Stream.Whole.{append-nothing, append-whole_blocks}
use packetry.Storage.Memory.{memory, memory-Works, unheld}
use packetry.Storage.Items.{push_value, append_values, get_value, get_range}
use packetry.Storage.Items.Ranges.{get_range-slice}
use packetry.Storage.Items.Iterate.{collect, collect-slice}
use packetry.Storage.Items.Push.{push_value-get_value, append_values-get_range}

-- The last mapping.
abbrev Cache : Type 0
Cache = Option (ℕ × ℕ)

abbrev find : Cache → ℕ → Option ℕ
find none block = none
find (some (key, mapping)) block = if key == block then some mapping else none

abbrev lookup : Cache → ℕ → Option ℕ × Cache
lookup cache block = (find cache block, cache)

abbrev remember : Cache → ℕ → ℕ → Cache
remember cache block mapping = some (block, mapping)

find-remember :
    (other mapping block offset : ℕ) (b : Bool)
    → (other == block) ≡ b
    → (if b then some mapping else none) ≡ some offset
    → (block ≡ other) × (offset ≡ mapping)
find-remember other mapping block offset true y h =
    (sym ((==_iff other block).0 y), sym (some_injective h))
find-remember other mapping block offset false y h = cc h

remember-Remembers : Remembers Cache lookup remember
remember-Remembers = record {
  after_lookup = λ cache other block offset h. h;
  after_remember = λ cache other mapping block offset h.
      inl (find-remember other mapping block offset (other == block) refl h);
}

nothing-Sound : Sound lookup none
nothing-Sound block offset h = cc h

bisect-count_example :
    (bisect_left 2 (1 ∷ 4 ∷ 4 ∷ 6 ∷ 9 ∷ []) 4 ≡ ok 1)
    × (bisect_right 2 (1 ∷ 4 ∷ 4 ∷ 6 ∷ 9 ∷ []) 4 ≡ ok 3)
bisect-count_example = bisect-count 2 4 (1 ∷ 4 ∷ 4 ∷ 6 ∷ 9 ∷ []) (omega arith) (omega arith)

push_all-get_example :
    (push_all 1 (5 ∷ 9 ∷ 300 ∷ 100000 ∷ 100001 ∷ []) compact_index >>= λ c. get 2 c 4) ≡ ok 100001
push_all-get_example =
    push_all-get 2 1 (5 ∷ 9 ∷ 300 ∷ 100000 ∷ 100001 ∷ []) 4 (omega arith) (omega arith)
      (omega arith) (omega arith) (omega arith)

-- Of three segments, the last value of the first, the second and a part of the third.
push_all-get_range_example :
    (push_all 1 (5 ∷ 9 ∷ 300 ∷ 100000 ∷ 100001 ∷ 100002 ∷ []) compact_index >>= λ c.
    Range.get_range 2 c (1, 5))
    ≡ ok (9 ∷ 300 ∷ 100000 ∷ 100001 ∷ [])
push_all-get_range_example =
    push_all-get_range 2 1 (5 ∷ 9 ∷ 300 ∷ 100000 ∷ 100001 ∷ 100002 ∷ []) 1 5 (omega arith)
      (omega arith) (omega arith) (omega arith) (omega arith) (omega arith)

-- The values 0 to 9 in a segment, with a byte for each difference.
abbrev ten_values : CompactIndex
ten_values = record {
  segment_starts = 0 ∷ [];
  segment_bases = 0 ∷ [];
  segment_offsets = 0 ∷ [];
  segment_widths = 1 ∷ [];
  delta_bytes = 1 ∷ 2 ∷ 3 ∷ 4 ∷ 5 ∷ 6 ∷ 7 ∷ 8 ∷ 9 ∷ [];
  data_offset = 9;
  current_base_value = some 0;
  current_delta_width = some 1;
  len = 10;
}

-- The value 8 stands at position 8, but is sought in a block of four bytes.
ten_runs : (bisect_right 2 (0 ∷ []) 8 ≡ ok 1) × (Search.bisect_left 2 4 ten_values 8 ≡ ok 5)
unfolding bisect_right Search.bisect_left packetry.Storage.Index.bisect_loop
    packetry.Capture.Reader.get_position packetry.Capture.Reader.target_range Range.chunks_exact
ten_runs = (refl, refl)

bisect_left-block_example : 5 ≤ 0 + 1 + 4 / 1
bisect_left-block_example =
    bisect_left-block 2 4 (omega arith) ten_values 0 8 5 ten_runs.0 ten_runs.1

stream-append_all_example :
    (st : Stream) × (((stream 4 (memory 4) 4
          >>= append_all 4 (memory 4) unheld ((1 ∷ 2 ∷ 3 ∷ []) ∷ (4 ∷ 5 ∷ 6 ∷ []) ∷ []))
        ≡ ok st)
      × Represents 4 st (1 ∷ 2 ∷ 3 ∷ 4 ∷ 5 ∷ 6 ∷ []))
stream-append_all_example =
    stream-append_all 4 (memory 4) unheld 4 ((1 ∷ 2 ∷ 3 ∷ []) ∷ (4 ∷ 5 ∷ 6 ∷ []) ∷ [])
      (memory-Works 4) (omega arith) (omega arith) (omega arith)

-- Six bytes, of which four are in the file, with a spare buffer.
abbrev first_block : Buffer
first_block = record { block_base = 0; memory = 1 ∷ 2 ∷ 3 ∷ 4 ∷ [] }

abbrev last_block : Buffer
last_block = record { block_base = 4; memory = 5 ∷ 6 ∷ 7 ∷ 7 ∷ [] }

abbrev six_buffers : ℕ → Buffer
six_buffers n = if n == 1 then last_block else first_block

abbrev six : Stream
six = record {
  shared_length = 6;
  len = 6;
  file = some (1 ∷ 2 ∷ 3 ∷ 4 ∷ []);
  buffers = six_buffers;
  allocated = 2;
  current_buffer = 1;
  ptr = 2;
  spare_buffer = some 0;
}

six_buffers-size : (b : Bool) → length (if b then last_block else first_block).memory ≡ 4
six_buffers-size true = refl
six_buffers-size false = refl

six-Represents : Represents 4 six (1 ∷ 2 ∷ 3 ∷ 4 ∷ 5 ∷ 6 ∷ [])
six-Represents = record {
  writing = record {
    block = 1;
    base = refl;
    file_size = refl;
    room = omega arith;
    whole = refl;
    sizes = λ n h. six_buffers-size (n == 1);
    current_known = omega arith;
    spare_known = λ n q. (omega (arith, some_injective q), λ e. omega (arith, some_injective q));
    total = refl;
  };
  not_full = omega arith;
  shared = refl;
}

append-Represents_example :
    (st' : Stream) × ((append 4 (memory 4) unheld (8 ∷ 9 ∷ 10 ∷ []) six ≡ ok (9, st'))
      × (Represents 4 st' (1 ∷ 2 ∷ 3 ∷ 4 ∷ 5 ∷ 6 ∷ 8 ∷ 9 ∷ 10 ∷ [])
          × Kept 4 (memory 4) unheld six st'))
append-Represents_example =
    append-Represents 4 (memory 4) unheld (8 ∷ 9 ∷ 10 ∷ []) (1 ∷ 2 ∷ 3 ∷ 4 ∷ 5 ∷ 6 ∷ []) six
      (memory-Works 4) six-Represents (omega arith) (omega arith)

access-read_example :
    (handle : Data) × ((cache' : Cache) × ((access 4 (memory 4) Cache lookup remember six none 1 6
          ≡ ok (handle, cache'))
        × ((read 4 (memory 4) six handle ≡ ok (2 ∷ 3 ∷ 4 ∷ [])) × Sound lookup cache')))
access-read_example =
    access-read 4 (memory 4) six (1 ∷ 2 ∷ 3 ∷ 4 ∷ 5 ∷ 6 ∷ []) Cache lookup remember none 1 6
      (memory-Works 4) six-Represents remember-Remembers nothing-Sound (omega arith) (omega arith)

get_range-slice_example :
    (cache' : Cache) × ((get_range 2 4 (memory 4) Cache lookup remember six none 1 3
        ≡ ok (3 ∷ 4 ∷ 5 ∷ 6 ∷ [], cache'))
      × Sound lookup cache')
get_range-slice_example =
    get_range-slice 2 2 (memory 4) six (1 ∷ 2 ∷ 3 ∷ 4 ∷ 5 ∷ 6 ∷ []) Cache lookup remember none 1 3
      (omega arith) (omega arith) (memory-Works 4) six-Represents remember-Remembers nothing-Sound
      (omega arith) (omega arith)

push_value-get_value_example :
    (st' : Stream) × ((push_value 2 4 (memory 4) unheld (8 ∷ 9 ∷ []) six ≡ ok (3, st'))
      × (Represents 4 st' (1 ∷ 2 ∷ 3 ∷ 4 ∷ 5 ∷ 6 ∷ 8 ∷ 9 ∷ [])
          × ((cache' : Cache) × (get_value 2 4 (memory 4) Cache lookup remember st' none 3
                ≡ ok (8 ∷ 9 ∷ [], cache')))))
push_value-get_value_example =
    push_value-get_value 2 2 (memory 4) unheld six (1 ∷ 2 ∷ 3 ∷ 4 ∷ 5 ∷ 6 ∷ []) (8 ∷ 9 ∷ []) 3 Cache
      lookup remember none (omega arith) (omega arith) (memory-Works 4) six-Represents refl refl
      remember-Remembers nothing-Sound

append_values-get_range_example :
    (st' : Stream) × ((append_values 2 4 (memory 4) unheld (8 ∷ 9 ∷ 10 ∷ 11 ∷ []) six
        ≡ ok ((3, 5), st'))
      × ((cache' : Cache) × (get_range 2 4 (memory 4) Cache lookup remember st' none 3 5
            ≡ ok (8 ∷ 9 ∷ 10 ∷ 11 ∷ [], cache'))))
append_values-get_range_example =
    append_values-get_range 2 2 (memory 4) unheld six (1 ∷ 2 ∷ 3 ∷ 4 ∷ 5 ∷ 6 ∷ [])
      (8 ∷ 9 ∷ 10 ∷ 11 ∷ []) 3 2 Cache lookup remember none (omega arith) (omega arith)
      (memory-Works 4) six-Represents refl refl (omega arith) (omega arith) remember-Remembers
      nothing-Sound

collect-slice_example :
    collect 2 4
      (memory 4)
      Cache
      lookup
      remember
      3
      six
      none
      (record { start = 1; end = 3; current_data = none })
    ≡ ok (3 ∷ 4 ∷ 5 ∷ 6 ∷ [])
collect-slice_example =
    collect-slice 2 2 (memory 4) six (1 ∷ 2 ∷ 3 ∷ 4 ∷ 5 ∷ 6 ∷ []) Cache lookup remember none 1 3
      (omega arith) (omega arith) (memory-Works 4) six-Represents remember-Remembers nothing-Sound
      (omega arith) (omega arith)

-- Four bytes, in the file, and an empty buffer.
abbrev four : Stream
four = record {
  shared_length = 4;
  len = 4;
  file = some (1 ∷ 2 ∷ 3 ∷ 4 ∷ []);
  buffers = six_buffers;
  allocated = 2;
  current_buffer = 1;
  ptr = 0;
  spare_buffer = some 0;
}

four-Represents : Represents 4 four (1 ∷ 2 ∷ 3 ∷ 4 ∷ [])
four-Represents = record {
  writing = record {
    block = 1;
    base = refl;
    file_size = refl;
    room = omega arith;
    whole = refl;
    sizes = λ n h. six_buffers-size (n == 1);
    current_known = omega arith;
    spare_known = λ n q. (omega (arith, some_injective q), λ e. omega (arith, some_injective q));
    total = refl;
  };
  not_full = omega arith;
  shared = refl;
}

append-nothing_example :
    (st' : Stream) × ((append 4 (memory 4) unheld [] four ≡ ok (4, st'))
      × ((contents st'.file ≡ 1 ∷ 2 ∷ 3 ∷ 4 ∷ 5 ∷ 6 ∷ 7 ∷ 7 ∷ [])
          × (length (contents st'.file) ≡ 8)))
append-nothing_example =
    append-nothing 4 (memory 4) unheld (1 ∷ 2 ∷ 3 ∷ 4 ∷ []) four (memory-Works 4) four-Represents
      refl

append-whole_blocks_example :
    (st' : Stream) × ((append 4 (memory 4) unheld (10 ∷ 11 ∷ 12 ∷ 13 ∷ 14 ∷ []) four ≡ ok (9, st'))
      × ((access 4 (memory 4) Cache lookup remember st' none 4 5 >>= λ r. read 4 (memory 4) st' r.0)
          ≡ ok (14 ∷ [])))
append-whole_blocks_example =
    append-whole_blocks 4 (memory 4) unheld (10 ∷ 11 ∷ 12 ∷ 13 ∷ 14 ∷ []) (1 ∷ 2 ∷ 3 ∷ 4 ∷ []) four
      Cache lookup remember none (memory-Works 4) four-Represents refl (omega arith) (omega arith)
