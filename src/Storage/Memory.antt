-- ===== src/Storage/Memory.antt =====
-- A platform for src/stream.rs that keeps its files in memory and never fails.
use packetry.Base.{ℕ, refl, [], ◌++◌, ◌+◌, replicate, length-replicate, ok, Bool, false}
use packetry.Usb.Validate.{slice}
use packetry.Storage.Stream.{Platform}
use packetry.Storage.Stream.Keep.{Works}

abbrev pub memory : (block_size : ℕ) → Platform
memory block_size = record {
  allocate = λ n. ok (replicate block_size 7);
  create_file = ok [];
  write_file = λ file bytes. ok (file ++ bytes);
  map_file = λ file offset count. ok tt;
  view = λ file offset count. ok (slice file offset (offset + count));
}

pub memory-Works : (block_size : ℕ) → Works block_size (memory block_size)
memory-Works block_size = record {
  allocates = λ n. (replicate block_size 7, (refl, length-replicate block_size 7));
  creates = refl;
  writes = λ file bytes. refl;
  maps = λ file offset count h. refl;
  views = λ file offset count h. refl;
}

abbrev pub unheld : (buffer : ℕ) → Bool
unheld n = false
