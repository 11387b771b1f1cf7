-- ===== src/Storage/Stream/Swap.antt =====
-- src/stream.rs: what a write to the file leaves, with the buffer that it makes the current one.
use packetry.Base.{
  ℕ, suc, ◌+◌, ◌≤◌, ◌<◌, ◌≡◌, refl, sym, ap, ◌∙◌, inl, inr, ◌≢◌, Bool, true, false, Option, none,
  some, List, ◌++◌, ◌==◌, length, take, Result, ok, ◌>>=◌, arith, Bool-cases, Option-cases,
  some_injective, ==_iff, ==_false, append-nil, length-append, length-take,
}
use packetry.Base.Blocks.{suc_block}
use packetry.Storage.Stream.{
  Platform, Buffer, Stream, put, new_buffer, choose_buffer, next_buffer, write_to_file,
  write_buffer_to_file,
}
use packetry.Storage.Stream.Keep.{
  Works, contents, current_memory, Writing, put_self, put_other, length-content,
}

-- The buffer that is chosen for the next block, and the state with it.
pub record Chosen (block_size : ℕ) (held : ℕ → Bool) (block_base : ℕ) (st : Stream) (name : ℕ)
    (st' : Stream) : Type 0 where
  pub base : (st'.buffers name).block_base ≡ block_base
  pub sizes : (n : ℕ) → n < st'.allocated → length (st'.buffers n).memory ≡ block_size
  pub known : name < st'.allocated
  pub unheld : (n : ℕ) → n < st.allocated → held n ≡ true → name ≢ n
  pub not_current : name ≢ st.current_buffer
  pub more : st.allocated ≤ st'.allocated
  pub memories : (n : ℕ) → n < st.allocated → (st'.buffers n).memory ≡ (st.buffers n).memory
  pub len_same : st'.len ≡ st.len
  pub shared_same : st'.shared_length ≡ st.shared_length

-- A write to the file, after which the next block has a buffer of its own.
pub record Swapped (block_size : ℕ) (held : ℕ → Bool) (bytes : List ℕ) (st st' : Stream)
    : Type 0 where
  pub written : st'.file ≡ some (contents st.file ++ bytes)
  pub base : (st'.buffers st'.current_buffer).block_base ≡ st.len
  pub sizes : (n : ℕ) → n < st'.allocated → length (st'.buffers n).memory ≡ block_size
  pub current_known : st'.current_buffer < st'.allocated
  pub spare_known :
      (n : ℕ) → st'.spare_buffer ≡ some n → (n < st'.allocated) × (n ≢ st'.current_buffer)
  pub rewound : st'.ptr ≡ 0
  pub unheld : (n : ℕ) → n < st.allocated → held n ≡ true → st'.current_buffer ≢ n
  pub more : st.allocated ≤ st'.allocated
  pub memories : (n : ℕ) → n < st.allocated → (st'.buffers n).memory ≡ (st.buffers n).memory
  pub len_same : st'.len ≡ st.len
  pub shared_same : st'.shared_length ≡ st.shared_length

module _ (block_size : ℕ) (platform : Platform) (works : Works block_size platform)
    (held : ℕ → Bool) where
  new_buffer-Chosen :
      (block_base : ℕ) (st : Stream) (content : List ℕ)
      → Writing block_size st content
      → (name : ℕ) × ((st' : Stream) × ((new_buffer block_size platform block_base st
              ≡ ok (name, st'))
            × Chosen block_size held block_base st name st'))
  unfolding new_buffer
  new_buffer-Chosen block_base st content w =
      let (m, (e, l)) = works.allocates st.allocated in
      let b : Buffer = record { block_base = block_base; memory = m } in
      let now = put_self st.buffers st.allocated b in
      (
        st.allocated,
        (
          _,
          (
            ap
                (λ r. r >>= λ memory. ok (
                  st.allocated,
                  record st {
                    buffers =
                        put st.buffers st.allocated
                          (record { block_base = block_base; memory = memory });
                    allocated = st.allocated + 1;
                  },
                ))
                e,
            record {
              base = ap (λ x. x.block_base) now;
              sizes = λ n h. elim (Bool-cases (n == st.allocated)) [
                | inl y ↦
                    ap (λ k. length (put st.buffers st.allocated b k).memory)
                      ((==_iff n st.allocated).0 y)
                    ∙ ap (λ x. length x.memory) now
                    ∙ l
                | inr other ↦
                    let ne = ==_false n st.allocated other in
                    ap (λ x. length x.memory) (put_other st.buffers st.allocated b n ne)
                    ∙ w.sizes n (omega arith)
              ];
              known = omega arith;
              unheld = λ n h y q. omega arith;
              not_current = λ q. omega (arith, w.current_known);
              more = omega arith;
              memories = λ n h.
                  ap (λ x. x.memory) (put_other st.buffers st.allocated b n (λ q. omega arith));
              len_same = refl;
              shared_same = refl;
            },
          ),
        ),
      )

  reuse-Chosen :
      (block_base name : ℕ) (st : Stream) (content : List ℕ)
      → Writing block_size st content
      → st.spare_buffer ≡ some name
      → held name ≡ false
      → Chosen block_size held block_base st name (record st {
        buffers = put st.buffers name (record (st.buffers name) { block_base = block_base });
      })
  reuse-Chosen block_base name st content w s free =
      let (l, ne) = w.spare_known name s in
      let b : Buffer = record (st.buffers name) { block_base = block_base } in
      let now = put_self st.buffers name b in
      let memories : (n : ℕ) → (put st.buffers name b n).memory ≡ (st.buffers n).memory = λ n.
        elim (Bool-cases (n == name)) [
          | inl y ↦
              let e = (==_iff n name).0 y in
              ap (λ k. (put st.buffers name b k).memory) e
              ∙ ap (λ x. x.memory) now
              ∙ sym (ap (λ k. (st.buffers k).memory) e)
          | inr other ↦ ap (λ x. x.memory) (put_other st.buffers name b n (==_false n name other))
        ] in
      record {
        base = ap (λ x. x.block_base) now;
        sizes = λ n h. ap length (memories n) ∙ w.sizes n h;
        known = l;
        unheld = λ n h y q. cc (y, q, free);
        not_current = ne;
        more = omega arith;
        memories = λ n h. memories n;
        len_same = refl;
        shared_same = refl;
      }

  next_buffer-Chosen :
      (block_base : ℕ) (st : Stream) (content : List ℕ)
      → Writing block_size st content
      → (name : ℕ) × ((st' : Stream) × ((next_buffer block_size platform held block_base st
              ≡ ok (name, st'))
            × Chosen block_size held block_base st name st'))
  unfolding next_buffer choose_buffer
  next_buffer-Chosen block_base st content w = elim (Option-cases st.spare_buffer) [
    | inl e ↦
        let (name, (st', (q, c))) = new_buffer-Chosen block_base st content w in
        (name, (st', (ap (choose_buffer block_size platform held block_base st) e ∙ q, c)))
    | inr (name, e) ↦
        let found = ap (choose_buffer block_size platform held block_base st) e in
        elim (Bool-cases (held name)) [
          | inl y ↦
              let (name', (st', (q, c))) = new_buffer-Chosen block_base st content w in
              (name', (st', (found ∙ rw y q, c)))
          | inr free ↦
              (name, (_, (found ∙ rw free refl, reuse-Chosen block_base name st content w e free)))
        ]
  ]

  pub write_to_file-Swapped :
      (bytes : List ℕ) (st : Stream) (content : List ℕ)
      → Writing block_size st content
      → (st' : Stream) × ((write_to_file block_size platform held bytes st ≡ ok st')
          × Swapped block_size held bytes st st')
  unfolding write_to_file
  write_to_file-Swapped bytes st content w =
      let (name, (st1, (e, c))) = next_buffer-Chosen st.len st content w in
      let opened : ◌≡◌ {A = Result (List ℕ)}
          (elim st.file as (λ o. Result (List ℕ)) [
            | none ↦ platform.create_file
            | some file ↦ ok file
          ])
          (ok (contents st.file)) =
        file_of st.file in
      rw (opened, works.writes (contents st.file) bytes, e)
        (
          _,
          (
            refl,
            record {
              written = refl;
              base = c.base;
              sizes = c.sizes;
              current_known = c.known;
              spare_known = λ n q.
                  let same : st.current_buffer ≡ n = some_injective q in
                  (omega (arith, w.current_known, c.more), λ r. c.not_current (sym r ∙ sym same));
              rewound = refl;
              unheld = c.unheld;
              more = c.more;
              memories = c.memories;
              len_same = c.len_same;
              shared_same = c.shared_same;
            },
          ),
        )
    where
      file_of :
          (o : Option (List ℕ))
          → ◌≡◌ {A = Result (List ℕ)}
              (elim o as (λ p. Result (List ℕ)) [
                | none ↦ platform.create_file
                | some file ↦ ok file
              ])
              (ok (contents o))
      file_of none = works.creates
      file_of (some file) = refl

  -- The full buffer goes to the file, and the stream is the same.
  pub write_buffer_to_file-Writing :
      (st : Stream) (content : List ℕ)
      → Writing block_size st content
      → st.ptr ≡ block_size
      → (st' : Stream) × ((write_buffer_to_file block_size platform held st ≡ ok st')
          × (Writing block_size st' content
              × Swapped block_size held (take block_size (current_memory st)) st st'))
  unfolding write_buffer_to_file
  write_buffer_to_file-Writing st content w full =
      let (st', (e, s)) =
        write_to_file-Swapped (take block_size (current_memory st)) st content w in
      let bytes = take block_size (current_memory st) in
      let file : contents st'.file ≡ contents st.file ++ bytes = ap contents s.written in
      let all : length bytes ≡ block_size = omega (
        arith,
        length-take block_size (current_memory st),
        w.sizes st.current_buffer w.current_known,
      ) in
      let so_far = length-content block_size st content w in
      (
        st',
        (
          e,
          (
            record {
              block = suc w.block;
              base = s.base ∙ omega (arith, w.total, suc_block w.block block_size);
              file_size =
                  ap length file
                  ∙ omega (
                    arith,
                    length-append (contents st.file) bytes,
                    w.file_size,
                    suc_block w.block block_size,
                  );
              room = omega (arith, s.rewound);
              whole =
                  w.whole
                  ∙ ap (λ n. contents st.file ++ take n (current_memory st)) full
                  ∙ sym file
                  ∙ sym (append-nil (contents st'.file))
                  ∙ ap (λ n. contents st'.file ++ take n (current_memory st')) (sym s.rewound);
              sizes = s.sizes;
              current_known = s.current_known;
              spare_known = s.spare_known;
              total = s.len_same ∙ w.total;
            },
            s,
          ),
        ),
      )
