-- ===== src/Storage/Stream/Handles.antt =====
-- src/stream.rs: what a reader's handle shows while the writer goes on.
use packetry.Base.{
  ℕ, zero, suc, ◌+◌, ◌-◌, ◌≤◌, ◌<◌, ◌≡◌, refl, sym, ap, ◌∙◌, inl, inr, Bool, true, some, List, [],
  ◌∷◌, ◌++◌, ◌==◌, length, take, drop, ok, unwrap, ◌>>=◌, arith, Bool-cases, Option-cases, ==_iff,
  ==_false, length-append,
}
use packetry.Base.Extends.{Extends-take-drop}
use packetry.Usb.Validate.{slice}
use packetry.Storage.Stream.{
  Platform, Stream, Data, mapped, buffered, put, copy, write_to_buffer, read,
}
use packetry.Storage.Stream.Keep.{
  Works, contents, current_memory, Writing, put_self, put_other, take-copy_before,
}
use packetry.Storage.Stream.Swap.{Swapped}

-- A handle to what is written: in the file, or in a buffer that is held, before the pointer if it
-- is the current one.
abbrev pub Readable : (block_size : ℕ) (held : ℕ → Bool) → Stream → Data → Type 0
Readable block_size held st (mapped offset start end) =
    (start < end) × (offset + end ≤ length (contents st.file))
Readable block_size held st (buffered buffer start end) =
    (buffer < st.allocated)
    × (held buffer ≡ true)
    × (start < end)
    × (end ≤ block_size)
    × (buffer ≡ st.current_buffer → end ≤ st.ptr)

-- Every handle that can be read shows the same after a step, and can be read still.
abbrev pub Kept :
    (block_size : ℕ) (platform : Platform) (held : ℕ → Bool) (st st' : Stream) → Type 0
Kept block_size platform held st st' =
    (handle : Data)
    → Readable block_size held st handle
    → Readable block_size held st' handle
      × (read block_size platform st' handle ≡ read block_size platform st handle)

take-none : (n : ℕ) → take {A = ℕ} n [] ≡ []
take-none zero = refl
take-none (suc n) = refl

slice-drop :
    (start end : ℕ) (xs : List ℕ) → start ≤ end → slice xs start end ≡ drop start (take end xs)
slice-drop zero end xs h = ap (λ n. take n xs) (omega arith)
slice-drop (suc start) zero xs h = elim h [ ]
slice-drop (suc start) (suc end) [] h = take-none (suc end - suc start)
slice-drop (suc start) (suc end) (x ∷ xs) h =
    ap (λ n. take n (drop start xs)) (omega arith) ∙ slice-drop start end xs (omega arith)

module _ (block_size : ℕ) (platform : Platform) (held : ℕ → Bool) where
  pub Kept-trans :
      (st st1 st2 : Stream)
      → Kept block_size platform held st st1
      → Kept block_size platform held st1 st2
      → Kept block_size platform held st st2
  Kept-trans st st1 st2 a b handle h =
      let (h1, e1) = a handle h in let (h2, e2) = b handle h1 in (h2, e2 ∙ e1)

  pub write_to_buffer-Kept :
      (st : Stream) (content bytes : List ℕ) (count : ℕ)
      → Writing block_size st content
      → Kept block_size platform held st (write_to_buffer bytes count st)
  unfolding write_to_buffer read
  write_to_buffer-Kept st content bytes count w (mapped offset start end) h = (h, refl)
  write_to_buffer-Kept st content bytes count w (buffered buffer start end)
        (known, yes_held, forward, within, before) =
      let b = record (st.buffers st.current_buffer) {
        memory = copy (current_memory st) bytes st.ptr count;
      } in
      (
        (known, yes_held, forward, within, λ e. omega (arith, before e)),
        elim (Bool-cases (buffer == st.current_buffer)) [
          | inl y ↦
              let e = (==_iff buffer st.current_buffer).0 y in
              ap ok (
                ap (λ k. slice (put st.buffers st.current_buffer b k).memory start end) e
                ∙ ap (λ x. slice x.memory start end) (put_self st.buffers st.current_buffer b)
                ∙ slice-drop start end (copy (current_memory st) bytes st.ptr count) (omega arith)
                ∙ ap (drop start) (
                    take-copy_before (current_memory st) bytes st.ptr count end
                      (omega (arith, w.sizes st.current_buffer w.current_known, w.room)) (before e))
                ∙ sym (slice-drop start end (current_memory st) (omega arith))
                ∙ ap (λ k. slice (st.buffers k).memory start end) (sym e))
          | inr other ↦
              ap (λ x. ok (slice x.memory start end))
                (put_other st.buffers st.current_buffer b buffer
                  (==_false buffer st.current_buffer other))
        ],
      )

  pub Swapped-Kept :
      (works : Works block_size platform) (bytes : List ℕ) (st st' : Stream)
      → Swapped block_size held bytes st st'
      → Kept block_size platform held st st'
  unfolding read
  Swapped-Kept works bytes st st' s (mapped offset start end) (forward, within) =
      elim (Option-cases st.file) [
        | inl e ↦ absurd (omega (arith, ap (λ o. length (contents o)) e))
        | inr (file, e) ↦
            let size : length file ≡ length (contents st.file) =
              sym (ap (λ o. length (contents o)) e) in
            let grown : st'.file ≡ some (file ++ bytes) =
              s.written ∙ ap (λ o. some (contents o ++ bytes)) e in
            let longer : length (contents st'.file) ≡ length file + length bytes =
              ap (λ o. length (contents o)) grown ∙ length-append file bytes in
            (
              (forward, omega arith),
              ap (λ o. unwrap o >>= λ f. platform.view f (offset + start) (end - start)) grown
                  ∙ works.views (file ++ bytes) (offset + start) (end - start)
                      (omega (arith, length-append file bytes))
                  ∙ ap ok (
                      Extends-take-drop (offset + start + (end - start) - (offset + start))
                        (offset + start) file (file ++ bytes) (bytes, refl) (omega arith))
                  ∙ sym (works.views file (offset + start) (end - start) (omega arith))
                  ∙ ap (λ o. unwrap o >>= λ f. platform.view f (offset + start) (end - start))
                      (sym e),
            )
      ]
  Swapped-Kept works bytes st st' s (buffered buffer start end)
        (known, yes_held, forward, within, before) =
      (
        (
          omega (arith, s.more),
          yes_held,
          forward,
          within,
          λ e. absurd (s.unheld buffer known yes_held (sym e)),
        ),
        ap (λ m. ok (slice m start end)) (s.memories buffer known),
      )
