-- ===== src/SignalSafe/Passed.antt =====
-- What a flush hands to `write`, whatever the kernel answers.
use zyrnix.Prelude.{
  ℕ, zero, suc, ◌+◌, ◌-◌, ◌%◌, ◌≤◌, ◌<◌, ◌≡◌, ◌∙◌, refl, ap, true, List, [], ◌∷◌, ◌++◌, arith, Text,
  sub_word, All, Bool-cases, inl, inr, ltb, ◌==◌, concat, sym, append_assoc, append-nil,
}
use zyrnix.SignalSafe.{Sink, Reply, safe_write, slice, chunk, flush_chunk, flush_loop, flush_buffer}
use zyrnix.SignalSafe.Window.{window, slice-window}
use zyrnix.SignalSafe.Invariant.{
  IsValid, chunk-IsChunk, flush_chunk-SameRing, flush_chunk-read_pos, flush_chunk-IsValid,
  flush_buffer-Emptied,
}
use zyrnix.SignalSafe.Stream.{IsBenign, held, window-split, flush_buffer-stream}

-- One `safe_write` after the other, over the same answers of the kernel.
unfoldable pub write_parts : List Reply → List Text → Text × List Reply
write_parts rs [] = ([], rs)
write_parts rs (part ∷ parts) =
    let (out, rest) = safe_write rs part in
    let (more, left) = write_parts rest parts in (out ++ more, left)

-- Parts of the bytes that are held, together all of them in order, and what of them gets out.
abbrev IsPassed : Sink → Sink → Type 0
IsPassed s t =
    (parts : List Text) × (concat parts ≡ held s)
    × (t.written ≡ s.written ++ (write_parts s.replies parts).0)

drained-IsPassed : (s : Sink) → s.write_pos - s.read_pos ≡ 0 → IsPassed s s
unfolding write_parts concat
drained-IsPassed s e = ([], rw e refl, sym (append-nil s.written))

flush_chunk-IsPassed :
    (s t : Sink) → IsValid s → s.read_pos < s.write_pos → IsPassed (flush_chunk s) t → IsPassed s t
unfolding flush_chunk write_parts concat
flush_chunk-IsPassed s t v h (parts, whole, out) =
    let n : ℕ = chunk s.capacity s.write_pos s.read_pos in
    let c = chunk-IsChunk s v h in
    let part = slice s.buffer (s.read_pos % s.capacity) n in
    let moved = flush_chunk-read_pos s v h in
    (
      part ∷ parts,
      ap (λ x. part ++ x) (whole ∙ ap (λ r. window s.buffer s.capacity r (s.write_pos - r)) moved)
          ∙ ap
              (λ x.
                x ++ window s.buffer s.capacity (s.read_pos + n) (s.write_pos - (s.read_pos + n)))
              (slice-window s.buffer s.capacity s.read_pos n c.in_lap v.storage)
          ∙ sym (window-split s.buffer s.capacity s.read_pos s.write_pos n c.held),
      out ∙ append_assoc s.written (safe_write s.replies part).0 _,
    )

flush_loop-IsPassed :
    (fuel : ℕ) (s : Sink)
    → IsValid s
    → s.write_pos - s.read_pos ≤ fuel
    → IsPassed s (flush_loop fuel s)
unfolding flush_loop
flush_loop-IsPassed zero s v h = drained-IsPassed s (omega arith)
flush_loop-IsPassed (suc fuel) s v h = elim (Bool-cases (ltb s.read_pos s.write_pos)) [
  | inl e ↦
      let below : s.read_pos < s.write_pos = ground (arith, e) in
      let c = chunk-IsChunk s v below in
      rw (flush_loop, e)
        (flush_chunk-IsPassed s (flush_loop fuel (flush_chunk s)) v below (
          flush_loop-IsPassed fuel (flush_chunk s) (flush_chunk-IsValid s v below) (
            omega (
              arith,
              (flush_chunk-SameRing s).write_pos,
              flush_chunk-read_pos s v below,
              c.some_bytes,
              h,
            ))))
  | inr e ↦ rw (flush_loop, e) (drained-IsPassed s (ground (arith, e)))
]

-- On an open descriptor, with a ring whose positions are in order, not wrapped and no further apart
-- than its capacity, which fits into the buffer, `flush_buffer` hands every held byte to `safe_write`, in order and in parts, whatever came of the parts before, and leaves the ring
-- empty: the file gets what `safe_write` gets out of the parts. Over a kernel that only shortens or
-- interrupts writes, these are all the bytes that were held.
pub flush_buffer-passed :
    (s : Sink)
    → IsValid s
    → s.fd_open ≡ true
    → ((parts : List Text) × (concat parts ≡ held s)
        × ((flush_buffer s).written ≡ s.written ++ (write_parts s.replies parts).0))
      × ((flush_buffer s).read_pos ≡ (flush_buffer s).write_pos)
      × ((flush_buffer s).write_pos ≡ s.write_pos)
      × ((flush_buffer s).buffer ≡ s.buffer)
      × ((flush_buffer s).dropped_count ≡ s.dropped_count)
      × (All IsBenign s.replies → (flush_buffer s).written ≡ s.written ++ held s)
unfolding flush_buffer
flush_buffer-passed s v o =
    let e = flush_buffer-Emptied s v o in
    (
      passed,
      e.drained,
      e.same.write_pos,
      e.same.buffer,
      e.same.dropped_count,
      λ b. (flush_buffer-stream s v o b).0,
    )
  where
    passed : IsPassed s (flush_buffer s)
    passed = elim (Bool-cases (s.write_pos == s.read_pos)) [
      | inl e ↦ simp o (simp e (drained-IsPassed s (ground (arith, e))))
      | inr e ↦ simp o (
          simp e (
            flush_loop-IsPassed (sub_word s.write_pos s.read_pos) s v
              (omega (arith, v.order, v.unwrapped))))
    ]
