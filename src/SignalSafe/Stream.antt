-- ===== src/SignalSafe/Stream.antt =====
-- The bytes that the sink has taken, in order: those in the file, then those in the ring.
use zyrnix.Prelude.{
  ℕ, zero, suc, ◌+◌, ◌-◌, ◌%◌, ◌≤◌, ◌<◌, ◌≡◌, ◌∙◌, refl, ap, true, List, [], ◌∷◌, ◌++◌, arith, Text,
  sub_word, All, take, drop, take-append-drop, append_assoc, append-nil,
}
use zyrnix.SignalSafe.{
  Sink, Reply, wrote, interrupted, failed, safe_write, slice, chunk, flush_chunk, flush_loop,
  flush_buffer,
}
use zyrnix.SignalSafe.Window.{window, window-append, slice-window}
use zyrnix.SignalSafe.Invariant.{
  IsValid, chunk-IsChunk, flush_chunk-read_pos, flush_chunk-IsValid, flush_buffer-Emptied,
}

-- An answer of `write` that makes progress or asks for another try.
abbrev pub IsBenign : Reply → Type 0
IsBenign (wrote zero) = ⊥
IsBenign (wrote (suc n)) = Unit {0}
IsBenign interrupted = Unit {0}
IsBenign failed = ⊥

-- `safe_write` gets all its bytes out, over any number of short and interrupted writes.
pub safe_write-IsBenign :
    (rs : List Reply) (bytes : Text)
    → All IsBenign rs
    → ((safe_write rs bytes).0 ≡ bytes) × All IsBenign (safe_write rs bytes).1
unfolding safe_write
safe_write-IsBenign [] bytes h = (refl, tt)
safe_write-IsBenign (r ∷ rs) [] h = (refl, h)
safe_write-IsBenign (interrupted ∷ rs) (b ∷ bs) h = safe_write-IsBenign rs (b ∷ bs) h.1
safe_write-IsBenign (failed ∷ rs) (b ∷ bs) h = absurd h.0
safe_write-IsBenign (wrote zero ∷ rs) (b ∷ bs) h = absurd h.0
safe_write-IsBenign (wrote (suc n) ∷ rs) (b ∷ bs) h =
    let ih = safe_write-IsBenign rs (drop n bs) h.1 in
    (ap (◌∷◌ b) (ap (◌++◌ (take n bs)) ih.0 ∙ take-append-drop n bs), ih.1)

abbrev pub held : Sink → Text
held s = window s.buffer s.capacity s.read_pos (s.write_pos - s.read_pos)

abbrev pub stream : Sink → Text
stream s = s.written ++ held s

pub window-split :
    (buf : Text) (size r w n : ℕ)
    → r + n ≤ w
    → window buf size r (w - r) ≡ window buf size r n ++ window buf size (r + n) (w - (r + n))
window-split buf size r w n h =
    let e : w - r ≡ n + (w - (r + n)) = omega arith in
    rw e (window-append buf size r n (w - (r + n)))

flush_chunk-stream :
    (s : Sink)
    → IsValid s
    → s.read_pos < s.write_pos
    → All IsBenign s.replies
    → (stream (flush_chunk s) ≡ stream s) × All IsBenign (flush_chunk s).replies
unfolding flush_chunk
flush_chunk-stream s v h b =
    let n : ℕ = chunk s.capacity s.write_pos s.read_pos in
    let c = chunk-IsChunk s v h in
    let sent = safe_write-IsBenign s.replies (slice s.buffer (s.read_pos % s.capacity) n) b in
    ground (
      arith,
      sent,
      slice-window s.buffer s.capacity s.read_pos n c.in_lap v.storage,
      window-split s.buffer s.capacity s.read_pos s.write_pos n c.held,
      flush_chunk-read_pos s v h,
      append_assoc s.written (window s.buffer s.capacity s.read_pos n)
          (window s.buffer s.capacity (s.read_pos + n) (s.write_pos - (s.read_pos + n))),
    )

-- The stream is kept, and the answers to come stay benign.
pub record Keeps (s t : Sink) : Type 0 where
  pub same : stream t ≡ stream s
  pub benign : All IsBenign t.replies

Keeps-trans : (s t u : Sink) → Keeps s t → Keeps t u → Keeps s u
Keeps-trans s t u a b = record { same = b.same ∙ a.same; benign = b.benign }

flush_chunk-Keeps :
    (s : Sink)
    → IsValid s
    → s.read_pos < s.write_pos
    → All IsBenign s.replies
    → Keeps s (flush_chunk s)
flush_chunk-Keeps s v h b =
    let k = flush_chunk-stream s v h b in record { same = k.0; benign = k.1 }

flush_loop-Keeps :
    (fuel : ℕ) (s : Sink) → IsValid s → All IsBenign s.replies → Keeps s (flush_loop fuel s)
unfolding flush_loop
flush_loop-Keeps zero s v b = record { same = refl; benign = b }
flush_loop-Keeps (suc fuel) s v b =
    ground (arith, λ (h : s.read_pos < s.write_pos). go h (flush_loop-Keeps fuel (flush_chunk s)))
  where
    go :
        s.read_pos < s.write_pos
        → (IsValid (flush_chunk s)
            → All IsBenign (flush_chunk s).replies
            → Keeps (flush_chunk s) (flush_loop fuel (flush_chunk s)))
        → Keeps s (flush_loop fuel (flush_chunk s))
    go h ih =
        let k = flush_chunk-Keeps s v h b in
        Keeps-trans s (flush_chunk s) (flush_loop fuel (flush_chunk s)) k
          (ih (flush_chunk-IsValid s v h) k.benign)

pub flush_buffer-Keeps : (s : Sink) → IsValid s → All IsBenign s.replies → Keeps s (flush_buffer s)
unfolding flush_buffer
flush_buffer-Keeps s v b = ground (arith, flush_loop-Keeps (sub_word s.write_pos s.read_pos) s v b)

-- Over a kernel that only shortens or interrupts writes, a flush moves the bytes of the ring to the
-- end of the file and leaves the ring empty.
pub flush_buffer-stream :
    (s : Sink)
    → IsValid s
    → s.fd_open ≡ true
    → All IsBenign s.replies
    → ((flush_buffer s).written ≡ stream s) × (held (flush_buffer s) ≡ [])
flush_buffer-stream s v o b =
    let k = flush_buffer-Keeps s v b in
    let e = flush_buffer-Emptied s v o in
    let none_left : (flush_buffer s).write_pos - (flush_buffer s).read_pos ≡ 0 =
      omega (arith, e.drained) in
    ground (arith, k.same, none_left, append-nil (flush_buffer s).written)
