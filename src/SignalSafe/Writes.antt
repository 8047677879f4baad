-- ===== src/SignalSafe/Writes.antt =====
-- What a message adds to the stream: each of its pieces that fits into the ring.
use zyrnix.Prelude.{
  ℕ, ◌+◌, ◌-◌, ◌≤◌, ◌<◌, ◌≡◌, ◌∙◌, sym, refl, ap, subst, true, false, [], ◌∷◌, ◌++◌, arith, Text,
  length, leb, if◌then◌else◌, add_word, word_mod, All, append_assoc, append-nil,
}
use zyrnix.Level.{LogLevel}
use zyrnix.SignalSafe.{
  Sink, flush, close, available, copy_in, store, make_room, store_or_drop, write_to_buffer,
  flush_if_half, log, level_to_str,
}
use zyrnix.SignalSafe.Window.{window, window-copy_in}
use zyrnix.SignalSafe.Invariant.{
  IsValid, IsReady, flush_buffer-Emptied, available-eq, store-IsReady, store_or_drop-IsReady,
  flush_buffer-IsReady,
}
use zyrnix.SignalSafe.Stream.{IsBenign, stream, held, flush_buffer-Keeps, flush_buffer-stream}

-- An open sink with `n` positions to go, no flush under way and a benign kernel.
pub record IsHealthy (n : ℕ) (s : Sink) : Type 0 where
  pub ready : IsReady n s
  pub open_fd : s.fd_open ≡ true
  pub idle : s.flush_in_progress ≡ false
  pub benign : All IsBenign s.replies

-- What the ring takes of a write: all of it, or nothing if it is longer than the ring.
abbrev pub fitting : ℕ → Text → Text
fitting capacity bytes = if leb (length bytes) capacity then bytes else []

record Takes (n : ℕ) (s : Sink) (bytes : Text) (t : Sink) : Type 0 where
  healthy : IsHealthy n t
  grown : stream t ≡ stream s ++ bytes
  capacity : t.capacity ≡ s.capacity

window_after :
    (buf : Text) (size r w n m : ℕ) (bytes : Text)
    → r + n ≡ w
    → m ≡ n + length bytes
    → size ≤ length buf
    → n + length bytes ≤ size
    → w + length bytes < word_mod
    → window (copy_in buf size w bytes) size r m ≡ window buf size r n ++ bytes
window_after buf size r w n m bytes e f h k u =
    rw (← e, f) (window-copy_in buf size r n bytes h k (omega (arith, u)))

store-stream :
    (s : Sink) (bytes : Text)
    → IsValid s
    → s.write_pos + length bytes < word_mod
    → length bytes ≤ available s
    → stream (store s bytes) ≡ stream s ++ bytes
unfolding store
store-stream s bytes v w h =
    ap (◌++◌ s.written) (
      window_after s.buffer s.capacity s.read_pos s.write_pos (s.write_pos - s.read_pos) _ bytes
        (omega (arith, v.order)) (omega (arith, v.order)) v.storage
        (omega (arith, available-eq s v, v.fits)) w)
    ∙ sym (append_assoc s.written (held s) bytes)

fitting_short : (c : ℕ) (bytes : Text) → length bytes ≤ c → fitting c bytes ≡ bytes
fitting_short c bytes h = ground arith

fitting_long : (c : ℕ) (bytes : Text) → c < length bytes → fitting c bytes ≡ []
fitting_long c bytes h = ground arith

store-Takes :
    (n : ℕ) (s : Sink) (bytes : Text)
    → IsHealthy (length bytes + n) s
    → length bytes ≤ available s
    → Takes n s (fitting s.capacity bytes) (store s bytes)
unfolding store
store-Takes n s bytes v h =
    let short = fitting_short s.capacity bytes (omega (arith, available-eq s v.ready.valid, h)) in
    record {
      healthy = record {
        ready = store-IsReady n s bytes v.ready h;
        open_fd = v.open_fd;
        idle = v.idle;
        benign = v.benign;
      };
      grown =
          store-stream s bytes v.ready.valid (omega (arith, v.ready.room)) h
          ∙ ap (◌++◌ (stream s)) (sym short);
      capacity = refl;
    }

store_or_drop-Takes :
    (n : ℕ) (s : Sink) (bytes : Text)
    → IsHealthy (length bytes + n) s
    → s.read_pos ≡ s.write_pos
    → Takes n s (fitting s.capacity bytes) (store_or_drop s bytes)
unfolding store_or_drop
store_or_drop-Takes n s bytes v e = ground (
  arith,
  available-eq s v.ready.valid,
  store-Takes n s bytes v,
  fitting_long s.capacity bytes,
  store_or_drop-IsReady n s bytes v.ready,
  append-nil (stream s),
)

make_room-Takes :
    (n : ℕ) (s : Sink)
    → IsHealthy n s
    → Takes n s [] (make_room s) × ((make_room s).read_pos ≡ (make_room s).write_pos)
unfolding make_room
make_room-Takes n s v = ground (
  arith,
  flush_buffer-Keeps s v.ready.valid v.benign,
  flush_buffer-Emptied s v.ready.valid v.open_fd,
  flush_buffer-IsReady n s v.ready,
  append-nil (stream s),
)

write_to_buffer-Takes :
    (n : ℕ) (s : Sink) (bytes : Text)
    → IsHealthy (length bytes + n) s
    → Takes n s (fitting s.capacity bytes) (write_to_buffer s bytes)
unfolding write_to_buffer
write_to_buffer-Takes n s [] v = ground (arith, append-nil (stream s))
write_to_buffer-Takes n s (b ∷ bs) v =
    let m = make_room-Takes (length (b ∷ bs) + n) s v in
    ground (
      arith,
      store-Takes n s (b ∷ bs) v,
      m,
      store_or_drop-Takes n (make_room s) (b ∷ bs) m.0.healthy m.1,
      append-nil (stream s),
    )

write_to_buffer-drops :
    (n : ℕ) (s : Sink) (bytes : Text)
    → IsHealthy (length bytes + n) s
    → (write_to_buffer s bytes).dropped_count
      ≡ (if leb (length bytes) s.capacity then s.dropped_count else add_word s.dropped_count 1)
unfolding write_to_buffer make_room store store_or_drop
write_to_buffer-drops n s [] v = ground arith
write_to_buffer-drops n s (b ∷ bs) v =
    let m = make_room-Takes (length (b ∷ bs) + n) s v in
    ground (
      arith,
      m,
      available-eq s v.ready.valid,
      available-eq (make_room s) m.0.healthy.ready.valid,
      flush_buffer-Emptied s v.ready.valid v.open_fd,
    )

-- On an open sink over a benign kernel, with no flush under way and the write position not about to
-- wrap, a write adds its bytes to the end of the stream when they fit into the ring;
-- otherwise the stream stays as it is and one drop is counted.
pub write_to_buffer-stream :
    (n : ℕ) (s : Sink) (bytes : Text)
    → IsHealthy (length bytes + n) s
    → (stream (write_to_buffer s bytes) ≡ stream s ++ fitting s.capacity bytes)
      × ((write_to_buffer s bytes).dropped_count
          ≡ (if leb (length bytes) s.capacity then s.dropped_count else add_word s.dropped_count 1))
      × IsHealthy n (write_to_buffer s bytes)
write_to_buffer-stream n s bytes v =
    let t = write_to_buffer-Takes n s bytes v in
    (t.grown, write_to_buffer-drops n s bytes v, t.healthy)

flush_if_half-Takes : (n : ℕ) (s : Sink) → IsHealthy n s → Takes n s [] (flush_if_half s)
unfolding flush_if_half
flush_if_half-Takes n s v = ground (
  arith,
  flush_buffer-Keeps s v.ready.valid v.benign,
  flush_buffer-Emptied s v.ready.valid v.open_fd,
  flush_buffer-IsReady n s v.ready,
  append-nil (stream s),
)

Takes-trans :
    (m n : ℕ) (s : Sink) (bytes : Text) (t : Sink) (more : Text) (u : Sink)
    → Takes m s bytes t
    → Takes n t more u
    → Takes n s (bytes ++ more) u
Takes-trans m n s bytes t more u a b = record {
  healthy = b.healthy;
  grown = b.grown ∙ ap (λ x. x ++ more) a.grown ∙ append_assoc (stream s) bytes more;
  capacity = b.capacity ∙ a.capacity;
}

-- A write to a sink of a known capacity.
piece-Takes :
    (n : ℕ) (s t : Sink) (before bytes : Text)
    → Takes (length bytes + n) s before t
    → Takes n s (before ++ fitting s.capacity bytes) (write_to_buffer t bytes)
piece-Takes n s t before bytes k =
    Takes-trans (length bytes + n) n s before t (fitting s.capacity bytes) (write_to_buffer t bytes)
      k
      (subst (λ c. Takes n t (fitting c bytes) (write_to_buffer t bytes)) k.capacity
        (write_to_buffer-Takes n t bytes k.healthy))

pieces-Takes :
    (n : ℕ) (s : Sink) (name message : Text)
    → IsHealthy (length name + (length message + (1 + n))) s
    → Takes n s
        (fitting s.capacity name ++ (fitting s.capacity message ++ fitting s.capacity (10 ∷ [])))
        (write_to_buffer (write_to_buffer (write_to_buffer s name) message) (10 ∷ []))
pieces-Takes n s name message v =
    let c : ℕ = s.capacity in
    let first = write_to_buffer-Takes (length message + (1 + n)) s name v in
    let second = piece-Takes (1 + n) s _ (fitting c name) message first in
    let third = piece-Takes n s _ (fitting c name ++ fitting c message) (10 ∷ []) second in
    rw (append_assoc (fitting c name) (fitting c message) (fitting c (10 ∷ []))) at third

-- On an open sink over a benign kernel, with no flush under way and the write position not about to
-- wrap, `log` adds to the stream the level, the message and the line feed, in this
-- order, each one if it fits into the ring, and leaves the sink ready for the next message.
pub log-stream :
    (n : ℕ) (s : Sink) (level : LogLevel) (message : Text)
    → IsHealthy (length (level_to_str level) + (length message + (1 + n))) s
    → (stream (log s level message)
        ≡ stream s
          ++ (fitting s.capacity (level_to_str level)
              ++ (fitting s.capacity message ++ fitting s.capacity (10 ∷ []))))
      × IsHealthy n (log s level message)
unfolding log
log-stream n s level message v =
    let t = pieces-Takes n s (level_to_str level) message v in
    let f = flush_if_half-Takes n _ t.healthy in
    simp v.open_fd (f.grown ∙ append-nil _ ∙ t.grown, f.healthy)

-- Over a benign kernel the destructor leaves the whole stream in the file.
pub close-stream : (n : ℕ) (s : Sink) → IsHealthy n s → (close s).written ≡ stream s
unfolding close flush
close-stream n s v = simp v.open_fd ((flush_buffer-stream s v.ready.valid v.open_fd v.benign).0)
