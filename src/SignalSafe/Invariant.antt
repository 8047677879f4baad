-- ===== src/SignalSafe/Invariant.antt =====
-- The positions of the ring: what holds between them, and that every operation keeps it.
use zyrnix.Prelude.{
  ℕ, zero, suc, ◌+◌, ◌-◌, ◌%◌, ◌≤◌, ◌<◌, ◌≡◌, true, false, [], ◌∷◌, arith, Text, length, Bool-cases,
  inl, inr, add_word, sub_word, word_mod,
}
use native.Mathlib.Nat.{mod-lt}
use zyrnix.Level.{LogLevel}
use zyrnix.SignalSafe.{
  Sink, max_buffer_size, chunk, flush_chunk, flush_loop, flush_buffer, available, store, make_room,
  store_or_drop, write_to_buffer, flush_if_half, log, level_to_str,
}
use zyrnix.SignalSafe.Window.{length-copy_in}

pub record IsValid (s : Sink) : Type 0 where
  pub order : s.read_pos ≤ s.write_pos
  pub fits : s.write_pos - s.read_pos ≤ s.capacity
  pub storage : s.capacity ≤ length s.buffer
  pub small : s.capacity ≤ max_buffer_size
  pub unwrapped : s.write_pos < word_mod

-- What flushing leaves alone.
pub record SameRing (s t : Sink) : Type 0 where
  pub buffer : t.buffer ≡ s.buffer
  pub write_pos : t.write_pos ≡ s.write_pos
  pub capacity : t.capacity ≡ s.capacity
  pub dropped_count : t.dropped_count ≡ s.dropped_count
  pub fd_open : t.fd_open ≡ s.fd_open
  pub flush_in_progress : t.flush_in_progress ≡ s.flush_in_progress

-- A chunk is not empty, stays below the write position and within the lap.
pub record IsChunk (s : Sink) (n : ℕ) : Type 0 where
  pub some_bytes : 0 < n
  pub held : s.read_pos + n ≤ s.write_pos
  pub in_lap : s.read_pos % s.capacity + n ≤ s.capacity

pub chunk-IsChunk :
    (s : Sink)
    → IsValid s
    → s.read_pos < s.write_pos
    → IsChunk s (chunk s.capacity s.write_pos s.read_pos)
unfolding chunk
chunk-IsChunk s v h = ground (arith, mod-lt s.read_pos {m = s.capacity} (omega arith))

pub flush_chunk-SameRing : (s : Sink) → SameRing s (flush_chunk s)
unfolding flush_chunk
flush_chunk-SameRing s = ground arith

pub flush_chunk-read_pos :
    (s : Sink)
    → IsValid s
    → s.read_pos < s.write_pos
    → (flush_chunk s).read_pos ≡ s.read_pos + chunk s.capacity s.write_pos s.read_pos
unfolding flush_chunk
flush_chunk-read_pos s v h = let c = chunk-IsChunk s v h in omega (arith, c.held, v.unwrapped)

pub flush_chunk-IsValid :
    (s : Sink) → IsValid s → s.read_pos < s.write_pos → IsValid (flush_chunk s)
flush_chunk-IsValid s v h =
    ground (arith, flush_chunk-read_pos s v h, flush_chunk-SameRing s, chunk-IsChunk s v h)

-- With fuel for every byte held the loop empties the ring.
pub record Emptied (s t : Sink) : Type 0 where
  pub same : SameRing s t
  pub valid : IsValid t
  pub drained : t.read_pos ≡ t.write_pos

pub Emptied-trans : (s t u : Sink) → SameRing s t → Emptied t u → Emptied s u
Emptied-trans s t u a b = ground arith

flush_round :
    (fuel : ℕ) (s : Sink)
    → IsValid s
    → s.write_pos - s.read_pos ≤ suc fuel
    → s.read_pos < s.write_pos
    → (IsValid (flush_chunk s)
        → (flush_chunk s).write_pos - (flush_chunk s).read_pos ≤ fuel
        → Emptied (flush_chunk s) (flush_loop fuel (flush_chunk s)))
    → Emptied s (flush_loop fuel (flush_chunk s))
flush_round fuel s v h p ih =
    let same = flush_chunk-SameRing s in
    let c = chunk-IsChunk s v p in
    Emptied-trans s (flush_chunk s) (flush_loop fuel (flush_chunk s)) same (
      ih (flush_chunk-IsValid s v p)
        (omega (arith, same.write_pos, flush_chunk-read_pos s v p, c.some_bytes, h)))

pub flush_loop-Emptied :
    (fuel : ℕ) (s : Sink)
    → IsValid s
    → s.write_pos - s.read_pos ≤ fuel
    → Emptied s (flush_loop fuel s)
unfolding flush_loop
flush_loop-Emptied zero s v h = ground arith
flush_loop-Emptied (suc fuel) s v h = ground (
  arith,
  λ (p : s.read_pos < s.write_pos).
      flush_round fuel s v h p (flush_loop-Emptied fuel (flush_chunk s)),
)

-- `flush_buffer` on an open descriptor leaves the ring empty.
pub flush_buffer-Emptied : (s : Sink) → IsValid s → s.fd_open ≡ true → Emptied s (flush_buffer s)
unfolding flush_buffer
flush_buffer-Emptied s v h =
    ground (arith, flush_loop-Emptied (sub_word s.write_pos s.read_pos) s v (omega arith))

flush_buffer-Closed : (s : Sink) → s.fd_open ≡ false → flush_buffer s ≡ s
unfolding flush_buffer
flush_buffer-Closed s h = rw h

-- A state to which more bytes may come: the write position has room for `n` before it wraps.
pub record IsReady (n : ℕ) (s : Sink) : Type 0 where
  pub valid : IsValid s
  pub room : s.write_pos + n < word_mod

pub available-eq : (s : Sink) → IsValid s → available s ≡ s.capacity - (s.write_pos - s.read_pos)
unfolding available max_buffer_size
available-eq s v = omega arith

pub flush_buffer-IsReady : (n : ℕ) (s : Sink) → IsReady n s → IsReady n (flush_buffer s)
flush_buffer-IsReady n s r = elim (Bool-cases s.fd_open) [
  | inl e ↦ ground (arith, flush_buffer-Emptied s r.valid e)
  | inr e ↦ rw (flush_buffer-Closed s e) r
]

pub make_room-IsReady : (n : ℕ) (s : Sink) → IsReady n s → IsReady n (make_room s)
unfolding make_room
make_room-IsReady n s r = ground (arith, flush_buffer-IsReady n s r)

pub store-IsReady :
    (n : ℕ) (s : Sink) (bytes : Text)
    → IsReady (length bytes + n) s
    → length bytes ≤ available s
    → IsReady n (store s bytes)
unfolding store
store-IsReady n s bytes r h =
    ground (arith, available-eq s r.valid, length-copy_in s.buffer s.capacity s.write_pos bytes)

drop-IsReady :
    (m n : ℕ) (s : Sink) (count : ℕ)
    → IsReady (m + n) s
    → IsReady n (record s { dropped_count = count })
drop-IsReady m n s count r = ground arith

pub store_or_drop-IsReady :
    (n : ℕ) (s : Sink) (bytes : Text)
    → IsReady (length bytes + n) s
    → IsReady n (store_or_drop s bytes)
unfolding store_or_drop
store_or_drop-IsReady n s bytes r = ground (
  arith,
  drop-IsReady (length bytes) n s (add_word s.dropped_count 1) r,
  store-IsReady n s bytes r,
)

-- A write of some bytes keeps the invariant, whatever the kernel answers.
pub write_to_buffer-IsReady :
    (n : ℕ) (s : Sink) (bytes : Text)
    → IsReady (length bytes + n) s
    → IsReady n (write_to_buffer s bytes)
unfolding write_to_buffer
write_to_buffer-IsReady n s [] r = ground arith
write_to_buffer-IsReady n s (b ∷ bs) r = ground (
  arith,
  store-IsReady n s (b ∷ bs) r,
  store_or_drop-IsReady n (make_room s) (b ∷ bs) (make_room-IsReady (length (b ∷ bs) + n) s r),
)

pub flush_if_half-IsReady : (n : ℕ) (s : Sink) → IsReady n s → IsReady n (flush_if_half s)
unfolding flush_if_half
flush_if_half-IsReady n s r = ground (arith, flush_buffer-IsReady n s r)

pieces-IsReady :
    (n : ℕ) (s : Sink) (name message : Text)
    → IsReady (length name + (length message + (1 + n))) s
    → IsReady n (write_to_buffer (write_to_buffer (write_to_buffer s name) message) (10 ∷ []))
pieces-IsReady n s name message r = write_to_buffer-IsReady n _ (10 ∷ []) (
    write_to_buffer-IsReady (1 + n) _ message
      (write_to_buffer-IsReady (length message + (1 + n)) s name r))

-- `log` keeps the order of the positions, the bytes held within the capacity and the capacity
-- within the buffer, whatever the kernel answers, as long as the write position does not wrap.
pub log-IsReady :
    (n : ℕ) (s : Sink) (level : LogLevel) (message : Text)
    → IsReady (length (level_to_str level) + (length message + (1 + n))) s
    → IsReady n (log s level message)
unfolding log
log-IsReady n s level message r = elim (Bool-cases s.fd_open) [
  | inl e ↦ simp e (flush_if_half-IsReady n _ (pieces-IsReady n s (level_to_str level) message r))
  | inr e ↦ simp e (ground arith)
]
