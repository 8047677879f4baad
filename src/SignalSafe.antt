-- ===== src/SignalSafe.antt =====
-- src/sinks/signal_safe_sink.cpp and its header, run by one thread: no other caller comes between
-- a load of a position and its `compare_exchange_weak`, which then succeeds. `flush_in_progress`
-- may be set on entry, as it is for a call from a signal handler that interrupts a flush.
pub mod Window
pub mod Helpers
pub mod Invariant
pub mod Stream
pub mod Passed
pub mod Writes
mod Tests
use zyrnix.Prelude.{
  ℕ, zero, suc, ◌+◌, ◌-◌, ◌*◌, ◌/◌, ◌%◌, min, Bool, true, false, List, [], ◌∷◌, ◌++◌, ltb, leb,
  ◌==◌, if◌then◌else◌, Text, codes, length, take, drop, set, add_word, sub_word,
}
use zyrnix.Level.{LogLevel, trace, debug, info, warn, error, critical}

-- What one call of `write(2)` answers: a number of bytes, -1 with `EINTR`, or another error.
pub data Reply : Type 0 where
  wrote : ℕ → Reply
  interrupted failed : Reply

-- The open file and the kernel: `written` is what the file has received from this sink, `replies`
-- the answers of the next calls of `write`. When they run out every call takes all its bytes.
pub record Sink : Type 0 where
  pub fd_open : Bool
  pub written : Text
  pub replies : List Reply
  pub buffer : Text
  pub write_pos : ℕ
  pub read_pos : ℕ
  pub capacity : ℕ
  pub dropped_count : ℕ
  pub in_signal_handler : Bool
  pub flush_in_progress : Bool

unfoldable pub max_buffer_size : ℕ
max_buffer_size = 1048576

-- `opened` is whether `open` gave a descriptor, `storage` the array as it happens to be.
unfoldable pub init : Bool → List Reply → Text → ℕ → Sink
unfolding max_buffer_size
init opened replies storage buffer_size = record {
  fd_open = opened;
  written = [];
  replies = replies;
  buffer = storage;
  write_pos = 0;
  read_pos = 0;
  capacity = min buffer_size max_buffer_size;
  dropped_count = 0;
  in_signal_handler = false;
  flush_in_progress = false;
}

unfoldable pub level_to_str : LogLevel → Text
level_to_str trace = codes "[TRACE] "
level_to_str debug = codes "[DEBUG] "
level_to_str info = codes "[INFO] "
level_to_str warn = codes "[WARN] "
level_to_str error = codes "[ERROR] "
level_to_str critical = codes "[CRITICAL] "

-- The bytes of `bytes` that reach the file, and the answers that are left.
unfoldable pub safe_write : List Reply → Text → Text × List Reply
safe_write [] bytes = (bytes, [])
safe_write (r ∷ rs) [] = ([], r ∷ rs)
safe_write (interrupted ∷ rs) (b ∷ bs) = safe_write rs (b ∷ bs)
safe_write (failed ∷ rs) (b ∷ bs) = ([], rs)
safe_write (wrote zero ∷ rs) (b ∷ bs) = ([], rs)
safe_write (wrote (suc n) ∷ rs) (b ∷ bs) =
    let (more, rest) = safe_write rs (drop n bs) in (b ∷ take n bs ++ more, rest)

-- The bytes from the index `i` on.
unfoldable pub slice : Text → ℕ → ℕ → Text
slice buf i n = take n (drop i buf)

-- The length of the next chunk: to the write position or to the end of the ring.
unfoldable pub chunk : ℕ → ℕ → ℕ → ℕ
chunk capacity write_pos read_pos =
    let idx = read_pos % capacity in
    if leb (write_pos - read_pos) (capacity - idx) then write_pos - read_pos else capacity - idx

-- One round of the loop of `flush_buffer`. The position that the code keeps in a local variable is
-- kept in `read_pos`, which it is stored to after the loop.
unfoldable pub flush_chunk : Sink → Sink
unfolding slice
flush_chunk s =
    let n = chunk s.capacity s.write_pos s.read_pos in
    let (out, rest) = safe_write s.replies (slice s.buffer (s.read_pos % s.capacity) n) in
    record s { written = s.written ++ out; replies = rest; read_pos = add_word s.read_pos n }

-- The loop, on fuel.
unfoldable pub flush_loop : ℕ → Sink → Sink
flush_loop zero s = s
flush_loop (suc fuel) s =
    let rest = flush_loop fuel (flush_chunk s) in if ltb s.read_pos s.write_pos then rest else s

-- Each round passes at least one byte, so the number of bytes held is enough fuel.
unfoldable pub flush_buffer : Sink → Sink
flush_buffer s =
    if s.fd_open
    then if s.write_pos == s.read_pos then s else flush_loop (sub_word s.write_pos s.read_pos) s
    else s

unfoldable pub flush : Sink → Sink
flush = flush_buffer

unfoldable pub available : Sink → ℕ
available s = sub_word s.capacity (sub_word s.write_pos s.read_pos)

-- `buffer_[(write_pos + i) % capacity_] = data[i]` for each byte.
unfoldable pub copy_in : Text → ℕ → ℕ → Text → Text
copy_in buf capacity pos [] = buf
copy_in buf capacity pos (b ∷ bs) =
    copy_in (set buf (pos % capacity) b) capacity (add_word pos 1) bs

-- The reservation and the copy.
unfoldable pub store : Sink → Text → Sink
store s bytes = record s {
  buffer = copy_in s.buffer s.capacity s.write_pos bytes;
  write_pos = add_word s.write_pos (length bytes);
}

-- The flush that makes room, unless one is under way.
unfoldable pub make_room : Sink → Sink
make_room s = if s.flush_in_progress then s else flush_buffer s

unfoldable pub store_or_drop : Sink → Text → Sink
store_or_drop s bytes =
    if ltb (available s) (length bytes)
    then record s { dropped_count = add_word s.dropped_count 1 }
    else store s bytes

unfoldable pub write_to_buffer : Sink → Text → Sink
write_to_buffer s [] = s
write_to_buffer s (b ∷ bs) =
    if ltb (available s) (length (b ∷ bs))
    then store_or_drop (make_room s) (b ∷ bs)
    else store s (b ∷ bs)

-- The flush at the end of `log`, when more than half of the ring is in use.
unfoldable pub flush_if_half : Sink → Sink
flush_if_half s =
    if ltb (s.capacity / 2) (sub_word s.write_pos s.read_pos) then flush_buffer s else s

unfoldable pub log : Sink → LogLevel → Text → Sink
log s level message =
    if s.fd_open
    then flush_if_half (
        write_to_buffer (write_to_buffer (write_to_buffer s (level_to_str level)) message)
          (10 ∷ []))
    else s

unfoldable pub enter_signal_handler : Sink → Sink
enter_signal_handler s = record s { in_signal_handler = true }

unfoldable pub exit_signal_handler : Sink → Sink
exit_signal_handler s = record s { in_signal_handler = false }

-- The destructor: what is held goes out, and the descriptor is closed.
unfoldable pub close : Sink → Sink
close s = if s.fd_open then record (flush s) { fd_open = false } else s
