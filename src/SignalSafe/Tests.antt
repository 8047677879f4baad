-- ===== src/SignalSafe/Tests.antt =====
-- The sink at concrete inputs, over a ring of eight bytes.
use zyrnix.Prelude.{
  ◌≡◌, refl, true, false, [], ◌∷◌, ◌++◌, arith, codes, none, some, min, take, length, ◌⊎◌, List,
  Text, concat, All,
}
use zyrnix.Level.{info}
use zyrnix.SignalSafe.{
  Sink, wrote, interrupted, max_buffer_size, level_to_str, safe_write, chunk, flush_chunk,
  flush_loop, flush_buffer, available, copy_in, store, make_room, store_or_drop, write_to_buffer,
  flush_if_half, log,
}
use zyrnix.SignalSafe.Invariant.{IsReady}
use zyrnix.SignalSafe.Helpers.{negsuc, int_to_str, int_to_str_lem}
use zyrnix.SignalSafe.Helpers.{written as spelling}
use zyrnix.SignalSafe.Stream.{stream, held, IsBenign}
use zyrnix.SignalSafe.Passed.{write_parts, flush_buffer-passed}
use zyrnix.SignalSafe.Writes.{IsHealthy, fitting, log-stream}

-- Five bytes held, round the end of the ring; `write` will be interrupted and then take two bytes.
abbrev wrapped : Sink
wrapped = record {
  fd_open = true;
  written = codes "ab";
  replies = interrupted ∷ wrote 2 ∷ [];
  buffer = 102 ∷ 103 ∷ 0 ∷ 0 ∷ 0 ∷ 99 ∷ 100 ∷ 101 ∷ [];
  write_pos = 10;
  read_pos = 5;
  capacity = 8;
  dropped_count = 0;
  in_signal_handler = false;
  flush_in_progress = false;
}

wrapped-IsReady : IsReady 100 wrapped
unfolding max_buffer_size
wrapped-IsReady = omega arith

wrapped-IsHealthy : IsHealthy 100 wrapped
wrapped-IsHealthy = record {
  ready = wrapped-IsReady;
  open_fd = refl;
  idle = refl;
  benign = (tt, (tt, tt));
}

stream-wrapped : stream wrapped ≡ codes "abcdefg"
stream-wrapped = refl

-- A message of one byte goes in behind its level, the ring having been emptied for it.
logged : stream (log wrapped info (codes "x")) ≡ codes "abcdefg[INFO] x" ++ 10 ∷ []
unfolding log level_to_str write_to_buffer available make_room flush_buffer flush_loop flush_chunk
    chunk safe_write store_or_drop store copy_in flush_if_half
logged = refl

flush_buffer-passed_example :
    ((parts : List Text) × (concat parts ≡ held wrapped)
      × ((flush_buffer wrapped).written ≡ wrapped.written ++ (write_parts wrapped.replies parts).0))
    × ((flush_buffer wrapped).read_pos ≡ (flush_buffer wrapped).write_pos)
    × ((flush_buffer wrapped).write_pos ≡ wrapped.write_pos)
    × ((flush_buffer wrapped).buffer ≡ wrapped.buffer)
    × ((flush_buffer wrapped).dropped_count ≡ wrapped.dropped_count)
    × (All IsBenign wrapped.replies
        → (flush_buffer wrapped).written ≡ wrapped.written ++ held wrapped)
flush_buffer-passed_example = flush_buffer-passed wrapped wrapped-IsReady.valid refl

log-stream_example :
    (stream (log wrapped info (codes "x"))
      ≡ stream wrapped
        ++ (fitting 8 (level_to_str info) ++ (fitting 8 (codes "x") ++ fitting 8 (10 ∷ []))))
    × IsHealthy 91 (log wrapped info (codes "x"))
unfolding level_to_str
log-stream_example = log-stream 91 wrapped info (codes "x") wrapped-IsHealthy

-- Room for three characters.
int_to_str_lem_example :
    ((negsuc 1233 ≡ negsuc 2147483647) × (int_to_str (negsuc 1233) 4 ≡ none))
    ⊎ (int_to_str (negsuc 1233) 4
        ≡ some (take 3 (spelling (negsuc 1233)) ++ 0 ∷ [], min 3 (length (spelling (negsuc 1233)))))
int_to_str_lem_example = int_to_str_lem (negsuc 1233) 3 (omega arith)
