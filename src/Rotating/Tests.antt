-- ===== src/Rotating/Tests.antt =====
-- The rotating sink at concrete inputs.
use zyrnix.Prelude.{
  ℕ, suc, zero, ◌<◌, ◌≤◌, ◌⊎◌, ◌≡◌, refl, arith, some, [], ◌∷◌, ◌++◌, Text, codes, lookup, insert,
  erase, add_word, decimal, digits,
}
use zyrnix.Level.{trace}
use zyrnix.Files.{rename, or_empty, open_append, append_to, shift_files}
use zyrnix.Rotating.{RotatingFileSink, open_file, rotate, write_line, current_name, rotated_name}
use zyrnix.Rotating.Slots.{slot, current}
use zyrnix.Rotating.Kept.{IsFilled, stream, write_line-kept}

-- One rotated file so far, and one to come until the limit.
abbrev sink : RotatingFileSink
sink = record {
  level = trace;
  base_name = codes "a";
  max_size = 4;
  max_files = 1;
  current_size = 2;
  dir = (codes "a.0.log", codes "1\n2\n") ∷ (codes "a.log", codes "3\n") ∷ [];
}

second :
    (write_line sink (codes "4")).dir
    ≡ (codes "a.0.log", codes "3\n4\n")
      ∷ (codes "a.1.log", codes "1\n2\n")
      ∷ (codes "a.log", [])
      ∷ []
unfolding write_line rotate open_file open_append append_to or_empty rename shift_files lookup
    insert erase decimal digits current_name rotated_name
second = refl

sink-IsFilled : IsFilled 1 sink
unfolding lookup current_name rotated_name decimal digits
sink-IsFilled = record { opened = (codes "3\n", refl); full = only; within = omega arith }
  where
    only : (k : ℕ) → k < 1 → (d : Text) × (slot sink k ≡ some d)
    only zero l = (codes "1\n2\n", refl)
    only (suc k) l = absurd (omega arith)

write_line-kept_example :
    (m : ℕ) × (lost : Text) × IsFilled m (write_line sink (codes "4"))
    × (lost ++ stream m (write_line sink (codes "4")) ≡ stream 1 sink ++ codes "4\n")
    × (((add_word 2 2 < 4)
          × (m ≡ 1)
          × (lost ≡ [])
          × (current (write_line sink (codes "4")) ≡ some (or_empty (current sink) ++ codes "4\n"))
          × ((k : ℕ) → slot (write_line sink (codes "4")) k ≡ slot sink k))
        ⊎ ((4 ≤ add_word 2 2)
            × (current (write_line sink (codes "4")) ≡ some [])
            × (slot (write_line sink (codes "4")) 0 ≡ some (or_empty (current sink) ++ codes "4\n"))
            × (((1 ≡ suc sink.max_files) × (lost ≡ or_empty (slot sink 1)))
                ⊎ ((1 ≤ sink.max_files) × (lost ≡ [])))))
write_line-kept_example = write_line-kept 1 sink (codes "4") sink-IsFilled
