-- ===== src/Rotating/Size.antt =====
-- The size that the sink keeps, and the limit on it.
use zyrnix.Prelude.{
  ℕ, ◌+◌, ◌<◌, ◌≡◌, refl, ap, ◌∙◌, inl, inr, some, [], ◌++◌, leb, arith, Text, codes, length,
  length-append, Bool-cases, word_mod, false, lookup, text_eq_refl,
}
use zyrnix.Level.{LogLevel}
use zyrnix.Files.{Directory, or_empty, open_append}
use zyrnix.Rotating.{RotatingFileSink, current_name, init, open_file, rotate, write_line}
use zyrnix.Rotating.Slots.{current, rotate_lem, lookup-open_append}
use zyrnix.Rotating.Kept.{wrote, wrote-current}

-- The size kept is that of the file that is written.
pub record IsSized (s : RotatingFileSink) : Type 0 where
  pub opened : (c : Text) × (current s ≡ some c) × (s.current_size ≡ length c)

below : (m n : ℕ) → leb m n ≡ false → n < m
below m n h = ground (arith, h)

opened_size :
    (path : Text) (dir : Directory)
    → (c : Text) × (lookup path (open_append path dir) ≡ some c)
      × (length (or_empty (lookup path (open_append path dir))) ≡ length c)
unfolding or_empty
opened_size path dir =
    let e = lookup-open_append path path dir ∙ rw (text_eq_refl path) refl in
    (or_empty (lookup path dir), e, ap (λ o. length (or_empty o)) e)

init-IsSized :
    (base : Text) (max_s max_f : ℕ) (level : LogLevel) (dir : Directory)
    → IsSized (init base max_s max_f level dir)
unfolding init open_file
init-IsSized base max_s max_f level dir = record { opened = opened_size (current_name base) dir }

wrote-IsSized :
    (s : RotatingFileSink) (bytes : Text)
    → IsSized s
    → s.current_size + length bytes < word_mod
    → IsSized (wrote s bytes)
wrote-IsSized s bytes v h =
    let (c, e, f) = v.opened in
    record {
      opened = (c ++ bytes, wrote-current s bytes c e, omega (arith, f, length-append c bytes));
    }

rotate-IsSized :
    (s : RotatingFileSink) → IsSized s → IsSized (rotate s) × ((rotate s).current_size ≡ 0)
rotate-IsSized s v =
    let (c, e, f) = v.opened in
    let (o, z, first, below, above) = rotate_lem s c e in (record { opened = ([], o, z) }, z)

-- The constructor, on whatever the directory holds, and every line written by a sink with a limit
-- keep the size exact, and a line leaves it below the limit. The line and the file together are
-- shorter than 2 ^ 64.
pub write_line-IsSized :
    (s : RotatingFileSink) (line base : Text) (max_s max_f : ℕ) (level : LogLevel) (dir : Directory)
    → IsSized s
    → 0 < s.max_size
    → s.current_size + length (line ++ codes "\n") < word_mod
    → IsSized (init base max_s max_f level dir)
      × IsSized (write_line s line)
      × ((write_line s line).current_size < s.max_size)
unfolding write_line
write_line-IsSized s line base max_s max_f level dir v p h =
    let t = wrote s (line ++ codes "\n") in
    let u = wrote-IsSized s (line ++ codes "\n") v h in
    elim (Bool-cases (leb s.max_size t.current_size)) [
      | inl e ↦
          let (w, z) = rotate-IsSized t u in
          rw e (init-IsSized base max_s max_f level dir, w, omega (arith, z))
      | inr e ↦ rw e (init-IsSized base max_s max_f level dir, u, below s.max_size t.current_size e)
    ]
