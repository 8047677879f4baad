-- ===== src/Rotating/Kept.antt =====
-- What the rotated files and the written file hold together, oldest first.
use zyrnix.Prelude.{
  ℕ, zero, suc, ◌<◌, ◌≤◌, ◌≡◌, ◌⊎◌, inl, inr, refl, sym, ap, ◌∙◌, false, Option, some, [], ◌++◌,
  append_assoc, append-nil, leb, arith, Text, codes, text_eq_refl, lookup, lookup-insert, length,
  Bool-cases, add_word, leb→le,
}
use zyrnix.Files.{or_empty, append_to}
use zyrnix.Rotating.{RotatingFileSink, current_name, rotated_name, rotate, open_file, write_line}
use zyrnix.Rotating.Slots.{slot, current, current-rotated, rotate_lem}

-- The files of the numbers below `n`, from the highest on.
abbrev pub kept : (ℕ → Option Text) → ℕ → Text
kept f zero = []
kept f (suc k) = or_empty (f k) ++ kept f k

-- Everything that is still there, in the order in which it was written.
abbrev pub stream : ℕ → RotatingFileSink → Text
stream n s = kept (slot s) n ++ or_empty (current s)

-- The written file is there, and so are the rotated files of the numbers below `n`.
pub record IsFilled (n : ℕ) (s : RotatingFileSink) : Type 0 where
  pub opened : (c : Text) × (current s ≡ some c)
  pub full : (k : ℕ) → k < n → (d : Text) × (slot s k ≡ some d)
  pub within : n ≤ suc s.max_files

kept_shift :
    (f g : ℕ → Option Text) (c : Text) (n : ℕ)
    → g 0 ≡ some c
    → ((k : ℕ) → k < n → g (suc k) ≡ f k)
    → kept g (suc n) ≡ kept f n ++ c
unfolding or_empty
kept_shift f g c zero z h = rw z (append-nil c)
kept_shift f g c (suc n) z h =
    rw (h n (omega arith), kept_shift f g c n z (λ k l. h k (omega arith)))
      (sym (append_assoc (or_empty (f n)) (kept f n) c))

-- The line in the written file, before the size is looked at.
abbrev pub wrote : RotatingFileSink → Text → RotatingFileSink
wrote s bytes = record s {
  dir = append_to (current_name s.base_name) bytes s.dir;
  current_size = add_word s.current_size (length bytes);
}

pub wrote-current :
    (s : RotatingFileSink) (bytes c : Text)
    → current s ≡ some c
    → current (wrote s bytes) ≡ some (c ++ bytes)
unfolding append_to or_empty
wrote-current s bytes c h =
    lookup-insert (current_name s.base_name) (current_name s.base_name)
      (or_empty (lookup (current_name s.base_name) s.dir) ++ bytes) s.dir
    ∙ rw (text_eq_refl (current_name s.base_name), h) refl

wrote-slot : (s : RotatingFileSink) (bytes : Text) (k : ℕ) → slot (wrote s bytes) k ≡ slot s k
unfolding append_to
wrote-slot s bytes k =
    lookup-insert (rotated_name s.base_name k) (current_name s.base_name)
      (or_empty (lookup (current_name s.base_name) s.dir) ++ bytes) s.dir
    ∙ rw (current-rotated s.base_name k) refl

kept_same : (f g : ℕ → Option Text) (n : ℕ) → ((k : ℕ) → g k ≡ f k) → kept g n ≡ kept f n
kept_same f g zero h = refl
kept_same f g (suc n) h = rw (h n, kept_same f g n h) refl

stream-wrote :
    (n : ℕ) (s : RotatingFileSink) (bytes : Text)
    → IsFilled n s
    → stream n (wrote s bytes) ≡ stream n s ++ bytes
unfolding or_empty
stream-wrote n s bytes v =
    let (c, e) = v.opened in
    rw
      (
        kept_same (slot s) (slot (wrote s bytes)) n (wrote-slot s bytes),
        wrote-current s bytes c e,
        e,
      )
      (sym (append_assoc (kept (slot s) n) c bytes))

wrote-IsFilled :
    (n : ℕ) (s : RotatingFileSink) (bytes : Text) → IsFilled n s → IsFilled n (wrote s bytes)
wrote-IsFilled n s bytes v = record {
  opened = (v.opened.0 ++ bytes, wrote-current s bytes v.opened.0 v.opened.1);
  full = λ k l. ((v.full k l).0, wrote-slot s bytes k ∙ (v.full k l).1);
  within = v.within;
}

-- A rotation with room for one more file.
module _ (n m : ℕ) (s : RotatingFileSink) (v : IsFilled n s) (small : m ≤ n)
    (room : m ≤ s.max_files) where
  stream-rotate : stream (suc m) (rotate s) ≡ kept (slot s) m ++ or_empty (current s)
  unfolding or_empty
  stream-rotate =
      let (c, e) = v.opened in
      let (o, z, first, below, above) = rotate_lem s c e in
      rw (o, e, append-nil (kept (slot (rotate s)) (suc m)))
        (kept_shift (slot s) (slot (rotate s)) c m first
          (λ k l. let (d, f) = v.full k (omega arith) in below k d (omega arith) f ∙ sym f))

  rotate-IsFilled : IsFilled (suc m) (rotate s)
  unfolding rotate open_file
  rotate-IsFilled =
      let (c, e) = v.opened in
      let (o, z, first, below, above) = rotate_lem s c e in
      record { opened = ([], o); full = filled; within = (omega arith) }
    where
      filled : (k : ℕ) → k < suc m → (d : Text) × (slot (rotate s) k ≡ some d)
      filled zero l = (v.opened.0, (rotate_lem s v.opened.0 v.opened.1).2)
      filled (suc k) l =
          let (d, f) = v.full k (omega arith) in
          (d, (rotate_lem s v.opened.0 v.opened.1).3 k d (omega arith) f)

exactly : (n m : ℕ) → leb n m ≡ false → n ≤ suc m → suc m ≡ n
exactly n m h l = ground (arith, h)

le_of : (n m : ℕ) → leb n m ≡ false → m ≤ n
le_of n m h = ground (arith, h)

-- What a rotation of a filled sink loses: the file of the number `max_files`, if there is one.
rotate-kept :
    (n : ℕ) (s : RotatingFileSink)
    → IsFilled n s
    → (m : ℕ) × (lost : Text) × IsFilled m (rotate s)
      × (lost ++ stream m (rotate s) ≡ stream n s)
      × (((n ≡ suc s.max_files) × (lost ≡ or_empty (slot s s.max_files)))
          ⊎ ((n ≤ s.max_files) × (lost ≡ [])))
rotate-kept n s v = elim (Bool-cases (leb n s.max_files)) [
  | inl h ↦ (
    suc n,
    [],
    rotate-IsFilled n n s v (omega arith) (leb→le n s.max_files h),
    stream-rotate n n s v (omega arith) (leb→le n s.max_files h),
    inr (leb→le n s.max_files h, refl),
  )
  | inr h ↦ (
    suc s.max_files,
    or_empty (slot s s.max_files),
    rotate-IsFilled n s.max_files s v (le_of n s.max_files h) (omega arith),
    ap (λ x. or_empty (slot s s.max_files) ++ x)
          (stream-rotate n s.max_files s v (le_of n s.max_files h) (omega arith))
        ∙ sym (
            append_assoc (or_empty (slot s s.max_files)) (kept (slot s) s.max_files)
              (or_empty (current s)))
        ∙ ap (λ k. stream k s) (exactly n s.max_files h v.within),
    inl (sym (exactly n s.max_files h v.within), refl),
  )
]

below_of : (n m : ℕ) → leb n m ≡ false → m < n
below_of n m h = ground (arith, h)

-- Where the written file is there, and the rotated files of the numbers below `n`, which are
-- `max_files` + 1 at most: a line that is written stands at the end of what the files hold together.
-- While the size with the line stays below `max_size`, nothing rotates and nothing is lost. From
-- `max_size` on the sink rotates: the written file is empty again, the file of the number 0 is the
-- one that was written before, with the line, and the oldest file is lost if `max_files` + 1 rotated
-- files are there, and only then.
pub write_line-kept :
    (n : ℕ) (s : RotatingFileSink) (line : Text)
    → IsFilled n s
    → (m : ℕ) × (lost : Text) × IsFilled m (write_line s line)
      × (lost ++ stream m (write_line s line) ≡ stream n s ++ (line ++ codes "\n"))
      × (((add_word s.current_size (length (line ++ codes "\n")) < s.max_size)
            × (m ≡ n)
            × (lost ≡ [])
            × (current (write_line s line) ≡ some (or_empty (current s) ++ (line ++ codes "\n")))
            × ((k : ℕ) → slot (write_line s line) k ≡ slot s k))
          ⊎ ((s.max_size ≤ add_word s.current_size (length (line ++ codes "\n")))
              × (current (write_line s line) ≡ some [])
              × (slot (write_line s line) 0 ≡ some (or_empty (current s) ++ (line ++ codes "\n")))
              × (((n ≡ suc s.max_files) × (lost ≡ or_empty (slot s s.max_files)))
                  ⊎ ((n ≤ s.max_files) × (lost ≡ [])))))
unfolding write_line or_empty
write_line-kept n s line v =
    let bytes : Text = line ++ codes "\n" in
    let t = wrote s bytes in
    let u = wrote-IsFilled n s bytes v in
    let grown = stream-wrote n s bytes v in
    let (c, open_c) = v.opened in
    let now : current t ≡ some (or_empty (current s) ++ bytes) =
      rw open_c (wrote-current s bytes c open_c) in
    elim (Bool-cases (leb s.max_size t.current_size)) [
      | inl e ↦
          let (m, lost, w, k, gone) = rotate-kept n t u in
          let r = rotate_lem t (or_empty (current s) ++ bytes) now in
          rw e (
            m,
            lost,
            w,
            k ∙ grown,
            inr (
              leb→le s.max_size t.current_size e,
              r.0,
              r.2,
              rw (wrote-slot s bytes s.max_files) at gone,
            ),
          )
      | inr e ↦ rw e (n, [], u, grown, inl (below_of _ _ e, refl, refl, now, wrote-slot s bytes))
    ]
