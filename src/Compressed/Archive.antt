-- ===== src/Compressed/Archive.antt =====
-- What a rotation with compression leaves.
use zyrnix.Prelude.{
  ℕ, zero, suc, ◌<◌, ◌≡◌, refl, ap, subst, ◌∙◌, Bool, true, false, Option, none, some, [], ◌∷◌,
  ◌++◌, if◌then◌else◌, ltb, lt→ltb, arith, Text, text_eq, text_eq_iff, text_eq_refl, decimal,
  lookup, insert, erase, lookup-insert, lookup-erase, length, length-append, Bool-cases, inl, inr,
}
use zyrnix.Files.{Directory, or_empty, open_truncate, shift_files}
use zyrnix.Files.Names.{text_eq-false}
use zyrnix.Files.Shift.{shift_files_first, lookup-rename}
use zyrnix.Compressed.{
  CompressionType, no_compression, gzip, zstd, CompressionOptions, CompressedFileSink,
  get_rotated_filename, numbered, get_compressed_extension, compresses, is_type, retune,
  update_compression_level, count_compression, compress_file, compress_first, move_up, start_file,
  rotate,
}

-- The name of the compressed file of number 1.
abbrev pub archive : CompressedFileSink → Text
archive s = get_rotated_filename s.base_filename 1 ++ get_compressed_extension s.options.type

-- No rotated file is left as it is.
abbrev pub IsCompressed : CompressedFileSink → Type 0
IsCompressed s = (k : ℕ) → lookup (get_rotated_filename s.base_filename (suc k)) s.dir ≡ none

rotated-base : (base : Text) (k : ℕ) → text_eq (get_rotated_filename base k) base ≡ false
unfolding get_rotated_filename
rotated-base base k =
    text_eq-false (get_rotated_filename base k) base
      (λ h. absurd (omega (arith, length-append base (46 ∷ decimal k), ap length h)))

base-rotated : (base : Text) (k : ℕ) → text_eq base (get_rotated_filename base k) ≡ false
unfolding get_rotated_filename
base-rotated base k =
    text_eq-false base (get_rotated_filename base k)
      (λ h. absurd (omega (arith, length-append base (46 ∷ decimal k), ap length h)))

lookup-moved :
    (base c : Text) (m : ℕ) (dir : Directory) (j : Text)
    → lookup base dir ≡ some c
    → ((k : ℕ) → lookup (get_rotated_filename base (suc k)) dir ≡ none)
    → lookup j (shift_files (numbered base) (suc m) (erase (get_rotated_filename base (suc m)) dir))
      ≡ (if text_eq (get_rotated_filename base 1) j
          then some c
          else if text_eq base j
          then none
          else lookup j dir)
unfolding numbered
lookup-moved base c m dir j h free =
    ap (lookup j) (
      shift_files_first (numbered base) m gone
        (λ k. erased (get_rotated_filename base (suc k)) ∙ free k))
    ∙ lookup-rename base (get_rotated_filename base 1) j gone (base-rotated base 1)
    ∙ rw (erased base, erased j, h) refl
  where
    gone : Directory
    gone = erase (get_rotated_filename base (suc m)) dir

    erased : (i : Text) → lookup i gone ≡ lookup i dir
    erased i = ground (
      arith,
      lookup-erase i (get_rotated_filename base (suc m)) dir,
      text_eq_iff (get_rotated_filename base (suc m)) i,
      free m,
    )

tuned_dir : (s : CompressedFileSink) → (update_compression_level s).dir ≡ s.dir
unfolding update_compression_level retune
tuned_dir s = ground arith

counted_dir :
    (s : CompressedFileSink) (source : Text) (m n : ℕ)
    → (count_compression s source m n).dir ≡ erase source s.dir
unfolding count_compression
counted_dir s source m n = elim (Bool-cases s.options.auto_tune) [
  | inl e ↦ simp e (tuned_dir _)
  | inr e ↦ simp e refl
]

extension_pos :
    (o : CompressionOptions) → compresses o ≡ true → 0 < length (get_compressed_extension o.type)
unfolding compresses is_type get_compressed_extension
extension_pos o h = pos o.type (ground (arith, h))
  where
    pos : (t : CompressionType) → is_type t ≡ true → 0 < length (get_compressed_extension t)
    pos no_compression e = cc
    pos gzip e = omega arith
    pos zstd e = omega arith

-- The archive has a name of its own.
archive-source :
    (s : CompressedFileSink)
    → compresses s.options ≡ true
    → text_eq (archive s) (get_rotated_filename s.base_filename 1) ≡ false
archive-source s h = text_eq-false (archive s) (get_rotated_filename s.base_filename 1) (λ e.
    absurd (
      omega (
        arith,
        extension_pos s.options h,
        length-append (get_rotated_filename s.base_filename 1)
            (get_compressed_extension s.options.type),
        ap length e,
      )))

module _ (compress : CompressionType → ℕ → Text → Option Text) (s : CompressedFileSink)
    (c out : Text) (duration : ℕ) where
  wrote_archive :
      lookup (get_rotated_filename s.base_filename 1) s.dir ≡ some c
      → compress s.options.type s.options.level c ≡ some out
      → compress_file compress s (get_rotated_filename s.base_filename 1) (archive s) s.dir
        ≡ insert (archive s) out s.dir
  unfolding compress_file
  wrote_archive h k = rw (compress_file, h) (rw k refl)

  first_dir :
      lookup (get_rotated_filename s.base_filename 1) s.dir ≡ some c
      → compress s.options.type s.options.level c ≡ some out
      → 0 < length out
      → (compress_first compress s duration).dir
        ≡ erase (get_rotated_filename s.base_filename 1) (insert (archive s) out s.dir)
  unfolding compress_first or_empty
  first_dir h k l =
      rw
        (
          wrote_archive h k,
          lookup-insert (archive s) (archive s) out s.dir,
          text_eq_refl (archive s),
          lt→ltb 0 (length out) l,
        )
        (counted_dir _ _ _ _)

lookup-up :
    (base c : Text) (n : ℕ) (dir : Directory) (j : Text)
    → lookup base dir ≡ some c
    → ((k : ℕ) → lookup (get_rotated_filename base (suc k)) dir ≡ none)
    → 0 < n
    → lookup j (
        shift_files
          (numbered base)
          n
          (if ltb 0 n then erase (get_rotated_filename base n) dir else dir))
      ≡ (if text_eq (get_rotated_filename base 1) j
          then some c
          else if text_eq base j
          then none
          else lookup j dir)
lookup-up base c zero dir j h free p = absurd (omega arith)
lookup-up base c (suc m) dir j h free p =
    rw (lt→ltb 0 (suc m) p) (lookup-moved base c m dir j h free)

tuned_base : (s : CompressedFileSink) → (update_compression_level s).base_filename ≡ s.base_filename
unfolding update_compression_level retune
tuned_base s = ground arith

counted_base :
    (s : CompressedFileSink) (source : Text) (m n : ℕ)
    → (count_compression s source m n).base_filename ≡ s.base_filename
unfolding count_compression
counted_base s source m n = elim (Bool-cases s.options.auto_tune) [
  | inl e ↦ simp e (tuned_base _)
  | inr e ↦ simp e refl
]

either :
    (b : Bool) (s t : CompressedFileSink) (base : Text)
    → s.base_filename ≡ base
    → t.base_filename ≡ base
    → (if b then s else t).base_filename ≡ base
either true s t base h k = h
either false s t base h k = k

first_base :
    (compress : CompressionType → ℕ → Text → Option Text) (s : CompressedFileSink) (duration : ℕ)
    → (compress_first compress s duration).base_filename ≡ s.base_filename
unfolding compress_first
first_base compress s duration = either _ _ _ s.base_filename (counted_base _ _ _ _) refl

lookup-started :
    (s : CompressedFileSink) (base j : Text)
    → s.base_filename ≡ base
    → lookup j (start_file s).dir ≡ (if text_eq base j then some [] else lookup j s.dir)
unfolding start_file open_truncate
lookup-started s base j e =
    subst
      (λ b.
        lookup j (insert s.base_filename [] s.dir)
        ≡ (if text_eq b j then some [] else lookup j s.dir))
      e (lookup-insert j s.base_filename [] s.dir)

module _ (compress : CompressionType → ℕ → Text → Option Text) (s : CompressedFileSink)
    (c out : Text) (duration : ℕ) where
  -- A rotation with compression, where every rotated file was compressed before: the written file
  -- starts again empty, and its bytes, compressed, take the place of the archive of the rotation
  -- before. No other file changes, whatever `max_files` is, if it is not 0.
  pub rotate-archive :
      lookup s.base_filename s.dir ≡ some c
      → IsCompressed s
      → 0 < s.max_files
      → compresses s.options ≡ true
      → compress s.options.type s.options.level c ≡ some out
      → 0 < length out
      → (j : Text)
      → lookup j (rotate compress s duration).dir ≡ (
          if text_eq s.base_filename j
          then some []
          else if text_eq (archive s) j
          then some out
          else lookup j s.dir)
  unfolding rotate move_up
  rotate-archive h free m k e l j =
      let source = get_rotated_filename s.base_filename 1 in
      let at : (i : Text)
          → lookup i (move_up s).dir ≡ (
              if text_eq source i
              then some c
              else if text_eq s.base_filename i
              then none
              else lookup i s.dir) =
        λ i. lookup-up s.base_filename c s.max_files s.dir i h free m in
      let first : lookup source (move_up s).dir ≡ some c =
        at source ∙ rw (text_eq_refl source) refl in
      rw k (
        lookup-started (compress_first compress (move_up s) duration) s.base_filename j
          (first_base compress (move_up s) duration)
        ∙ ap (λ d. if text_eq s.base_filename j then some [] else lookup j d)
            (first_dir compress (move_up s) c out duration first e l)
        ∙ ground (
          arith,
          lookup-erase j source (insert (archive s) out (move_up s).dir),
          lookup-insert j (archive s) out (move_up s).dir,
          at j,
          free 0,
          archive-source s k,
          text_eq_iff source j,
          text_eq_iff (archive s) j,
        ))
