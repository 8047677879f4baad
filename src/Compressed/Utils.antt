-- ===== src/Compressed/Utils.antt =====
-- `CompressionUtils` and the two compressions of `CompressedFileSink` of
-- src/sinks/compressed_file_sink.cpp, over a directory. zlib, zstd and the shell are parameters: a
-- `gz` is an open compressed file, `gzclose` is what stands in it at the end, and `system` runs a
-- command and returns its status.
use zyrnix.Prelude.{
  concat, ℕ, zero, suc, ◌<◌, ◌≤◌, ◌≡◌, refl, sym, ap, ◌∙◌, Bool, true, false, Option, none, some,
  List, [], ◌∷◌, ◌++◌, if◌then◌else◌, ◌==◌, Text, codes, decimal, lookup, insert, length, take,
  drop, All, arith, length-take, length-drop, take-append-drop, lookup-insert, text_eq,
  text_eq_refl, append_assoc, append-nil, ◌⊎◌, Option-cases, inl, inr,
}
use zyrnix.Compressed.{CompressedFileSink}
use zyrnix.Files.{Directory, or_empty}

abbrev pub buffer_size : ℕ
buffer_size = 8192

-- The loop that reads into the buffer until nothing comes; the fuel is the length of the file.
unfoldable pub chunks : ℕ → ℕ → Text → List Text
chunks zero size file = []
chunks (suc fuel) size [] = []
chunks (suc fuel) size (c ∷ file) = take size (c ∷ file) ∷ chunks fuel size (drop size (c ∷ file))

unfoldable pub gzip_command : Text → Text → ℕ → Text
gzip_command source dest level =
    codes "gzip -"
    ++ decimal level
    ++ codes " -c \""
    ++ source
    ++ codes "\" > \""
    ++ dest
    ++ codes "\""

unfoldable pub zstd_command : Text → Text → ℕ → Text
zstd_command source dest level =
    codes "zstd -"
    ++ decimal level
    ++ codes " -q -f \""
    ++ source
    ++ codes "\" -o \""
    ++ dest
    ++ codes "\""

unfoldable pub get_file_size : Text → Directory → ℕ
get_file_size path dir = elim (lookup path dir) [ none ↦ 0 | some file ↦ length file ]

module _ (system : Text → Directory → Directory × ℕ) where
  -- Without the library: the command, and whether its status is zero.
  unfoldable pub run_command : Text → Directory → Directory × Bool
  run_command command dir = let (after, status) = system command dir in (after, status == 0)

  unfoldable pub is_gzip_available : Bool → Directory → Bool
  is_gzip_available has_zlib dir =
      if has_zlib then true else (run_command (codes "which gzip > /dev/null 2>&1") dir).1

  unfoldable pub is_zstd_available : Bool → Directory → Bool
  is_zstd_available has_zstd dir =
      if has_zstd then true else (run_command (codes "which zstd > /dev/null 2>&1") dir).1

pub record Zlib (Gz : Type 0) : Type 0 where
  pub gzopen : Text → Text → Option Gz
  pub gzwrite : Gz → Text → Gz
  pub gzclose : Gz → Text

module _ {Gz : Type 0} (z : Zlib Gz) where
  unfoldable pub write_chunks : Gz → List Text → Gz
  write_chunks out [] = out
  write_chunks out (t ∷ ts) = write_chunks (z.gzwrite out t) ts

  -- The loop and `gzclose`, with the compressed file made.
  unfoldable pub write_out : Text → Text → Gz → Directory → Directory
  write_out source_path dest_path out dir =
      let file = or_empty (lookup source_path dir) in
      insert dest_path (z.gzclose (write_chunks out (chunks (length file) buffer_size file))) dir

  -- With zlib; the opening makes the compressed file empty.
  unfoldable pub compress_file_gzip : Text → Text → ℕ → Directory → Directory × Bool
  compress_file_gzip source_path dest_path level dir = elim (lookup source_path dir) [
    | none ↦ (dir, false)
    | some file ↦ elim (z.gzopen dest_path (codes "wb" ++ decimal level)) [
      | none ↦ (dir, false)
      | some out ↦ (write_out source_path dest_path out (insert dest_path [] dir), true)
    ]
  ]

-- `CompressedFileSink::compress_gzip` with zlib, at the level of the options.
unfoldable pub compress_gzip :
    {Gz : Type 0} → Zlib Gz → CompressedFileSink → Text → Text → Directory × Bool
compress_gzip z s source dest = compress_file_gzip z source dest s.options.level s.dir

-- With zstd: `compressed` is `ZSTD_compress` with a buffer of the bound, `none` for an error.
unfoldable pub compress_file_zstd :
    (Text → ℕ → Option Text) → Text → Text → ℕ → Directory → Directory × Bool
compress_file_zstd compressed source_path dest_path level dir = elim (lookup source_path dir) [
  | none ↦ (dir, false)
  | some file ↦ elim (compressed file level) [
    | none ↦ (dir, false)
    | some bytes ↦ (insert dest_path bytes dir, true)
  ]
]

-- `CompressedFileSink::compress_zstd` with zstd, at the level of the options.
unfoldable pub compress_zstd :
    (Text → ℕ → Option Text) → CompressedFileSink → Text → Text → Directory × Bool
compress_zstd compressed s source dest =
    compress_file_zstd compressed source dest s.options.level s.dir

concat-chunks :
    (fuel size : ℕ) (file : Text)
    → 0 < size
    → length file ≤ fuel
    → concat (chunks fuel size file) ≡ file
unfolding chunks concat
concat-chunks zero size [] h k = refl
concat-chunks zero size (c ∷ file) h k = absurd (omega (arith, k))
concat-chunks (suc fuel) size [] h k = refl
concat-chunks (suc fuel) size (c ∷ file) h k =
    ap (λ t. take size (c ∷ file) ++ t)
      (concat-chunks fuel size (drop size (c ∷ file)) h
        (omega (arith, h, k, length-drop size (c ∷ file))))
    ∙ take-append-drop size (c ∷ file)

chunks-le : (fuel size : ℕ) (file : Text) → All (λ t. length t ≤ size) (chunks fuel size file)
unfolding chunks
chunks-le zero size file = tt
chunks-le (suc fuel) size [] = tt
chunks-le (suc fuel) size (c ∷ file) =
    (omega (arith, length-take size (c ∷ file)), chunks-le fuel size (drop size (c ∷ file)))

-- What the compressed file spells for a reader of such files.
module _ {Gz : Type 0} (z : Zlib Gz) (gunzip : Text → Text) where
  -- The reader finds in a file the bytes written into it, one write after the other.
  pub record IsZlib : Type 0 where
    pub opened :
        (path mode : Text) (out : Gz) → z.gzopen path mode ≡ some out → gunzip (z.gzclose out) ≡ []
    pub written :
        (out : Gz) (t : Text) → gunzip (z.gzclose (z.gzwrite out t)) ≡ gunzip (z.gzclose out) ++ t

  write_chunks-concat :
      (out : Gz) (ts : List Text)
      → IsZlib
      → gunzip (z.gzclose (write_chunks z out ts)) ≡ gunzip (z.gzclose out) ++ concat ts
  unfolding write_chunks concat
  write_chunks-concat out [] h = sym (append-nil (gunzip (z.gzclose out)))
  write_chunks-concat out (t ∷ ts) h =
      write_chunks-concat (z.gzwrite out t) ts h
      ∙ ap (λ l. l ++ concat ts) (h.written out t)
      ∙ append_assoc (gunzip (z.gzclose out)) t (concat ts)

write_out-gunzip :
    {Gz : Type 0} (z : Zlib Gz) (gunzip : Text → Text) (source_path dest_path mode : Text)
    (out : Gz) (file : Text) (dir : Directory)
    → IsZlib z gunzip
    → z.gzopen dest_path mode ≡ some out
    → lookup source_path dir ≡ some file
    → (compressed : Text) × (lookup dest_path (write_out z source_path dest_path out dir)
        ≡ some compressed)
      × (gunzip compressed ≡ file)
unfolding write_out or_empty
write_out-gunzip z gunzip source_path dest_path mode out file dir h o e =
    let read = or_empty (lookup source_path dir) in
    let same : read ≡ file = ap or_empty e in
    let bytes = z.gzclose (write_chunks z out (chunks (length read) buffer_size read)) in
    (
      bytes,
      lookup-insert dest_path dest_path bytes dir ∙ rw (text_eq_refl dest_path) refl,
      write_chunks-concat z gunzip out (chunks (length read) buffer_size read) h
          ∙ ap (λ t. t ++ concat (chunks (length read) buffer_size read))
              (h.opened dest_path mode out o)
          ∙ concat-chunks (length read) buffer_size read (omega arith) (omega arith)
          ∙ same,
    )

-- For a zlib whose files hold what was written into them: compressing a file that is there succeeds
-- where the compressed file can be opened under another name, and that decompresses to the file, whatever its length;
-- without the file or the opening it fails and the directory is as before.
pub compress_file_gzip-gunzip :
    {Gz : Type 0} (z : Zlib Gz) (gunzip : Text → Text) (source_path dest_path : Text) (level : ℕ)
    (dir : Directory)
    → IsZlib z gunzip
    → text_eq dest_path source_path ≡ false
    → (((compress_file_gzip z source_path dest_path level dir).1 ≡ true)
        × (file : Text) × (lookup source_path dir ≡ some file)
        × (compressed : Text) × (lookup dest_path
              (compress_file_gzip z source_path dest_path level dir).0
            ≡ some compressed)
        × (gunzip compressed ≡ file))
      ⊎ (((compress_file_gzip z source_path dest_path level dir).1 ≡ false)
          × ((lookup source_path dir ≡ none)
              ⊎ (z.gzopen dest_path (codes "wb" ++ decimal level) ≡ none))
          × ((compress_file_gzip z source_path dest_path level dir).0 ≡ dir))
unfolding compress_file_gzip
compress_file_gzip-gunzip z gunzip source_path dest_path level dir h different =
    elim (Option-cases (lookup source_path dir)) [
      | inl e ↦ inr (rw (compress_file_gzip, e) (refl, inl refl, refl))
      | inr (file, e) ↦ elim (Option-cases (z.gzopen dest_path (codes "wb" ++ decimal level))) [
        | inl o ↦ inr (rw (compress_file_gzip, e) (rw o (refl, inr refl, refl)))
        | inr (out, o) ↦
            let (compressed, at, spells) =
              write_out-gunzip z gunzip source_path dest_path (codes "wb" ++ decimal level) out file
                (insert dest_path [] dir) h o
                (lookup-insert source_path dest_path [] dir ∙ rw different e) in
            inl (
              rw (compress_file_gzip, e)
                (rw (compress_file_gzip, o) (refl, file, refl, compressed, at, spells)))
      ]
    ]
