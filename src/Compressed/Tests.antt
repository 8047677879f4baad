-- ===== src/Compressed/Tests.antt =====
-- The compressing sink at concrete inputs.
use zyrnix.Prelude.{
  ℕ, ◌+◌, ◌<◌, ◌≤◌, ◌≡◌, refl, arith, true, false, Option, some, none, [], ◌++◌, ◌⊎◌, decimal, ◌∷◌,
  if◌then◌else◌, Text, codes, text_eq, lookup,
}
use zyrnix.Compressed.{
  CompressionType, gzip, CompressedFileSink, get_rotated_filename, compresses, is_type, rotate,
  update_compression_level,
}
use zyrnix.Compressed.Archive.{archive, IsCompressed, rotate-archive}
use zyrnix.Files.{Directory}
use zyrnix.Compressed.Utils.{Zlib, IsZlib, compress_file_gzip, compress_file_gzip-gunzip}
use zyrnix.Compressed.Tuning.{IsTuned, update_compression_level-IsTuned}

-- Another file beside the written one, and a level that the tuning may change.
abbrev sink : CompressedFileSink
sink = record {
  base_filename = codes "a";
  max_size = 4;
  max_files = 3;
  options = record { type = gzip; level = 6; compress_on_rotate = true; auto_tune = true };
  file_open = true;
  current_size = 4;
  files_compressed = 3;
  original_bytes = 12;
  compressed_bytes = 3;
  current_level = 6;
  last_compression_duration_us = 100;
  compression_count = 3;
  dir = (codes "a", codes "new\n") ∷ (codes "b", codes "z") ∷ [];
}

-- A compressor that keeps the first byte.
abbrev first_byte : CompressionType → ℕ → Text → Option Text
first_byte t l [] = none
first_byte t l (c ∷ cs) = some (c ∷ [])

sink-IsCompressed : IsCompressed sink
unfolding lookup get_rotated_filename
sink-IsCompressed k = refl

rotate-archive_example : lookup (codes "a.1.gz") (rotate first_byte sink 5).dir ≡ (
    if text_eq (codes "a") (codes "a.1.gz")
    then some []
    else if text_eq (archive sink) (codes "a.1.gz")
    then some (codes "n")
    else none)
unfolding lookup compresses is_type
rotate-archive_example =
    rotate-archive first_byte sink (codes "new\n") (codes "n") 5 refl sink-IsCompressed
      (omega arith) refl refl (omega arith) (codes "a.1.gz")

update_compression_level-IsTuned_example :
    IsTuned (update_compression_level sink)
    × ((update_compression_level sink).current_level ≤ 7)
    × (6 ≤ (update_compression_level sink).current_level + 1)
    × (3 < 3 → update_compression_level sink ≡ sink)
update_compression_level-IsTuned_example =
    update_compression_level-IsTuned sink
      (record { least = omega arith; most = omega arith; used = refl })

-- A compression that changes nothing.
abbrev stored : Zlib Text
stored = record { gzopen = λ path mode. some []; gzwrite = λ out t. out ++ t; gzclose = λ out. out }

stored_IsZlib : IsZlib stored (λ t. t)
stored_IsZlib = record { opened = λ path mode out e. nothing e; written = λ out t. refl }
  where
    nothing : {out : Text} → some [] ≡ some out → out ≡ []
    nothing e = cc

abbrev one_file : Directory
one_file = (codes "a.1", codes "xy") ∷ []

compress_file_gzip-gunzip_example :
    let dir = one_file in
    let after = compress_file_gzip stored (codes "a.1") (codes "a.1.gz") 6 dir in
    ((after.1 ≡ true)
      × (file : Text) × (lookup (codes "a.1") dir ≡ some file)
      × (compressed : Text) × (lookup (codes "a.1.gz") after.0 ≡ some compressed)
      × (compressed ≡ file))
    ⊎ ((after.1 ≡ false)
        × ((lookup (codes "a.1") dir ≡ none)
            ⊎ (stored.gzopen (codes "a.1.gz") (codes "wb" ++ decimal 6) ≡ none))
        × (after.0 ≡ dir))
compress_file_gzip-gunzip_example =
    compress_file_gzip-gunzip stored (λ t. t) (codes "a.1") (codes "a.1.gz") 6 one_file
      stored_IsZlib refl
