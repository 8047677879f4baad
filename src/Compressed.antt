-- ===== src/Compressed.antt =====
-- `CompressedFileSink` of src/sinks/compressed_file_sink.cpp, over a directory. What zlib, zstd or
-- the command of that name make of a file is a parameter: `compress type level bytes` is the
-- compressed file, `none` if none was written. The time that a compression takes, in microseconds,
-- is an argument. A `double` is compared as the exact quotient; rounding is not modelled. Levels
-- are not negative.
pub mod Archive
pub mod Tuning
pub mod Utils
mod Tests
use zyrnix.Prelude.{
  ℕ, zero, suc, ◌+◌, ◌-◌, ◌*◌, max, min, Bool, true, false, not, ◌&&◌, ◌||◌, Option, none, some,
  List, [], ◌∷◌, ◌++◌, if◌then◌else◌, ltb, leb, ◌==◌, Text, codes, decimal, lookup, insert, erase,
  length, add_word,
}
use zyrnix.Files.{Directory, or_empty, open_append, open_truncate, append_to, shift_files}

pub data CompressionType : Type 0 where
  no_compression gzip zstd : CompressionType

pub record CompressionOptions : Type 0 where
  pub type : CompressionType
  pub level : ℕ
  pub compress_on_rotate : Bool
  pub auto_tune : Bool

pub record CompressedFileSink : Type 0 where
  pub base_filename : Text
  pub max_size : ℕ
  pub max_files : ℕ
  pub options : CompressionOptions
  pub file_open : Bool
  pub current_size : ℕ
  pub files_compressed : ℕ
  pub original_bytes : ℕ
  pub compressed_bytes : ℕ
  pub current_level : ℕ
  pub last_compression_duration_us : ℕ
  pub compression_count : ℕ
  pub dir : Directory

-- `opened` is whether the file could be opened.
unfoldable pub init : Text → ℕ → ℕ → CompressionOptions → Bool → Directory → CompressedFileSink
init filename max_size max_files options opened dir = record {
  base_filename = filename;
  max_size = max_size;
  max_files = max_files;
  options = options;
  file_open = opened;
  current_size = if opened then length (or_empty (lookup filename dir)) else 0;
  files_compressed = 0;
  original_bytes = 0;
  compressed_bytes = 0;
  current_level = options.level;
  last_compression_duration_us = 0;
  compression_count = 0;
  dir = if opened then open_append filename dir else dir;
}

unfoldable pub get_rotated_filename : Text → ℕ → Text
get_rotated_filename base index = base ++ (codes "." ++ decimal index)

-- The name that the loop of `rotate` uses for a number.
unfoldable pub numbered : Text → ℕ → Text
numbered base zero = base
numbered base (suc i) = get_rotated_filename base (suc i)

unfoldable pub get_compressed_extension : CompressionType → Text
get_compressed_extension gzip = codes ".gz"
get_compressed_extension zstd = codes ".zst"
get_compressed_extension no_compression = []

unfoldable pub is_type : CompressionType → Bool
is_type no_compression = false
is_type gzip = true
is_type zstd = true

-- `compress_on_rotate && type != None`.
unfoldable pub compresses : CompressionOptions → Bool
compresses o = o.compress_on_rotate && is_type o.type

-- `calculate_compression_speed() < limit` and `> limit`, for a limit in bytes per microsecond. The
-- speed is zero without a duration or without bytes.
unfoldable pub slower : CompressedFileSink → ℕ → Bool
slower s limit =
    (s.last_compression_duration_us == 0 || s.original_bytes == 0)
    || ltb s.original_bytes (limit * (s.compression_count * s.last_compression_duration_us))

unfoldable pub faster : CompressedFileSink → ℕ → Bool
faster s limit =
    not (s.last_compression_duration_us == 0 || s.original_bytes == 0)
    && ltb (limit * (s.compression_count * s.last_compression_duration_us)) s.original_bytes

-- `avg_ratio >= least`, for a limit above 1.
unfoldable pub ratio_reaches : CompressedFileSink → ℕ → Bool
ratio_reaches s least =
    ltb 0 s.compressed_bytes && leb (least * s.compressed_bytes) s.original_bytes

abbrev pub max_level : CompressionType → ℕ
max_level gzip = 9
max_level t = 22

unfoldable pub calculate_optimal_level : CompressedFileSink → ℕ
calculate_optimal_level s =
    if slower s 10 && ratio_reaches s 3
    then max 1 (s.current_level - 1)
    else if faster s 50 && not (ratio_reaches s 3)
    then min (max_level s.options.type) (s.current_level + 1)
    else if ratio_reaches s 5 && ltb 2 s.current_level
    then s.current_level - 1
    else s.current_level

-- The second part of `update_compression_level`.
unfoldable pub retune : CompressedFileSink → CompressedFileSink
retune s = record s {
  current_level = calculate_optimal_level s;
  options =
      if calculate_optimal_level s == s.current_level
      then s.options
      else record s.options { level = calculate_optimal_level s };
}

unfoldable pub update_compression_level : CompressedFileSink → CompressedFileSink
update_compression_level s = if ltb s.compression_count 3 then s else retune s

unfoldable pub enable_auto_tune : CompressedFileSink → Bool → CompressedFileSink
enable_auto_tune s enable = record s {
  options = record s.options { auto_tune = enable };
  current_level = if enable then s.options.level else s.current_level;
}

-- The renaming at the start of `rotate`: the file of the highest number goes first.
unfoldable pub move_up : CompressedFileSink → CompressedFileSink
move_up s = record s {
  dir = shift_files (numbered s.base_filename) s.max_files (
      if ltb 0 s.max_files
      then erase (get_rotated_filename s.base_filename s.max_files) s.dir
      else s.dir);
}

unfoldable pub start_file : CompressedFileSink → CompressedFileSink
start_file s = record s {
  dir = open_truncate s.base_filename s.dir;
  file_open = true;
  current_size = 0;
}

-- The statistics of a file that was compressed, and the end of its source.
unfoldable pub count_compression : CompressedFileSink → Text → ℕ → ℕ → CompressedFileSink
count_compression s source original_size compressed_size =
    let t = record s {
      dir = erase source s.dir;
      files_compressed = add_word s.files_compressed 1;
      original_bytes = add_word s.original_bytes original_size;
      compressed_bytes = add_word s.compressed_bytes compressed_size;
    } in
    if t.options.auto_tune then update_compression_level t else t

module _ (compress : CompressionType → ℕ → Text → Option Text) where
  -- `compress_file`: nothing is written for a missing source or without a result.
  unfoldable pub compress_file : CompressedFileSink → Text → Text → Directory → Directory
  compress_file s source dest dir = elim (lookup source dir) [
    | none ↦ dir
    | some bytes ↦ elim (compress s.options.type s.options.level bytes) [
      | none ↦ dir
      | some out ↦ insert dest out dir
    ]
  ]

  -- The part of `rotate` that compresses the file of number 1, with its statistics.
  unfoldable pub compress_first : CompressedFileSink → ℕ → CompressedFileSink
  compress_first s duration =
      let source = get_rotated_filename s.base_filename 1 in
      let dest = source ++ get_compressed_extension s.options.type in
      let after = compress_file s source dest s.dir in
      let size = length (or_empty (lookup dest after)) in
      let t = record s {
        dir = after;
        last_compression_duration_us = duration;
        compression_count = add_word s.compression_count 1;
      } in
      if ltb 0 size
      then count_compression t source (length (or_empty (lookup source s.dir))) size
      else t

  unfoldable pub rotate : CompressedFileSink → ℕ → CompressedFileSink
  rotate s duration =
      start_file (if compresses s.options then compress_first (move_up s) duration else move_up s)

  -- `log` of a line that is formatted.
  unfoldable pub log : CompressedFileSink → Text → ℕ → CompressedFileSink
  unfolding rotate
  log s formatted duration =
      let t = record s {
        dir = append_to s.base_filename (formatted ++ codes "\n") s.dir;
        current_size = add_word s.current_size (length formatted + 1);
      } in
      if s.file_open then if leb t.max_size t.current_size then rotate t duration else t else s

pub record CompressionStats : Type 0 where
  pub files_compressed : ℕ
  pub original_bytes : ℕ
  pub compressed_bytes : ℕ

-- The ratio is the quotient of the last two.
unfoldable pub get_compression_stats : CompressedFileSink → CompressionStats
get_compression_stats s = record {
  files_compressed = s.files_compressed;
  original_bytes = s.original_bytes;
  compressed_bytes = s.compressed_bytes;
}
