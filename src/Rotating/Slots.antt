-- ===== src/Rotating/Slots.antt =====
-- Where a rotation puts each file.
use mathlib.Core.List.{append_cancel_left}
use zyrnix.Prelude.{
  ℕ, zero, suc, ◌<◌, ◌≡◌, ◌≢◌, refl, sym, ap, ◌∙◌, true, false, Option, none, some, [], ◌∷◌, ◌++◌,
  append_assoc, if◌then◌else◌, ◌==◌, arith, Text, codes, text_eq, text_eq_iff, text_eq_refl,
  decimal, lookup, lookup-insert, length, length-append,
}
use zyrnix.Files.{Directory, rename, or_empty, open_append, shift_files}
use zyrnix.Files.Names.{text_eq-false, numbered-IsNaming}
use zyrnix.Files.Shift.{
  IsNaming, shifted, lookup-rename, lookup-shift_files, lookup-shift_files_other,
}
use zyrnix.Rotating.{RotatingFileSink, current_name, rotated_name, open_file, rotate}

-- The rotated file of a number, and the file that is written.
abbrev pub slot : RotatingFileSink → ℕ → Option Text
slot s k = lookup (rotated_name s.base_name k) s.dir

abbrev pub current : RotatingFileSink → Option Text
current s = lookup (current_name s.base_name) s.dir

rotated_name-IsNaming : (base : Text) → IsNaming (rotated_name base)
unfolding rotated_name
rotated_name-IsNaming base = numbered-IsNaming (base ++ codes ".") (codes ".log")

short : (t : Text) → 46 ∷ (t ++ codes ".log") ≢ codes ".log"
short t h = absurd (omega (arith, length-append t (codes ".log"), ap length h))

pub rotated-current :
    (base : Text) (k : ℕ) → text_eq (rotated_name base k) (current_name base) ≡ false
unfolding rotated_name current_name
rotated-current base k = text_eq-false _ _ (λ h. short (decimal k) (
    append_cancel_left base (46 ∷ (decimal k ++ codes ".log")) (codes ".log")
      (sym (append_assoc base (codes ".") (decimal k ++ codes ".log")) ∙ h)))

pub current-rotated :
    (base : Text) (k : ℕ) → text_eq (current_name base) (rotated_name base k) ≡ false
current-rotated base k = text_eq-false (current_name base) (rotated_name base k) (λ h. absurd (
    true_false (
      sym ((text_eq_iff (rotated_name base k) (current_name base)).1 (sym h))
      ∙ rotated-current base k)))
  where
    true_false : true ≡ false → ⊥
    true_false e = cc

pub lookup-open_append :
    (path j : Text) (dir : Directory)
    → lookup j (open_append path dir)
      ≡ (if text_eq path j then some (or_empty (lookup path dir)) else lookup j dir)
unfolding open_append
lookup-open_append path j dir = lookup-insert j path (or_empty (lookup path dir)) dir

module _ (base c : Text) (n : ℕ) (dir : Directory)
    (h : lookup (current_name base) dir ≡ some c) where
  -- The directory before the file is opened again.
  abbrev moved : Directory
  moved = rename (current_name base) (rotated_name base 0) (shift_files (rotated_name base) n dir)

  current-shifted : lookup (current_name base) (shift_files (rotated_name base) n dir) ≡ some c
  current-shifted =
      lookup-shift_files_other (rotated_name base) n dir (current_name base)
        (rotated_name-IsNaming base) (rotated-current base)
      ∙ h

  current-moved : lookup (current_name base) moved ≡ none
  current-moved =
      lookup-rename (current_name base) (rotated_name base 0) (current_name base)
        (shift_files (rotated_name base) n dir) (current-rotated base 0)
      ∙ rw (rotated-current base 0, text_eq_refl (current_name base)) refl

  slot-moved :
      (k : ℕ)
      → lookup (rotated_name base k) moved
        ≡ (if 0 == k then some c else shifted (λ i. lookup (rotated_name base i) dir) n k)
  slot-moved k =
      lookup-rename (current_name base) (rotated_name base 0) (rotated_name base k)
        (shift_files (rotated_name base) n dir) (current-rotated base 0)
      ∙ rw
          (
            rotated_name-IsNaming base 0 k,
            current-rotated base k,
            current-shifted,
            lookup-shift_files (rotated_name base) n dir (rotated_name-IsNaming base) k,
          )
          refl

-- Where the shifted files are.
shifted-below :
    (f : ℕ → Option Text) (n k : ℕ) (d : Text) → k < n → f k ≡ some d → shifted f n (suc k) ≡ some d
shifted-below f zero k d l h = absurd (omega arith)
shifted-below f (suc m) k d l h = ground (arith, h)

shifted-above : (f : ℕ → Option Text) (n k : ℕ) → n < k → shifted f n k ≡ f k
shifted-above f zero k l = refl
shifted-above f (suc m) zero l = absurd (omega arith)
shifted-above f (suc m) (suc k) l = ground arith

-- A rotation moves the written file to number 0 and starts an empty one; a file of a number below
-- `max_files` moves up by one, and a file of a number above `max_files` stays.
pub rotate_lem :
    (s : RotatingFileSink) (c : Text)
    → current s ≡ some c
    → (current (rotate s) ≡ some [])
      × ((rotate s).current_size ≡ 0)
      × (slot (rotate s) 0 ≡ some c)
      × ((k : ℕ) (d : Text)
          → k < s.max_files
          → slot s k ≡ some d
          → slot (rotate s) (suc k) ≡ some d)
      × ((k : ℕ) → s.max_files < k → slot (rotate s) k ≡ slot s k)
unfolding rotate open_file or_empty
rotate_lem s c h = (
  opened,
  ap (λ o. length (or_empty o)) opened,
  at 0,
  λ k d l e. ground (arith, at (suc k), shifted-below (slot s) s.max_files k d l e),
  λ k l. at k ∙ ground (arith, shifted-above (slot s) s.max_files k l),
)
  where
    opened : current (rotate s) ≡ some []
    opened =
        lookup-open_append (current_name s.base_name) (current_name s.base_name)
          (moved s.base_name c s.max_files s.dir h)
        ∙ rw
            (
              text_eq_refl (current_name s.base_name),
              current-moved s.base_name c s.max_files s.dir h,
            )
            refl

    at : (k : ℕ) → slot (rotate s) k ≡ (if 0 == k then some c else shifted (slot s) s.max_files k)
    at k =
        lookup-open_append (current_name s.base_name) (rotated_name s.base_name k)
          (moved s.base_name c s.max_files s.dir h)
        ∙ rw (current-rotated s.base_name k) (slot-moved s.base_name c s.max_files s.dir h k)
