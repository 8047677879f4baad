-- ===== src/Files/Shift.antt =====
-- The loop that moves numbered files up by one.
use zyrnix.Prelude.{
  ℕ, zero, suc, ◌≡◌, refl, sym, ap, ◌∙◌, true, false, Option, none, some, if◌then◌else◌, ltb, ◌==◌,
  arith, Text, text_eq, text_eq_iff, lookup, lookup-insert, lookup-erase, erase, Option-cases, inl,
  inr,
}
use zyrnix.Files.{Directory, rename, shift_files}

abbrev pub or_else : Option Text → Option Text → Option Text
or_else none o = o
or_else (some c) o = some c

-- Different numbers have different names.
abbrev pub IsNaming : (ℕ → Text) → Type 0
IsNaming name = (i j : ℕ) → text_eq (name i) (name j) ≡ (i == j)

-- The files by number after `n` renamings: each of the first `n` has moved up by one, and a file of
-- number `n` stays only if none takes its place.
abbrev pub shifted : (ℕ → Option Text) → ℕ → ℕ → Option Text
shifted f zero k = f k
shifted f (suc m) zero = none
shifted f (suc m) (suc k) =
    if ltb k m then f k else if k == m then or_else (f m) (f (suc m)) else f (suc k)

lookup_same : (i j : Text) (dir : Directory) → text_eq i j ≡ true → lookup j dir ≡ lookup i dir
lookup_same i j dir h = ap (λ t. lookup t dir) (sym ((text_eq_iff i j).0 h))

pub lookup-rename :
    (old new j : Text) (dir : Directory)
    → text_eq old new ≡ false
    → lookup j (rename old new dir) ≡ (
        if text_eq new j
        then or_else (lookup old dir) (lookup new dir)
        else if text_eq old j
        then none
        else lookup j dir)
unfolding rename
lookup-rename old new j dir h = elim (Option-cases (lookup old dir)) [
  | inl e ↦
      ground (
        arith,
        e,
        text_eq_iff old j,
        text_eq_iff new j,
        lookup_same old j dir,
        lookup_same new j dir,
      )
  | inr (c, e) ↦ ground (arith, e, lookup-insert j new c (erase old dir), lookup-erase j old dir)
]

ne : (m : ℕ) → (m == suc m) ≡ false
ne m = ground arith

-- One renaming and the rest of the loop.
shifted_step :
    (f g : ℕ → Option Text) (m : ℕ)
    → ((k : ℕ)
        → g k ≡ (if k == suc m then or_else (f m) (f (suc m)) else if k == m then none else f k))
    → (k : ℕ) → shifted g m k ≡ shifted f (suc m) k
shifted_step f g zero h zero = ground (arith, h 0)
shifted_step f g zero h (suc k) = ground (arith, h (suc k))
shifted_step f g (suc m) h zero = refl
shifted_step f g (suc m) h (suc k) = ground (arith, h k, h (suc k), h m, h (suc m))

pub lookup-shift_files :
    (name : ℕ → Text) (n : ℕ) (dir : Directory)
    → IsNaming name
    → (k : ℕ) → lookup (name k) (shift_files name n dir) ≡ shifted (λ i. lookup (name i) dir) n k
unfolding shift_files
lookup-shift_files name zero dir h k = refl
lookup-shift_files name (suc m) dir h k =
    lookup-shift_files name m (rename (name m) (name (suc m)) dir) h k
    ∙ shifted_step (λ i. lookup (name i) dir)
        (λ i. lookup (name i) (rename (name m) (name (suc m)) dir)) m
        (λ i. ground (
          arith,
          lookup-rename (name m) (name (suc m)) (name i) dir (h m (suc m) ∙ ne m),
          h (suc m) i,
          h m i,
        ))
        k

-- A file of another name stays.
pub lookup-shift_files_other :
    (name : ℕ → Text) (n : ℕ) (dir : Directory) (j : Text)
    → IsNaming name
    → ((k : ℕ) → text_eq (name k) j ≡ false)
    → lookup j (shift_files name n dir) ≡ lookup j dir
unfolding shift_files
lookup-shift_files_other name zero dir j h other = refl
lookup-shift_files_other name (suc m) dir j h other =
    lookup-shift_files_other name m (rename (name m) (name (suc m)) dir) j h other
    ∙ ground (
      arith,
      lookup-rename (name m) (name (suc m)) j dir (h m (suc m) ∙ ne m),
      other m,
      other (suc m),
    )

rename_missing :
    (old new : Text) (dir : Directory) → lookup old dir ≡ none → rename old new dir ≡ dir
unfolding rename
rename_missing old new dir h = rw (rename, h) refl

-- Where only the file of number 0 is there, the loop renames that one.
pub shift_files_first :
    (name : ℕ → Text) (m : ℕ) (dir : Directory)
    → ((k : ℕ) → lookup (name (suc k)) dir ≡ none)
    → shift_files name (suc m) dir ≡ rename (name 0) (name 1) dir
unfolding shift_files
shift_files_first name zero dir h = refl
shift_files_first name (suc m) dir h =
    ap (λ d. shift_files name (suc m) d)
      (rename_missing (name (suc m)) (name (suc (suc m))) dir (h m))
    ∙ shift_files_first name m dir h
