-- ===== src/SignalSafe/Window.antt =====
-- The bytes that a ring holds between two positions, and how a write and a flush change them.
use zyrnix.Prelude.{
  ℕ, zero, suc, ◌+◌, ◌/◌, ◌%◌, ◌≤◌, ◌<◌, ◌≡◌, ◌≢◌, ◌∙◌, sym, refl, ap, [], ◌∷◌, ◌++◌, arith, Text,
  length, set, get_or, get_or-set_self, get_or-set_ne, length-set, add_word, word_mod, append_assoc,
  append-nil,
}
use native.Mathlib.Nat.{
  div-add-mod, mod-lt, mul-le-mul_left, add-zero, zero-add, mod-add-mod, mod-eq_of_lt,
}
use native.Mathlib.Numerals.{add-one}
use native.Mathlib.Decide.{dec_lt}
use zyrnix.SignalSafe.{slice, copy_in}

-- The `n` bytes from the position `pos` on, going round at `size`.
abbrev pub window : Text → ℕ → ℕ → ℕ → Text
window buf size pos zero = []
window buf size pos (suc n) = get_or buf (pos % size) 0 ∷ window buf size (pos + 1) n

-- Two positions less than `size` apart do not share a cell.
pub mod-ne : (q p size : ℕ) → q < p → p < q + size → q % size ≢ p % size
mod-ne q p size h k e = elim (dec_lt (q / size) (p / size)) [
  | yes d ↦ omega (
    arith,
    div-add-mod q size,
    div-add-mod p size,
    mul-le-mul_left {m = q / size + 1} {n = p / size} size (omega arith),
  )
  | no d ↦ omega (
    arith,
    div-add-mod q size,
    div-add-mod p size,
    mul-le-mul_left {m = p / size} {n = q / size} size (omega arith),
  )
]

mod_suc : (p size : ℕ) → p % size + 1 < size → (p + 1) % size ≡ p % size + 1
mod_suc p size h = sym (mod-add-mod p size 1) ∙ mod-eq_of_lt h

pub window-append :
    (buf : Text) (size pos m n : ℕ)
    → window buf size pos (m + n) ≡ window buf size pos m ++ window buf size (pos + m) n
window-append buf size pos zero n = rw (add-zero, zero-add)
window-append buf size pos (suc m) n =
    let e : suc m + n ≡ suc (m + n) = omega arith in
    let shift : pos + suc m ≡ pos + 1 + m = omega arith in
    rw (e, shift) (ap (◌∷◌ (get_or buf (pos % size) 0)) (window-append buf size (pos + 1) m n))

window_snoc :
    (buf : Text) (size pos n : ℕ)
    → window buf size pos (n + 1) ≡ window buf size pos n ++ get_or buf ((pos + n) % size) 0 ∷ []
window_snoc buf size pos n = window-append buf size pos n 1

-- A write behind the window's last position leaves the window alone.
window-set :
    (buf : Text) (size pos n p b : ℕ)
    → pos + n ≤ p
    → p < pos + size
    → window (set buf (p % size) b) size pos n ≡ window buf size pos n
window-set buf size pos zero p b h k = refl
window-set buf size pos (suc n) p b h k = ground (
  arith,
  get_or-set_ne buf (p % size) (pos % size) b 0,
  mod-ne pos p size,
  window-set buf size (pos + 1) n p b,
)

pub length-copy_in :
    (buf : Text) (size pos : ℕ) (bytes : Text) → length (copy_in buf size pos bytes) ≡ length buf
unfolding copy_in
length-copy_in buf size pos [] = refl
length-copy_in buf size pos (b ∷ bs) =
    length-copy_in (set buf (pos % size) b) size (add_word pos 1) bs ∙ length-set buf (pos % size) b

slice-cons :
    (buf : Text) (i n : ℕ)
    → i < length buf
    → slice buf i (suc n) ≡ get_or buf i 0 ∷ slice buf (i + 1) n
unfolding slice
slice-cons [] i n h = elim h [ ]
slice-cons (x ∷ xs) zero n h = refl
slice-cons (x ∷ xs) (suc i) n h = rw add-one (slice-cons xs i n (omega arith) ∙ (rw add-one))

-- Within one lap of the ring the window is a stretch of the buffer.
pub slice-window :
    (buf : Text) (size pos n : ℕ)
    → pos % size + n ≤ size
    → size ≤ length buf
    → slice buf (pos % size) n ≡ window buf size pos n
unfolding slice
slice-window buf size pos zero h k = refl
slice-window buf size pos (suc zero) h k = slice-cons buf (pos % size) 0 (omega arith)
slice-window buf size pos (suc (suc n)) h k =
    let e = mod_suc pos size (omega arith) in
    slice-cons buf (pos % size) (suc n) (omega arith)
    ∙ ap (◌∷◌ (get_or buf (pos % size) 0))
        (rw (← e) (slice-window buf size (pos + 1) (suc n) (rw e (omega arith)) k))

window_stored :
    (buf : Text) (size pos n b : ℕ)
    → size ≤ length buf
    → n < size
    → window (set buf ((pos + n) % size) b) size pos (n + 1) ≡ window buf size pos n ++ b ∷ []
window_stored buf size pos n b h k =
    window_snoc (set buf ((pos + n) % size) b) size pos n
    ∙ rw (
      window-set buf size pos n (pos + n) b (omega arith) (omega arith),
      get_or-set_self buf ((pos + n) % size) b 0
          (omega (arith, mod-lt (pos + n) {m = size} (omega arith))),
    )

-- The window after a copy of as many bytes as there is room for.
pub window-copy_in :
    (buf : Text) (size pos n : ℕ) (bytes : Text)
    → size ≤ length buf
    → n + length bytes ≤ size
    → pos + n + length bytes < word_mod
    → window (copy_in buf size (pos + n) bytes) size pos (n + length bytes)
      ≡ window buf size pos n ++ bytes
unfolding copy_in
window-copy_in buf size pos n [] h k w = rw add-zero (sym (append-nil _))
window-copy_in buf size pos n (b ∷ bs) h k w =
    let cell : ℕ = (pos + n) % size in
    let buf' : Text = set buf cell b in
    let next : add_word (pos + n) 1 ≡ pos + (n + 1) = omega arith in
    let count : n + suc (length bs) ≡ n + 1 + length bs = omega arith in
    let long : length buf' ≡ length buf = length-set buf cell b in
    rw (next, count)
      (window-copy_in buf' size pos (n + 1) bs (omega arith) (omega arith) (omega arith)
        ∙ ap (λ t. t ++ bs) (window_stored buf size pos n b h (omega arith))
        ∙ append_assoc (window buf size pos n) (b ∷ []) bs)
