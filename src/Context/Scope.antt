-- ===== src/Context/Scope.antt =====
-- What a scoped context leaves behind when it ends.
use zyrnix.Prelude.{
  Bool, true, false, ◌||◌, ◌&&◌, not, none, some, List, [], ◌∷◌, ◌++◌, ◌≡◌, ◌⊎◌, inl, refl, arith,
  if◌then◌else◌, Text, text_eq, text_eq_iff, lookup, erase, lookup-insert, lookup-erase, any,
}
use zyrnix.Context.{
  ContextMap, Scoped, enter, scoped_set, scoped_remove, erase_first, remove_all, leave,
}

-- What is done through the object while it lives.
pub data Use : Type 0 where
  sets : Text → Text → Use
  removes : Text → Use

unfoldable pub apply : Use → Scoped → Scoped
apply (sets key value) s = scoped_set key value s
apply (removes key) s = scoped_remove key s

unfoldable pub apply_all : List Use → Scoped → Scoped
apply_all [] s = s
apply_all (u ∷ us) s = apply_all us (apply u s)

abbrev pub listed : Text → List Text → Bool
listed key = any (λ k. text_eq k key)

-- Whether a use names a key.
abbrev pub names : Text → Use → Bool
names key (sets k v) = text_eq k key
names key (removes k) = text_eq k key

-- The destructor removes the listed keys and no other.
lookup-remove_all :
    (key : Text) (keys : List Text) (c : ContextMap)
    → lookup key (remove_all keys c) ≡ (if listed key keys then none else lookup key c)
unfolding remove_all
lookup-remove_all key [] c = refl
lookup-remove_all key (k ∷ ks) c =
    ground (arith, lookup-remove_all key ks (erase k c), lookup-erase key k c)

listed-append :
    (key : Text) (keys : List Text) (k : Text)
    → listed key (keys ++ k ∷ []) ≡ (listed key keys || text_eq k key)
listed-append key [] k = ground arith
listed-append key (j ∷ keys) k = ground (arith, listed-append key keys k)

listed-erase_first :
    (key k : Text) (keys : List Text)
    → text_eq k key ≡ false
    → listed key (erase_first k keys) ≡ listed key keys
unfolding erase_first
listed-erase_first key k [] h = refl
listed-erase_first key k (j ∷ keys) h =
    ground (arith, listed-erase_first key k keys h, text_eq_iff j k)

-- A key that has a value now was listed when it got one.
abbrev IsTracked : Text → Scoped → Type 0
IsTracked key s = (lookup key s.context ≡ none) ⊎ (listed key s.scoped_keys ≡ true)

apply-IsTracked : (key : Text) (u : Use) (s : Scoped) → IsTracked key s → IsTracked key (apply u s)
unfolding apply scoped_set scoped_remove
apply-IsTracked key (sets k v) s h =
    ground
      (arith, lookup-insert key k v s.context, listed-append key s.scoped_keys k, text_eq_iff k key)
apply-IsTracked key (removes k) s h =
    ground (arith, lookup-erase key k s.context, listed-erase_first key k s.scoped_keys)

apply_all-IsTracked :
    (key : Text) (us : List Use) (s : Scoped) → IsTracked key s → IsTracked key (apply_all us s)
unfolding apply_all
apply_all-IsTracked key [] s h = h
apply_all-IsTracked key (u ∷ us) s h =
    apply_all-IsTracked key us (apply u s) (apply-IsTracked key u s h)

-- A key that had no value when the scope began has none when it ends, whatever was set and removed
-- through the scope.
pub leave-absent :
    (key : Text) (us : List Use) (c : ContextMap)
    → lookup key c ≡ none
    → lookup key (leave (apply_all us (enter c))) ≡ none
unfolding leave enter
leave-absent key us c h =
    let s = apply_all us (enter c) in
    ground (
      arith,
      lookup-remove_all key s.scoped_keys s.context,
      apply_all-IsTracked key us (enter c) (inl h),
    )

-- The value that a key has after the uses, if none of them removes it.
unfoldable pub latest : Text → List Use → Text → Text
latest key [] v = v
latest key (sets k w ∷ us) v = latest key us (if text_eq k key then w else v)
latest key (removes k ∷ us) v = latest key us v

abbrev pub never_removes : Text → List Use → Bool
never_removes key [] = true
never_removes key (sets k v ∷ us) = never_removes key us
never_removes key (removes k ∷ us) = not (text_eq k key) && never_removes key us

-- The key has the value, and the destructor will leave it.
record IsKept (key v : Text) (s : Scoped) : Type 0 where
  value : lookup key s.context ≡ some v
  unlisted : listed key s.scoped_keys ≡ false

sets-IsKept :
    (key v k w : Text) (s : Scoped)
    → IsKept key v s
    → IsKept key (if text_eq k key then w else v) (scoped_set k w s)
unfolding scoped_set
sets-IsKept key v k w s h =
    ground
      (arith, lookup-insert key k w s.context, listed-append key s.scoped_keys k, text_eq_iff k key)

removes-IsKept :
    (key v k : Text) (s : Scoped)
    → text_eq k key ≡ false
    → IsKept key v s
    → IsKept key v (scoped_remove k s)
unfolding scoped_remove
removes-IsKept key v k s e h =
    ground (arith, lookup-erase key k s.context, listed-erase_first key k s.scoped_keys)

apply_all-IsKept :
    (key v : Text) (us : List Use) (s : Scoped)
    → never_removes key us ≡ true
    → IsKept key v s
    → IsKept key (latest key us v) (apply_all us s)
unfolding apply_all apply latest
apply_all-IsKept key v [] s n h = h
apply_all-IsKept key v (sets k w ∷ us) s n h =
    apply_all-IsKept key (if text_eq k key then w else v) us (scoped_set k w s) n
      (sets-IsKept key v k w s h)
apply_all-IsKept key v (removes k ∷ us) s n h =
    apply_all-IsKept key v us (scoped_remove k s) (ground arith)
      (removes-IsKept key v k s (ground arith) h)

-- A key that had a value when the scope began and was not removed through the scope still has one
-- when the scope ends: the value that was set last through the scope, if there was one. A value
-- that the scope overwrote is not brought back.
pub leave-present :
    (key v : Text) (us : List Use) (c : ContextMap)
    → lookup key c ≡ some v
    → never_removes key us ≡ true
    → lookup key (leave (apply_all us (enter c))) ≡ some (latest key us v)
unfolding leave enter
leave-present key v us c h n =
    let s = apply_all us (enter c) in
    ground (
      arith,
      lookup-remove_all key s.scoped_keys s.context,
      apply_all-IsKept key v us (enter c) n (record { value = h; unlisted = refl }),
    )
