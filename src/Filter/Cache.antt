-- ===== src/Filter/Cache.antt =====
-- When the cache shares a filter, and with which request.
use zyrnix.Prelude.{
  ℕ, Bool, true, none, some, List, [], ◌∷◌, ◌++◌, ◌≡◌, ◌≢◌, inl, inr, Option-cases, refl, arith,
  Text, codes, text_eq_refl, lookup, insert, lookup-insert, length, get_elem?, add_word,
  append_assoc,
}
use zyrnix.Filter.{
  RegexFilter, RegexFilterOptions, RegexFilterCache, make_regex, make_cache_key, allocate,
  cache_insert, create, get_or_create,
}

get_elem?-last {ℓ} :
    {A : Type ℓ} (xs : List A) (a : A) → get_elem? (xs ++ a ∷ []) (length xs) ≡ some a
get_elem?-last [] a = refl
get_elem?-last (x ∷ xs) a = get_elem?-last xs a

module _ (valid : Bool → Text → Bool) where
  make_regex-ok :
      (field pattern : Text) (o : RegexFilterOptions)
      → valid o.case_insensitive pattern ≡ true
      → (f : RegexFilter) × (make_regex valid field pattern o ≡ some f)
  unfolding make_regex
  make_regex-ok field pattern o h = elim (Option-cases (make_regex valid field pattern o)) [
    | inl e ↦ ground arith
    | inr (f, e) ↦ (f, e)
  ]

  create-ok :
      (c : RegexFilterCache) (field pattern : Text) (o : RegexFilterOptions) (f : RegexFilter)
      → make_regex valid field pattern o ≡ some f
      → create valid c field pattern o ≡ (
        record c {
          heap = c.heap ++ f ∷ [];
          cache = insert (make_cache_key pattern field o) (length c.heap) c.cache;
          cache_misses = add_word c.cache_misses 1;
        },
        some (length c.heap),
      )
  unfolding create cache_insert allocate
  create-ok c field pattern o f h = rw (h, create)

  create-throws :
      (c : RegexFilterCache) (field pattern : Text) (o : RegexFilterOptions)
      → make_regex valid field pattern o ≡ none
      → (a : ℕ) → (create valid c field pattern o).1 ≢ some a
  unfolding create
  create-throws c field pattern o h a e = ground arith

  -- A request that is not in the cache, for a pattern that compiles, puts one filter with that
  -- field, pattern and options and counters at zero behind the others on the heap, gives its
  -- address, stores it under the request's key and counts a miss.
  pub get_or_create-miss :
      (c : RegexFilterCache) (field pattern : Text) (o : RegexFilterOptions)
      → lookup (make_cache_key pattern field o) c.cache ≡ none
      → valid o.case_insensitive pattern ≡ true
      → let (d, result) = get_or_create valid c field pattern o in
        (result ≡ some (length c.heap))
        × (get_elem? d.heap (length c.heap) ≡ make_regex valid field pattern o)
        × (lookup (make_cache_key pattern field o) d.cache ≡ result)
        × (d.cache_misses ≡ add_word c.cache_misses 1)
        × (d.cache_hits ≡ c.cache_hits)
  unfolding get_or_create
  get_or_create-miss c field pattern o h ok =
      let (f, e) = make_regex-ok field pattern o ok in
      let key : Text = make_cache_key pattern field o in
      ground (
        arith,
        create-ok c field pattern o f e,
        get_elem?-last c.heap f,
        lookup-insert key key (length c.heap) c.cache,
        text_eq_refl key,
      )

  get_or_create-hit :
      (c : RegexFilterCache) (field pattern : Text) (o : RegexFilterOptions) (a : ℕ)
      → lookup (make_cache_key pattern field o) c.cache ≡ some a
      → get_or_create valid c field pattern o
        ≡ (record c { cache_hits = add_word c.cache_hits 1 }, some a)
  unfolding get_or_create
  get_or_create-hit c field pattern o a h = rw (h, get_or_create)

  create-stored :
      (c : RegexFilterCache) (field pattern : Text) (o : RegexFilterOptions) (a : ℕ)
      → (create valid c field pattern o).1 ≡ some a
      → lookup (make_cache_key pattern field o) (create valid c field pattern o).0.cache ≡ some a
  create-stored c field pattern o a h =
      let key : Text = make_cache_key pattern field o in
      elim (Option-cases (make_regex valid field pattern o)) [
        | inl e ↦ absurd (create-throws c field pattern o e a h)
        | inr (f, e) ↦ ground (
          arith,
          create-ok c field pattern o f e,
          lookup-insert key key (length c.heap) c.cache,
          text_eq_refl key,
        )
      ]

  get_or_create-stored :
      (c : RegexFilterCache) (field pattern : Text) (o : RegexFilterOptions) (a : ℕ)
      → (get_or_create valid c field pattern o).1 ≡ some a
      → lookup (make_cache_key pattern field o) (get_or_create valid c field pattern o).0.cache
        ≡ some a
  unfolding get_or_create
  get_or_create-stored c field pattern o a h = ground (arith, create-stored c field pattern o a)

  -- A request whose key is that of an earlier one, answered with an address, is answered with the
  -- same address, and counts a hit, whatever its own field, pattern and options.
  pub get_or_create-shared :
      (c : RegexFilterCache) (f g p q : Text) (o u : RegexFilterOptions) (a : ℕ)
      → (get_or_create valid c f p o).1 ≡ some a
      → make_cache_key p f o ≡ make_cache_key q g u
      → let d = (get_or_create valid c f p o).0 in
        get_or_create valid d g q u ≡ (record d { cache_hits = add_word d.cache_hits 1 }, some a)
  unfolding get_or_create
  get_or_create-shared c f g p q o u a h k =
      get_or_create-hit (get_or_create valid c f p o).0 g q u a
        (rw (← k) (get_or_create-stored c f p o a h))

-- The key forgets where the pattern ends and the field begins, and whether statistics are kept:
-- the text before a bar in the pattern with the bar and the rest moved to the field, and any choice
-- of `track_stats`, give the same key.
pub make_cache_key-collides :
    (p q f : Text) (o : RegexFilterOptions) (track : Bool)
    → make_cache_key (p ++ (codes "|" ++ q)) f o
      ≡ make_cache_key p (q ++ (codes "|" ++ f)) (record o { track_stats = track })
unfolding make_cache_key
make_cache_key-collides p q f o track = simp append_assoc
