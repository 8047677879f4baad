-- ===== src/Context.antt =====
-- src/log_context.cpp and include/Zyrnix/log_context.hpp. The map of the calling thread is passed
-- in and out; a scoped context is the list of the keys that it added, with that map.
pub mod Scope
mod Tests
use zyrnix.Prelude.{
  ℕ, Bool, true, false, Option, none, some, List, [], ◌∷◌, ◌++◌, if◌then◌else◌, Text, text_eq, Dict,
  lookup, insert, erase,
}

-- `LogContext::ContextMap`; no property reads its order.
abbrev pub ContextMap : Type 0
ContextMap = Dict Text

unfoldable pub set : Text → Text → ContextMap → ContextMap
set = insert

unfoldable pub get : Text → ContextMap → Text
get key c = elim (lookup key c) [ none ↦ [] | some v ↦ v ]

unfoldable pub remove : Text → ContextMap → ContextMap
remove = erase

unfoldable pub clear : ContextMap → ContextMap
clear c = []

unfoldable pub contains : Text → ContextMap → Bool
contains key c = elim (lookup key c) [ none ↦ false | some v ↦ true ]

pub record Scoped : Type 0 where
  pub context : ContextMap
  pub scoped_keys : List Text

-- The default constructor.
unfoldable pub enter : ContextMap → Scoped
enter c = record { context = c; scoped_keys = [] }

-- `ScopedContext::set`.
unfoldable pub scoped_set : Text → Text → Scoped → Scoped
unfolding set contains
scoped_set key value s = record {
  context = set key value s.context;
  scoped_keys = if contains key s.context then s.scoped_keys else s.scoped_keys ++ key ∷ [];
}

-- The constructor from an initial context.
unfoldable pub enter_with : List (Text × Text) → Scoped → Scoped
enter_with [] s = s
enter_with ((key, value) ∷ kvs) s = enter_with kvs (scoped_set key value s)

-- `std::find` and the erasure of what it found.
unfoldable pub erase_first : Text → List Text → List Text
erase_first key [] = []
erase_first key (k ∷ ks) = let rest = erase_first key ks in if text_eq k key then ks else k ∷ rest

-- `ScopedContext::remove`.
unfoldable pub scoped_remove : Text → Scoped → Scoped
unfolding remove
scoped_remove key s = record {
  context = remove key s.context;
  scoped_keys = erase_first key s.scoped_keys;
}

-- The loop of the destructor.
unfoldable pub remove_all : List Text → ContextMap → ContextMap
unfolding remove
remove_all [] c = c
remove_all (key ∷ keys) c = remove_all keys (remove key c)

-- The destructor, and the map that it leaves.
unfoldable pub leave : Scoped → ContextMap
leave s = remove_all s.scoped_keys s.context
