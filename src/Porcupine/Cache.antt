-- ===== src/Porcupine/Cache.antt =====
-- src/porcupine/checker.go: the cache of checkSingle, from hashes to the entries with this hash. `eq`
-- stands for the model's Equal.
use mit_distributed_systems.Prelude.{
  ◌≡◌, ap, List, [], ◌∷◌, ◌++◌, Bool, true, false, ◌&&◌, ◌||◌, if◌then◌else◌, arith,
}
use mit_distributed_systems.Porcupine.Bitset.{hash, equals, word_eq}
use mit_distributed_systems.Porcupine.Bits.{equals_iff, word_eq_iff}

pub record CacheEntry (S : Type 0) : Type 0 where
  pub linearized : List (List Bool)
  pub state : S

module _ {S : Type 0} where
  -- `cache[hash] = append(cache[hash], newCacheEntry)`.
  unfoldable pub cache_add :
      (List Bool → List (CacheEntry S)) → CacheEntry S → List Bool → List (CacheEntry S)
  cache_add cache entry h =
      if word_eq h (hash entry.linearized) then cache h ++ entry ∷ [] else cache h

module _ {S : Type 0} (eq : S → S → Bool) where
  abbrev pub same_entry : CacheEntry S → CacheEntry S → Bool
  same_entry entry elem = equals entry.linearized elem.linearized && eq entry.state elem.state

  abbrev pub any_same : List (CacheEntry S) → CacheEntry S → Bool
  any_same [] entry = false
  any_same (elem ∷ elems) entry = if same_entry entry elem then true else any_same elems entry

  unfoldable pub cache_contains : (List Bool → List (CacheEntry S)) → CacheEntry S → Bool
  cache_contains cache entry = any_same (cache (hash entry.linearized)) entry

  any_same-append :
      (elems : List (CacheEntry S)) (new entry : CacheEntry S)
      → any_same (elems ++ new ∷ []) entry ≡ (any_same elems entry || same_entry entry new)
  any_same-append [] new entry = ground arith
  any_same-append (elem ∷ elems) new entry = ground (arith, any_same-append elems new entry)

  -- After an entry is added to the cache, an entry is found exactly if it was before or is the same as
  -- the added one, whatever their hashes are.
  pub cache_contains-cache_add :
      (cache : List Bool → List (CacheEntry S)) (new entry : CacheEntry S)
      → cache_contains (cache_add cache new) entry
        ≡ (cache_contains cache entry || same_entry entry new)
  unfolding cache_contains cache_add
  cache_contains-cache_add cache new entry =
      let hashes = ap hash {x = entry.linearized} {y = new.linearized} in
      ground (
        arith,
        equals_iff entry.linearized new.linearized,
        word_eq_iff (hash entry.linearized) (hash new.linearized),
        hashes,
        any_same-append (cache (hash entry.linearized)) new entry,
      )
