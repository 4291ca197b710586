-- ===== src/Cache/Bounds.antt =====
-- The byte bound of the collection cache, and what it serves.
use ai_kubernetes_troublesho.Prelude.{
  ℕ, suc, ◌+◌, ◌-◌, ◌≤◌, ◌≡◌, ◌≢◌, refl, ap, String, not, ◌&&◌, Option, none, some, List, [], ◌∷◌,
  arith, ltb, ◌==◌, string_eq, eq_iff, Bool-cases, ==_refl, inl, inr, ◌⊎◌,
}
use ai_kubernetes_troublesho.Prelude.Dict.{
  Dict, get, put, remove, get-remove, Unique, put-Unique, remove-Unique,
}
use ai_kubernetes_troublesho.Cache.{
  CacheEntry, CollectionCache, ProviderResult, is_enabled, size_of, drop, found, lookup, trim,
  insert, store_encoded, encoded, store, clear, entry_of,
}

module _ {J : Type 0} where
  -- what the entries take together
  abbrev pub total : Dict String (CacheEntry J) → ℕ
  total [] = 0
  total ((key, entry) ∷ entries) = entry.size + total entries

  total-put :
      (key : String) (entry : CacheEntry J) (entries : Dict String (CacheEntry J))
      → get key entries ≡ none
      → total (put key entry entries) ≡ total entries + entry.size
  unfolding get put
  total-put key entry [] h = omega arith
  total-put key entry ((other, e) ∷ entries) h = ground (arith, total-put key entry entries)

  total-remove_absent :
      (key : String) (entries : Dict String (CacheEntry J))
      → get key entries ≡ none
      → total (remove key entries) ≡ total entries
  unfolding get remove
  total-remove_absent key [] h = refl
  total-remove_absent key ((other, e) ∷ entries) h = ground (arith, total-remove_absent key entries)

  total-remove :
      (key : String) (entries : Dict String (CacheEntry J))
      → Unique entries
      → total (remove key entries) + size_of (get key entries) ≡ total entries
  unfolding get remove
  total-remove key [] u = refl
  total-remove key ((other, e) ∷ entries) u =
      ground
        (arith, eq_iff other key, total-remove_absent key entries, total-remove key entries u.1)

  -- The entry of `key` is the newest and fits.
  abbrev EndsWith : String → ℕ → Dict String (CacheEntry J) → Type 0
  EndsWith key limit [] = ⊥
  EndsWith key limit ((other, e) ∷ entries) =
      ((other ≡ key) × (e.size ≤ limit) × (entries ≡ []))
      ⊎ ((other ≢ key) × EndsWith key limit entries)

  put-EndsWith :
      (key : String) (limit : ℕ) (entry : CacheEntry J) (entries : Dict String (CacheEntry J))
      → get key entries ≡ none
      → entry.size ≤ limit
      → EndsWith key limit (put key entry entries)
  unfolding get put
  put-EndsWith key limit entry [] h le = inl (refl, le, refl)
  put-EndsWith key limit entry ((other, e) ∷ entries) h le = elim (Bool-cases (other == key)) [
    | inl p ↦ absurd (ground arith)
    | inr p ↦ rw p (
        inr (ground (arith, eq_iff other key), put-EndsWith key limit entry entries (rw p at h) le))
  ]

  -- What the loop leaves: the count of bytes is right, and it is within the bound.
  abbrev IsTrimmed : ℕ → Dict String (CacheEntry J) × ℕ × ℕ → Type 0
  IsTrimmed limit (entries, bytes, evictions) = (bytes ≡ total entries) × (bytes ≤ limit)

  trim-IsTrimmed :
      (key : String) (limit : ℕ) (entries : Dict String (CacheEntry J)) (bytes evictions : ℕ)
      → EndsWith key limit entries
      → bytes ≡ total entries
      → IsTrimmed limit (trim key limit entries bytes evictions)
  unfolding trim
  trim-IsTrimmed key limit [] bytes evictions h b = absurd h
  trim-IsTrimmed key limit ((other, e) ∷ entries) bytes evictions (inl (p, le, n)) b =
      ground (arith, eq_iff other key, ap total n)
  trim-IsTrimmed key limit ((other, e) ∷ entries) bytes evictions (inr (p, rest)) b = ground (
    arith,
    eq_iff other key,
    trim-IsTrimmed key limit entries (bytes - e.size) (suc evictions) rest (omega (arith, b)),
  )

  -- The count of bytes is what the entries take, no more than the bound, and no key stands twice.
  abbrev pub IsBounded : CollectionCache J → Type 0
  IsBounded cache =
      (cache.bytes ≡ total cache.entries) × (cache.bytes ≤ cache.max_bytes) × Unique cache.entries

  trim-Unique :
      (key : String) (limit : ℕ) (entries : Dict String (CacheEntry J)) (bytes evictions : ℕ)
      → Unique entries
      → Unique (trim key limit entries bytes evictions).0
  unfolding trim
  trim-Unique key limit [] bytes evictions u = tt
  trim-Unique key limit ((other, e) ∷ entries) bytes evictions u =
      ground (arith, trim-Unique key limit entries (bytes - e.size) (suc evictions) u.1)

  pub absent :
      (key : String) (entries : Dict String (CacheEntry J)) → get key (remove key entries) ≡ none
  absent key entries = rw (get-remove, ==_refl key) refl

  drop-IsBounded :
      (key : String) (cache : CollectionCache J) → IsBounded cache → IsBounded (drop key cache)
  drop-IsBounded key cache (b, le, u) = (
    omega (arith, total-remove key cache.entries u),
    omega arith,
    remove-Unique key cache.entries u,
  )

  insert-IsBounded :
      (key : String) (entry : CacheEntry J) (cache : CollectionCache J)
      → entry.size ≤ cache.max_bytes
      → IsBounded cache
      → IsBounded (insert key entry cache)
  unfolding insert
  insert-IsBounded key entry cache fits h =
      let dropped = drop key cache in
      let kept = drop-IsBounded key cache h in
      let gone = absent key cache.entries in
      let entries = put key entry dropped.entries in
      let bytes = dropped.bytes + entry.size in
      let b : bytes ≡ total entries =
        omega (arith, kept.0, total-put key entry dropped.entries gone) in
      let trimmed =
        trim-IsTrimmed key cache.max_bytes entries bytes cache.evictions
          (put-EndsWith key cache.max_bytes entry dropped.entries gone fits) b in
      (
        trimmed.0,
        trimmed.1,
        trim-Unique key cache.max_bytes entries bytes cache.evictions
            (put-Unique key entry dropped.entries kept.2),
      )

  store_encoded-IsBounded :
      (key : String) (payload : Option (Option String)) (result : ProviderResult J)
      (truncation : Option J) (fetched_at stored_at : ℕ) (cache : CollectionCache J)
      → IsBounded cache
      → IsBounded (store_encoded key payload result truncation fetched_at stored_at cache)
  store_encoded-IsBounded key none result truncation fetched_at stored_at cache h = h
  store_encoded-IsBounded key (some payload) result truncation fetched_at stored_at cache h =
      let entry = entry_of payload result truncation fetched_at stored_at in
      elim (Bool-cases (ltb cache.max_bytes entry.size)) [
        | inl e ↦ rw e h
        | inr e ↦ rw e (insert-IsBounded key entry cache (ground arith) h)
      ]

  found-IsBounded :
      (key : String) (now : ℕ) (entry : Option (CacheEntry J)) (cache : CollectionCache J)
      → get key cache.entries ≡ entry
      → IsBounded cache
      → IsBounded (found key now entry cache).1
  found-IsBounded key now none cache e h = h
  found-IsBounded key now (some entry) cache e h =
      elim (Bool-cases (ltb (entry.stored_at + cache.ttl) now)) [
        | inl p ↦ rw p (drop-IsBounded key cache h)
        | inr p ↦
            let gone = absent key cache.entries in
            rw p (
              omega (
                arith,
                h.0,
                total-remove key cache.entries h.2,
                total-put key entry (remove key cache.entries) gone,
                ap size_of e,
              ),
              h.1,
              put-Unique key entry (remove key cache.entries) (remove-Unique key cache.entries h.2),
            )
      ]

-- the operations of the cache with their arguments
pub data Op (J : Type 0) : Type 0 where
  reads : String → ℕ → Op J
  writes : String → ProviderResult J → Option J → ℕ → ℕ → Op J
  clears : Op J

abbrev pub new_cache : {J : Type 0} → ℕ → ℕ → CollectionCache J
new_cache ttl max_bytes = record {
  ttl = ttl;
  max_bytes = max_bytes;
  entries = [];
  bytes = 0;
  hits = 0;
  misses = 0;
  evictions = 0;
}

module _ {J : Type 0} (dumps : J → Option String) where
  abbrev pub apply : Op J → CollectionCache J → CollectionCache J
  apply (Op.reads key now) cache = (lookup key now cache).1
  apply (Op.writes key result truncation fetched_at stored_at) cache =
      store dumps key result truncation fetched_at stored_at cache
  apply Op.clears cache = clear cache

  unfoldable pub run : List (Op J) → CollectionCache J → CollectionCache J
  run [] cache = cache
  run (op ∷ ops) cache = run ops (apply op cache)

  lookup-IsBounded :
      (key : String) (now : ℕ) (cache : CollectionCache J)
      → IsBounded cache
      → IsBounded (lookup key now cache).1
  unfolding lookup
  lookup-IsBounded key now cache h = elim (Bool-cases (is_enabled cache)) [
    | inl e ↦ rw (e, lookup) (found-IsBounded key now (get key cache.entries) cache refl h)
    | inr e ↦ rw (e, lookup) h
  ]

  store-IsBounded :
      (key : String) (result : ProviderResult J) (truncation : Option J) (fetched_at stored_at : ℕ)
      (cache : CollectionCache J)
      → IsBounded cache
      → IsBounded (store dumps key result truncation fetched_at stored_at cache)
  unfolding store
  store-IsBounded key result truncation fetched_at stored_at cache h =
      let wanted = is_enabled cache && (result.success && not result.not_found) in
      elim (Bool-cases wanted) [
        | inl e ↦
            rw (e, store)
              (store_encoded-IsBounded key (encoded dumps result.payload) result truncation
                fetched_at stored_at cache h)
        | inr e ↦ rw (e, store) h
      ]

  apply-IsBounded :
      (op : Op J) (cache : CollectionCache J) → IsBounded cache → IsBounded (apply op cache)
  unfolding lookup store clear
  apply-IsBounded (Op.reads key now) cache h = lookup-IsBounded key now cache h
  apply-IsBounded (Op.writes key result truncation fetched_at stored_at) cache h =
      store-IsBounded key result truncation fetched_at stored_at cache h
  apply-IsBounded Op.clears cache h = (refl, omega arith, tt)

  run_from :
      (ops : List (Op J)) (cache : CollectionCache J) → IsBounded cache → IsBounded (run ops cache)
  unfolding run
  run_from [] cache h = h
  run_from (op ∷ ops) cache h = run_from ops (apply op cache) (apply-IsBounded op cache h)

  -- However a new cache is used, its count of bytes is what its entries take together, that is no
  -- more than its bound, and no key stands twice in it.
  pub run-IsBounded :
      (ops : List (Op J)) (ttl max_bytes : ℕ) → IsBounded (run ops (new_cache ttl max_bytes))
  run-IsBounded ops ttl max_bytes = run_from ops (new_cache ttl max_bytes) (refl, omega arith, tt)
