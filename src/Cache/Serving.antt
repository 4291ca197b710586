-- ===== src/Cache/Serving.antt =====
-- What the collection cache serves, and what it never does.
use ai_kubernetes_troublesho.Prelude.{
  ℕ, suc, ◌+◌, ◌-◌, ◌≤◌, ◌≡◌, refl, ap, ◌∙◌, String, true, false, Option, none, some, [], ◌∷◌,
  arith, ltb, leb, string_eq, Bool-cases, inl, inr,
}
use ai_kubernetes_troublesho.Prelude.Dict.{Dict, get, put, get-put_self}
use ai_kubernetes_troublesho.Cache.{
  CacheEntry, CollectionCache, ProviderResult, is_enabled, drop, found, lookup, trim, insert, store,
  entry_of, encoded,
}

module _ {J : Type 0} where
  get-trim :
      (key : String) (limit : ℕ) (entries : Dict String (CacheEntry J)) (bytes evictions : ℕ)
      → get key (trim key limit entries bytes evictions).0 ≡ get key entries
  unfolding get trim
  get-trim key limit [] bytes evictions = refl
  get-trim key limit ((other, e) ∷ entries) bytes evictions =
      ground (arith, get-trim key limit entries (bytes - e.size) (suc evictions))

  get-insert :
      (key : String) (entry : CacheEntry J) (cache : CollectionCache J)
      → get key (insert key entry cache).entries ≡ some entry
  unfolding insert
  get-insert key entry cache =
      let dropped = drop key cache in
      get-trim key cache.max_bytes (put key entry dropped.entries) (dropped.bytes + entry.size)
        cache.evictions
      ∙ get-put_self key entry dropped.entries

  served :
      (key : String) (now : ℕ) (row : Option (CacheEntry J)) (entry : CacheEntry J)
      (cache : CollectionCache J)
      → row ≡ some entry
      → now ≤ entry.stored_at + cache.ttl
      → (found key now row cache).0 ≡ some entry
  served key now none entry cache e le = ground arith
  served key now (some row) entry cache e le = ground arith

  lookup-insert :
      (key : String) (entry : CacheEntry J) (now : ℕ) (cache : CollectionCache J)
      → is_enabled cache ≡ true
      → now ≤ entry.stored_at + cache.ttl
      → (lookup key now (insert key entry cache)).0 ≡ some entry
  unfolding lookup insert
  lookup-insert key entry now cache on le =
      let inserted = insert key entry cache in
      rw on
        (served key now (get key inserted.entries) entry inserted (get-insert key entry cache) le)

  store-insert :
      (dumps : J → Option String) (key : String) (result : ProviderResult J) (truncation : Option J)
      (payload : Option String) (fetched_at stored_at : ℕ) (cache : CollectionCache J)
      → is_enabled cache ≡ true
      → result.success ≡ true
      → result.not_found ≡ false
      → encoded dumps result.payload ≡ some payload
      → (entry_of payload result truncation fetched_at stored_at).size ≤ cache.max_bytes
      → store dumps key result truncation fetched_at stored_at cache
        ≡ insert key (entry_of payload result truncation fetched_at stored_at) cache
  unfolding store
  store-insert dumps key result truncation payload fetched_at stored_at cache on done nf e fits =
      let size = (entry_of payload result truncation fetched_at stored_at).size in
      let small : ltb cache.max_bytes size ≡ false = ground arith in
      rw (on, done, nf, e, small) refl

  -- A successful read that was just stored, and fits, is served as it was stored until its time to
  -- live is over, whatever had to be dropped for it.
  pub lookup-store :
      (dumps : J → Option String) (key : String) (result : ProviderResult J) (truncation : Option J)
      (payload : Option String) (fetched_at stored_at now : ℕ) (cache : CollectionCache J)
      → is_enabled cache ≡ true
      → result.success ≡ true
      → result.not_found ≡ false
      → encoded dumps result.payload ≡ some payload
      → (entry_of payload result truncation fetched_at stored_at).size ≤ cache.max_bytes
      → now ≤ stored_at + cache.ttl
      → (lookup key now (store dumps key result truncation fetched_at stored_at cache)).0
        ≡ some (entry_of payload result truncation fetched_at stored_at)
  lookup-store dumps key result truncation payload fetched_at stored_at now cache on done nf e fits
        le =
      let entry = entry_of payload result truncation fetched_at stored_at in
      ap (λ c. (lookup key now c).0)
        (store-insert dumps key result truncation payload fetched_at stored_at cache on done nf e
          fits)
      ∙ lookup-insert key entry now cache on le

  abbrev stored_of : Option (CacheEntry J) → ℕ
  stored_of none = 0
  stored_of (some entry) = entry.stored_at

  fresh_row :
      (key : String) (now : ℕ) (row : Option (CacheEntry J)) (entry : CacheEntry J)
      (cache : CollectionCache J)
      → (found key now row cache).0 ≡ some entry
      → (row ≡ some entry) × (leb now (entry.stored_at + cache.ttl) ≡ true)
  fresh_row key now none entry cache e = ground arith
  fresh_row key now (some row) entry cache e =
      elim (Bool-cases (ltb (row.stored_at + cache.ttl) now)) [
        | inl p ↦ absurd (ground arith)
        | inr p ↦
            let same : some row ≡ some entry = rw p at e in
            (same, ground (arith, ap stored_of same))
      ]

  -- What the cache serves is an entry that it holds under the key, and not past its time to live.
  pub lookup-fresh :
      (key : String) (now : ℕ) (entry : CacheEntry J) (cache : CollectionCache J)
      → (lookup key now cache).0 ≡ some entry
      → (get key cache.entries ≡ some entry) × (leb now (entry.stored_at + cache.ttl) ≡ true)
  unfolding lookup
  lookup-fresh key now entry cache e = elim (Bool-cases (is_enabled cache)) [
    | inl p ↦
        let hit : (found key now (get key cache.entries) cache).0 ≡ some entry = rw p at e in
        fresh_row key now (get key cache.entries) entry cache hit
    | inr p ↦ absurd (ground arith)
  ]
