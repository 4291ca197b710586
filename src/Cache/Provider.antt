-- ===== src/Cache/Provider.antt =====
-- backend/app/providers/cache.py: `CachingProvider`, which answers repeated reads from the cache. A
-- request (`Q`) and its key are abstract, and so is the provider that is wrapped: `inner` is what
-- it answers to a call, and `truncations` what it reports after it. `loads` and `dumps` are as in
-- the cache. The clocks are read once for a batch.
pub mod Transparent
mod Examples
use ai_kubernetes_troublesho.Prelude.{
  ℕ, suc, String, Bool, true, false, not, Option, none, some, List, [], ◌∷◌, ◌++◌, ltb, ◌==◌,
  string_eq, if◌then◌else◌,
}
use ai_kubernetes_troublesho.Cache.{
  FreshnessWindow, record_cached, record_live, ProviderResult, CacheEntry, CollectionCache, lookup,
  store, to_result,
}

pub record CachingProvider (J : Type 0) : Type 0 where
  pub cache : CollectionCache J
  pub hits : ℕ
  pub misses : ℕ
  pub oldest_served : Option ℕ
  pub cached_commands : List String
  pub cached_truncations : List J
  pub window : Option FreshnessWindow

-- The results by position, with nothing where the read is a miss.
abbrev pub Slots : Type 0 → Type 0
Slots J = List (Option (ProviderResult J))

abbrev earliest : Option ℕ → ℕ → Option ℕ
earliest none at = some at
earliest (some oldest) at = if ltb at oldest then some at else some oldest

abbrev seen_cached : ℕ → Option FreshnessWindow → Option FreshnessWindow
seen_cached at none = none
seen_cached at (some window) = some (record_cached at window)

abbrev seen_live : Option FreshnessWindow → Option FreshnessWindow
seen_live none = none
seen_live (some window) = some (record_live window)

module _ {J : Type 0} where
  abbrev with_truncation : Option J → List J → List J
  with_truncation none truncations = truncations
  with_truncation (some truncation) truncations = truncations ++ truncation ∷ []

  -- `_record_hit`
  unfoldable pub record_hit : CacheEntry J → CachingProvider J → CachingProvider J
  record_hit entry p = record p {
    hits = suc p.hits;
    window = seen_cached entry.fetched_at p.window;
    oldest_served = earliest p.oldest_served entry.fetched_at;
    cached_commands =
        if entry.equivalent_command == ""
        then p.cached_commands
        else p.cached_commands ++ entry.equivalent_command ∷ [];
    cached_truncations = with_truncation entry.truncation p.cached_truncations;
  }

  -- `_truncation_for`, `command_of` being what a truncation record says of its command
  abbrev first_for : (J → String) → String → List J → Option J
  first_for command_of command [] = none
  first_for command_of command (t ∷ rest) =
      let later = first_for command_of command rest in
      if command_of t == command then some t else later

  abbrev pub truncation_for : (J → String) → List J → ProviderResult J → Option J
  truncation_for command_of truncations result =
      if result.truncated then first_for command_of result.equivalent_command truncations else none

  -- the requests that are misses
  abbrev pub missed : {Q : Type 0} → Slots J → List Q → List Q
  missed [] requests = []
  missed (slot ∷ slots) [] = []
  missed (some result ∷ slots) (q ∷ requests) = missed slots requests
  missed (none ∷ slots) (q ∷ requests) = q ∷ missed slots requests

  abbrev pub fill : Slots J → List (ProviderResult J) → List (ProviderResult J)
  fill [] fetched = []
  fill (some result ∷ slots) fetched = result ∷ fill slots fetched
  fill (none ∷ slots) [] = fill slots []
  fill (none ∷ slots) (result ∷ fetched) = result ∷ fill slots fetched

  abbrev pub stored_all :
      Slots J
      → List (ProviderResult J)
      → Bool × CachingProvider J
      → Option (List (ProviderResult J)) × CachingProvider J
  stored_all slots fetched (complete, p) =
      ((if complete then some (fill slots fetched) else none), p)

  module _ {Q : Type 0} (key : Q → String) (loads : String → J) (dumps : J → Option String)
      (command_of : J → String) (read : Bool) (now fetched_at : ℕ) where
    abbrev pub cached_read : Q → CachingProvider J → Option (CacheEntry J) × CollectionCache J
    cached_read q p = if read then lookup (key q) now p.cache else (none, p.cache)

    abbrev pub answer_from :
        Option (CacheEntry J) → CachingProvider J → Option (ProviderResult J) × CachingProvider J
    answer_from none p = (none, p)
    answer_from (some entry) p = (some (to_result loads entry), record_hit entry p)

    -- the first loop: what is cached
    unfoldable pub serve : List Q → CachingProvider J → Slots J × CachingProvider J
    serve [] p = ([], p)
    serve (q ∷ requests) p =
        let (entry, cache) = cached_read q p in
        let (slot, served) = answer_from entry (record p { cache = cache }) in
        let (slots, last) = serve requests served in (slot ∷ slots, last)

    -- the second loop: what was fetched is counted and stored; false where the lengths differ,
    -- which Python refuses when it comes to the end of the shorter list
    unfoldable pub store_all :
        List J → List Q → List (ProviderResult J) → CachingProvider J → Bool × CachingProvider J
    store_all truncations [] [] p = (true, p)
    store_all truncations [] (result ∷ fetched) p = (false, p)
    store_all truncations (q ∷ asked) [] p = (false, p)
    store_all truncations (q ∷ asked) (result ∷ fetched) p =
        store_all truncations asked fetched record p {
          misses = suc p.misses;
          window = seen_live p.window;
          cache =
              store dumps (key q) result (truncation_for command_of truncations result) fetched_at
                now p.cache;
        }

    abbrev pub ask :
        (List Q → List (ProviderResult J))
        → List J
        → Slots J
        → List Q
        → CachingProvider J
        → Option (List (ProviderResult J)) × CachingProvider J
    ask inner truncations slots [] p = (some (fill slots []), p)
    ask inner truncations slots (q ∷ asked) p =
        let fetched = inner (q ∷ asked) in
        stored_all slots fetched (store_all truncations (q ∷ asked) fetched p)

    -- `fetch_many`: no results where the provider answers another number of reads than it was asked
    -- for
    unfoldable pub fetch_many :
        (List Q → List (ProviderResult J))
        → List J
        → List Q
        → CachingProvider J
        → Option (List (ProviderResult J)) × CachingProvider J
    fetch_many inner truncations requests p =
        let (slots, served) = serve requests p in
        ask inner truncations slots (missed slots requests) served
