-- ===== src/Cache.antt =====
-- backend/app/providers/cache.py: `CollectionCache` and `FreshnessWindow`. `J` is the type of JSON
-- payloads and `dumps` is `json.dumps`, which raises on what is not JSON (no text). `loads` is its
-- inverse. Times are milliseconds, of the wall clock (`fetched_at`) and of the monotonic clock
-- (`stored_at`). The lock makes each method one step.
pub mod Bounds
pub mod Serving
pub mod Provider
mod Examples
use Prim.Native.String.{count as char_count}
use ai_kubernetes_troublesho.Prelude.{
  ℕ, suc, ◌+◌, ◌-◌, String, Bool, true, false, not, ◌&&◌, ◌||◌, Option, none, some, List, [], ◌∷◌,
  ltb, leb, ◌==◌, string_eq, if◌then◌else◌,
}
use ai_kubernetes_troublesho.Prelude.Dict.{Dict, get, put, remove}

-- `FreshnessWindow`
pub record FreshnessWindow : Type 0 where
  pub oldest : Option ℕ
  pub hits : ℕ
  pub misses : ℕ

abbrev older : Option ℕ → ℕ → Option ℕ
older none at = some at
older (some oldest) at = if ltb at oldest then some at else some oldest

abbrev pub record_cached : ℕ → FreshnessWindow → FreshnessWindow
record_cached fetched_at window = record window {
  hits = suc window.hits;
  oldest = older window.oldest fetched_at;
}

abbrev pub record_live : FreshnessWindow → FreshnessWindow
record_live window = record window { misses = suc window.misses }

pub record ProviderResult (J : Type 0) : Type 0 where
  pub success : Bool
  pub payload : Option J
  pub text : String
  pub equivalent_command : String
  pub truncated : Bool
  pub total_items : ℕ
  pub not_found : Bool

pub record CacheEntry (J : Type 0) : Type 0 where
  pub payload : Option String
  pub text : String
  pub equivalent_command : String
  pub truncated : Bool
  pub total_items : ℕ
  pub truncation : Option J
  pub fetched_at : ℕ
  pub stored_at : ℕ
  pub size : ℕ

pub record CollectionCache (J : Type 0) : Type 0 where
  pub ttl : ℕ
  pub max_bytes : ℕ
  pub entries : Dict String (CacheEntry J)
  pub bytes : ℕ
  pub hits : ℕ
  pub misses : ℕ
  pub evictions : ℕ

abbrev pub is_enabled : {J : Type 0} → CollectionCache J → Bool
is_enabled cache = ltb 0 cache.ttl && ltb 0 cache.max_bytes

abbrev length_of : Option String → ℕ
length_of none = 0
length_of (some text) = char_count text

module _ {J : Type 0} where
  -- `_drop`
  abbrev pub size_of : Option (CacheEntry J) → ℕ
  size_of none = 0
  size_of (some entry) = entry.size

  abbrev pub drop : String → CollectionCache J → CollectionCache J
  drop key cache = record cache {
    entries = remove key cache.entries;
    bytes = cache.bytes - size_of (get key cache.entries);
  }

  -- `get` at the monotonic time `now`: a hit moves the entry to the end of the order
  abbrev pub miss : CollectionCache J → CollectionCache J
  miss cache = record cache { misses = suc cache.misses }

  abbrev pub found :
      String
      → ℕ
      → Option (CacheEntry J)
      → CollectionCache J
      → Option (CacheEntry J) × CollectionCache J
  found key now none cache = (none, miss cache)
  found key now (some entry) cache =
      if ltb (entry.stored_at + cache.ttl) now then (none, miss (drop key cache)) else (
        some entry,
        record cache { entries = put key entry (remove key cache.entries); hits = suc cache.hits },
      )

  unfoldable pub lookup : String → ℕ → CollectionCache J → Option (CacheEntry J) × CollectionCache J
  lookup key now cache =
      if is_enabled cache then found key now (get key cache.entries) cache else (none, cache)

  -- the `while` loop of `put`: the entries, the bytes and the evictions after it
  unfoldable pub trim :
      String → ℕ → Dict String (CacheEntry J) → ℕ → ℕ → Dict String (CacheEntry J) × ℕ × ℕ
  trim key max_bytes [] bytes evictions = ([], bytes, evictions)
  trim key max_bytes ((oldest, entry) ∷ entries) bytes evictions =
      let rest = trim key max_bytes entries (bytes - entry.size) (suc evictions) in
      if ltb max_bytes bytes && not (oldest == key)
      then rest
      else ((oldest, entry) ∷ entries, bytes, evictions)

  unfoldable pub insert : String → CacheEntry J → CollectionCache J → CollectionCache J
  insert key entry cache =
      let dropped = drop key cache in
      let (entries, bytes, evictions) =
        trim key cache.max_bytes (put key entry dropped.entries) (dropped.bytes + entry.size)
          cache.evictions in
      record cache { entries = entries; bytes = bytes; evictions = evictions }

  -- `json.dumps(result.data)`, where there is data
  abbrev pub encoded : (J → Option String) → Option J → Option (Option String)
  encoded dumps none = some none
  encoded dumps (some value) = elim (dumps value) [ none ↦ none | some text ↦ some (some text) ]

  abbrev pub entry_of : Option String → ProviderResult J → Option J → ℕ → ℕ → CacheEntry J
  entry_of payload result truncation fetched_at stored_at = record {
    payload = payload;
    text = result.text;
    equivalent_command = result.equivalent_command;
    truncated = result.truncated;
    total_items = result.total_items;
    truncation = truncation;
    fetched_at = fetched_at;
    stored_at = stored_at;
    size = length_of payload + char_count result.text;
  }

  abbrev pub store_entry : String → CacheEntry J → CollectionCache J → CollectionCache J
  store_entry key entry cache =
      if ltb cache.max_bytes entry.size then cache else insert key entry cache

  abbrev pub store_encoded :
      String
      → Option (Option String)
      → ProviderResult J
      → Option J
      → ℕ
      → ℕ
      → CollectionCache J
      → CollectionCache J
  store_encoded key none result truncation fetched_at stored_at cache = cache
  store_encoded key (some payload) result truncation fetched_at stored_at cache =
      store_entry key (entry_of payload result truncation fetched_at stored_at) cache

  -- `put`
  unfoldable pub store :
      (J → Option String)
      → String
      → ProviderResult J
      → Option J
      → ℕ
      → ℕ
      → CollectionCache J
      → CollectionCache J
  store dumps key result truncation fetched_at stored_at cache =
      if is_enabled cache && (result.success && not result.not_found)
      then store_encoded key (encoded dumps result.payload) result truncation fetched_at stored_at
          cache
      else cache

  unfoldable pub clear : CollectionCache J → CollectionCache J
  clear cache = record cache { entries = []; bytes = 0 }

  -- `to_result`, where `loads` reads a text back
  abbrev pub decoded : (String → J) → Option String → Option J
  decoded loads none = none
  decoded loads (some text) = some (loads text)

  unfoldable pub to_result : (String → J) → CacheEntry J → ProviderResult J
  to_result loads entry = record {
    success = true;
    payload = decoded loads entry.payload;
    text = entry.text;
    equivalent_command = entry.equivalent_command;
    truncated = entry.truncated;
    total_items = entry.total_items;
    not_found = false;
  }
