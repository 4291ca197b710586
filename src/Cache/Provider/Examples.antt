-- ===== src/Cache/Provider/Examples.antt =====
-- The caching provider at concrete inputs: one read is cached and the other is not.
use ai_kubernetes_troublesho.Prelude.{
  ◌≡◌, refl, String, true, false, none, some, List, [], ◌∷◌, map, string_eq,
}
use ai_kubernetes_troublesho.Prelude.Dict.{get}
use ai_kubernetes_troublesho.Cache.{ProviderResult, CacheEntry, lookup}
use ai_kubernetes_troublesho.Cache.Provider.{
  CachingProvider, serve, store_all, fetch_many, record_hit,
}

-- A request is its key, and the provider answers it with its own name.
abbrev answer : String → ProviderResult String
answer q = record {
  success = true;
  payload = none;
  text = q;
  equivalent_command = "kubectl get";
  truncated = false;
  total_items = 1;
  not_found = false;
}

abbrev entry : CacheEntry String
entry = record {
  payload = none;
  text = "pods";
  equivalent_command = "kubectl get";
  truncated = false;
  total_items = 1;
  truncation = none;
  fetched_at = 5;
  stored_at = 5;
  size = 4;
}

abbrev warm : CachingProvider String
warm = record {
  cache = record {
    ttl = 30;
    max_bytes = 100;
    entries = ("pods", entry) ∷ [];
    bytes = 4;
    hits = 0;
    misses = 0;
    evictions = 0;
  };
  hits = 0;
  misses = 0;
  oldest_served = none;
  cached_commands = [];
  cached_truncations = [];
  window = none;
}

abbrev same : String → String
same s = s

abbrev requests : List String
requests = "nodes" ∷ "pods" ∷ []

abbrev after : CachingProvider String
after = (fetch_many same same some (λ t. t) true 10 10 (map answer) [] requests warm).1

one_hit_and_one_miss : (after.hits ≡ 1) × (after.misses ≡ 1)
unfolding fetch_many serve store_all record_hit lookup get
one_hit_and_one_miss = (refl, refl)
