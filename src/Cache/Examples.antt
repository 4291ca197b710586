-- ===== src/Cache/Examples.antt =====
-- The collection cache at concrete inputs. A payload is stood for by a text.
use ai_kubernetes_troublesho.Prelude.{
  ◌≡◌, refl, String, true, false, Option, none, some, List, [], ◌∷◌, arith, string_eq, map,
}
use ai_kubernetes_troublesho.Prelude.Dict.{get, put, remove}
use ai_kubernetes_troublesho.Cache.{
  CollectionCache, ProviderResult, lookup, store, insert, trim, entry_of,
}
use ai_kubernetes_troublesho.Cache.Bounds.{Op, run, new_cache, IsBounded, run-IsBounded}
use ai_kubernetes_troublesho.Cache.Serving.{lookup-store}

abbrev dumps : String → Option String
dumps text = some text

abbrev pods : ProviderResult String
pods = record {
  success = true;
  payload = some "[1,2,3]";
  text = "three pods";
  equivalent_command = "kubectl get pods";
  truncated = false;
  total_items = 3;
  not_found = false;
}

-- Two reads that do not fit together: the older one goes.
abbrev history : List (Op String)
history =
    Op.writes "a" pods none 0 0
    ∷ Op.reads "a" 10
    ∷ Op.writes "b" pods none 20 20
    ∷ Op.reads "a" 30
    ∷ []

run-IsBounded_example : IsBounded (run dumps history (new_cache 60000 20))
run-IsBounded_example = run-IsBounded dumps history 60000 20

older_is_gone : map (λ entry. entry.0) (run dumps history (new_cache 60000 20)).entries ≡ "b" ∷ []
unfolding run lookup store insert trim get put remove
older_is_gone = refl

abbrev cache : CollectionCache String
cache = new_cache 60000 20

lookup-store_example :
    (lookup "a" 60000 (store dumps "a" pods none 0 0 cache)).0
    ≡ some (entry_of (some "[1,2,3]") pods none 0 0)
lookup-store_example =
    lookup-store dumps "a" pods none (some "[1,2,3]") 0 0 60000 cache refl refl refl refl
      (omega arith) (omega arith)

abbrev warm : CollectionCache String
warm = store dumps "a" pods none 0 0 cache
