-- ===== src/Collectors/Examples.antt =====
-- The collector registry at concrete inputs.
use ai_kubernetes_troublesho.Prelude.{◌≡◌, refl, String, List, [], ◌∷◌, some, string_eq}
use ai_kubernetes_troublesho.Prelude.Exec.{ok, raised}
use ai_kubernetes_troublesho.Collectors.{
  Collector, Pending, pending_of, pending_all, required_ids, optional_ids, providers_of, resolve,
  waves_from, register, no_id, cyclic,
}
use ai_kubernetes_troublesho.Collectors.Waves.{IsResolved, resolve-IsResolved}

abbrev collector : String → String → List String → List String → Collector
collector id kind required optional = record {
  id = id;
  provides = kind ∷ [];
  requires = required;
  optional_requires = optional;
}

abbrev logs : Collector
logs = collector "logs" "log" ("pod" ∷ []) ("metric" ∷ [])

abbrev pods : Collector
pods = collector "pods" "pod" [] []

abbrev registry : List Collector
registry = logs ∷ pods ∷ []

abbrev pending : List Pending
pending = pending_of logs registry ("pods" ∷ []) ∷ pending_of pods registry [] ∷ []

all_pending : pending_all [] registry registry ≡ ok pending
unfolding pending_all required_ids optional_ids providers_of
all_pending = refl

resolve-IsResolved_example : IsResolved pending [] (resolve [] registry)
resolve-IsResolved_example = resolve-IsResolved [] registry pending all_pending

pods_come_first :
    resolve [] registry
    ≡ some (
        ok
          ((pending_of pods registry [] ∷ []) ∷ (pending_of logs registry ("pods" ∷ []) ∷ []) ∷ []))
unfolding resolve waves_from pending_all required_ids optional_ids providers_of
pods_come_first = refl

a_cycle_is_refused :
    resolve [] (collector "a" "x" ("y" ∷ []) [] ∷ collector "b" "y" ("x" ∷ []) [] ∷ [])
    ≡ some (raised (cyclic ("a" ∷ "b" ∷ [])))
unfolding resolve waves_from pending_all required_ids optional_ids providers_of
a_cycle_is_refused = refl

a_blank_id_is_refused : register (collector "" "x" [] []) registry ≡ raised no_id
unfolding register
a_blank_id_is_refused = refl
