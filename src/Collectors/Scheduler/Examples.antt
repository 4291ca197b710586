-- ===== src/Collectors/Scheduler/Examples.antt =====
-- The collection scheduler at concrete inputs: three collectors, of which one raises, one is
-- starved by it, and one succeeds.
use Prim.Native.String.{◌++◌ as ◌<>◌}
use package.text.Mathlib.TextLemmas.{cons-append, nil-append}
use ai_kubernetes_troublesho.Prelude.{
  ℕ, suc, ◌+◌, ◌≡◌, refl, sym, ap, String, true, false, none, some, List, [], ◌∷◌, arith, leb,
  string_eq, if◌then◌else◌, contains, map, Bool-cases, inl, inr,
}
use ai_kubernetes_troublesho.Prelude.Exec.{Result, ok, raised}
use ai_kubernetes_troublesho.Prelude.Text.{lower}
use ai_kubernetes_troublesho.Evidence.{
  Evidence, EvidenceStatus, EvidenceStore, statuses, new_store, cluster_ref, bare, evidence_id,
  key_of,
}
use ai_kubernetes_troublesho.Evidence.Redactor.{PyText, obj, text, field, close}
use ai_kubernetes_troublesho.Evidence.Recorded.{AllNamed}
use ai_kubernetes_troublesho.Collectors.{
  Collector, resolve, Pending, pending_of, pending_all, required_ids, optional_ids, providers_of,
  waves_from,
}
use ai_kubernetes_troublesho.Collectors.Scheduler.{
  Behaviour, Context, Outcome, collected, failed_with, run, run_waves, test_raised, run_wave,
  raiser, should_run,
}
use ai_kubernetes_troublesho.Collectors.Scheduler.Declared.{IsDelivered}
use ai_kubernetes_troublesho.Collectors.Scheduler.Runs.{run-IsDelivered}
use ai_kubernetes_troublesho.Collectors.Scheduler.Redacted.{run-masked, flags_hold, store_masked}

abbrev collector : String → String → List String → Collector
collector id kind required = record {
  id = id;
  provides = kind ∷ [];
  requires = required;
  optional_requires = [];
}

abbrev registry : List Collector
registry =
    collector "logs" "log" ("pod" ∷ [])
    ∷ collector "pods" "pod" []
    ∷ collector "nodes" "node" []
    ∷ []

abbrev no_sub : PyText
no_sub = record { sub = λ n s. s; lower = lower }

abbrev context : Context
context = record {
  per_collector_timeout = 30;
  remaining = λ id. 10;
  cluster = cluster_ref none;
  seconds_text = λ n. "10";
  now = 7;
}

-- what a collector of a kind returns: one record that holds a password
abbrev found : String → Evidence
found kind = record (bare kind EvidenceStatus.ok (cluster_ref none) "" "" 7) {
  payload = some (obj (field "password" (text "hunter2") close));
}

abbrev found_all : List String → List Evidence
found_all kinds = map found kinds

abbrev outcome : List String → Outcome
outcome kinds =
    if contains "pod" kinds then failed_with "ValueError: no route" else collected (found_all kinds)

abbrev behaviour : Collector → Behaviour
behaviour c = record {
  applicable = λ store. some true;
  collect = λ store. outcome c.provides;
  duration_ms = 4;
  oldest = none;
}

-- The kind is what stands before the part of the id that names the cluster.
abbrev rest_of_id : String
rest_of_id = ":cluster/_cluster/current-context"

abbrev size : String → ℕ
size String.[] = 0
size (String.◌∷◌ c s) = suc (size s)

abbrev kind_of : String → String
kind_of String.[] = String.[]
kind_of (String.◌∷◌ c s) =
    let rest = kind_of s in if leb (size s) 32 then String.[] else String.◌∷◌ c rest

size-append : (s t : String) → size (s <> t) ≡ size s + size t
size-append String.[] t = rw (nil-append t) (omega arith)
size-append (String.◌∷◌ c s) t = rw (cons-append c s t) (ground (arith, size-append s t))

kind_of-append : (kind : String) → kind_of (kind <> rest_of_id) ≡ kind
kind_of-append String.[] = refl
kind_of-append (String.◌∷◌ c s) =
    let n : leb (size (s <> rest_of_id)) 32 ≡ false = ground (arith, size-append s rest_of_id) in
    rw (cons-append c s rest_of_id, n) (ap (λ r. String.◌∷◌ c r) (kind_of-append s))

names_bare : (kind : String) → kind_of (evidence_id kind (cluster_ref none) "") ≡ kind
unfolding evidence_id key_of lower
names_bare kind = kind_of-append kind

found_all-AllNamed : (kinds : List String) → AllNamed kind_of (found_all kinds)
unfolding bare
found_all-AllNamed [] = tt
found_all-AllNamed (kind ∷ kinds) = (names_bare kind, found_all-AllNamed kinds)

flags_hold-found_all : (kinds : List String) → flags_hold no_sub (found_all kinds) ≡ true
unfolding bare
flags_hold-found_all [] = refl
flags_hold-found_all (kind ∷ kinds) = flags_hold-found_all kinds

collected_inj : (items others : List Evidence) → collected items ≡ collected others → items ≡ others
collected_inj items others e = ap (λ o. elim o [ collected found ↦ found | _ ↦ [] ]) e

outcome_cases :
    (kinds : List String) (items : List Evidence)
    → outcome kinds ≡ collected items
    → found_all kinds ≡ items
outcome_cases kinds items e = elim (Bool-cases (contains "pod" kinds)) [
  | inl p ↦ absurd (ground (arith, e, p))
  | inr p ↦ collected_inj (found_all kinds) items (rw p at e)
]

named_items :
    (c : Collector) (store : EvidenceStore) (items : List Evidence)
    → (behaviour c).collect store ≡ collected items
    → AllNamed kind_of items
named_items c store items e =
    rw (sym (outcome_cases c.provides items e)) (found_all-AllNamed c.provides)

flagged :
    (c : Collector) (store : EvidenceStore) (items : List Evidence)
    → (behaviour c).collect store ≡ collected items
    → flags_hold no_sub items ≡ true
flagged c store items e =
    rw (sym (outcome_cases c.provides items e)) (flags_hold-found_all c.provides)

run-IsDelivered_example :
    IsDelivered behaviour "log" registry new_store (run no_sub behaviour context registry new_store)
run-IsDelivered_example =
    run-IsDelivered kind_of no_sub behaviour context names_bare named_items "log" registry new_store
      tt

abbrev pending_with : Collector → List String → Pending
pending_with c required = pending_of c registry required

abbrev waves : List (List Pending)
waves =
    (pending_with (collector "pods" "pod" []) []
      ∷ pending_with (collector "nodes" "node" []) []
      ∷ [])
    ∷ (pending_with (collector "logs" "log" ("pod" ∷ [])) ("pods" ∷ []) ∷ [])
    ∷ []

abbrev store_of : Result Collector EvidenceStore → EvidenceStore
store_of (ok store) = store
store_of (raised c) = new_store

abbrev final : EvidenceStore
final = store_of (run_waves no_sub behaviour context waves new_store)

ran : run no_sub behaviour context registry new_store ≡ some (ok final)
unfolding run resolve waves_from pending_all required_ids optional_ids providers_of statuses
    run_waves run_wave raiser should_run
ran = refl

-- A collector whose test raises ends the run.
abbrev broken : Collector → Behaviour
broken c = record (behaviour c) { applicable = λ store. none }

run-broken :
    run no_sub broken context registry new_store
    ≡ some (raised (test_raised (collector "pods" "pod" [])))
unfolding run resolve waves_from pending_all required_ids optional_ids providers_of statuses
    run_waves run_wave raiser should_run
run-broken = refl

run-masked_example : store_masked no_sub final.items ≡ true
run-masked_example = run-masked no_sub behaviour context flagged registry new_store final ran refl
