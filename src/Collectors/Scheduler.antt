-- ===== src/Collectors/Scheduler.antt =====
-- backend/app/collectors/scheduler.py: `CollectionScheduler`. A wave's collectors run at the same
-- time against the store as it is when the wave begins: what they give is added when all are done,
-- so a wave is one step. What a collector does (whether it applies, what it collects or how it
-- fails, how long it took, the oldest read it saw) and the time that is left when it starts are
-- arguments. A collector's test whether it applies may raise, which ends the run. Progress reports,
-- logs and metrics are not modelled.
pub mod Items
pub mod Declared
pub mod Runs
pub mod Redacted
mod Examples
use Prim.Native.Nat.{Ordering}
use Prim.Native.String.{compare, ◌++◌ as ◌<>◌}
use ai_kubernetes_troublesho.Prelude.{
  ℕ, String, Bool, true, false, not, ◌&&◌, ◌||◌, Option, none, some, List, [], ◌∷◌, ◌++◌, ltb, leb,
  ◌==◌, string_eq, nat_eq, keep, map, if◌then◌else◌,
}
use ai_kubernetes_troublesho.Prelude.Exec.{Result, ok, raised}
use ai_kubernetes_troublesho.Prelude.Sort.{sorted}
use ai_kubernetes_troublesho.Collectors.{Collector, GraphError, Pending, Waves, resolve}
use ai_kubernetes_troublesho.Evidence.{
  Evidence, EvidenceStatus, EvidenceStore, ResourceRef, bare, has, extend, statuses,
}
use ai_kubernetes_troublesho.Evidence.Redactor.{PyText, Json, redact}

-- What `collector.collect` comes to.
pub data Outcome : Type 0 where
  collected : List Evidence → Outcome
  timed_out : Outcome
  -- the name of the exception and its text
  failed_with : String → Outcome

-- Everything about a collector that is not its place in the graph; a test of whether it applies that
-- raises gives `none`.
pub record Behaviour : Type 0 where
  pub applicable : EvidenceStore → Option Bool
  pub collect : EvidenceStore → Outcome
  pub duration_ms : ℕ
  pub oldest : Option ℕ

-- How a run raises: the registry refuses the graph, or the test of a collector raises.
pub data RunError : Type 0 where
  graph : GraphError → RunError
  test_raised : Collector → RunError

abbrev pub run_result : Result Collector EvidenceStore → Result RunError EvidenceStore
run_result (ok store) = ok store
run_result (raised c) = raised (test_raised c)

-- The investigation: the milliseconds that a collector may take, those that are left of the whole
-- budget when it starts, its cluster, and how Python writes such a time in whole seconds.
pub record Context : Type 0 where
  pub per_collector_timeout : ℕ
  pub remaining : String → ℕ
  pub cluster : ResourceRef
  pub seconds_text : ℕ → String
  pub now : ℕ

-- Python's order of texts
abbrev pub text_leb : String → String → Bool
text_leb a b = elim (compare a b) [ Ordering.gt ↦ false | _ ↦ true ]

abbrev pub join : String → List String → String
join separator [] = ""
join separator (s ∷ []) = s
join separator (s ∷ (t ∷ rest)) = s <> (separator <> join separator (t ∷ rest))

abbrev pub ids_with_status : List (String × EvidenceStatus) → List String
ids_with_status found = map (λ entry. entry.0) found

-- `timeout_for_next`
abbrev pub timeout_for_next : Context → Collector → ℕ
timeout_for_next context c =
    if leb context.per_collector_timeout (context.remaining c.id)
    then context.per_collector_timeout
    else context.remaining c.id

-- `_missing_requirements`
abbrev pub missing_requirements : Collector → EvidenceStore → List String
missing_requirements c store = sorted text_leb (keep (λ kind. not (has kind store)) c.requires)

-- a record for each kind that the collector provides, with no payload
unfoldable pub bare_all :
    List String → EvidenceStatus → String → Collector → Context → List Evidence
bare_all kinds status detail c context =
    map (λ kind. bare kind status context.cluster detail c.id context.now) (sorted text_leb kinds)

-- `_degraded_evidence`
abbrev pub degraded_evidence : EvidenceStatus → String → Collector → Context → List Evidence
degraded_evidence status detail c context = bare_all c.provides status detail c context

abbrev skip_detail : List String → String
skip_detail [] = "Skipped because it does not apply to this investigation scope."
skip_detail (kind ∷ missing) =
    "Skipped because required evidence was unavailable: " <> (join ", " (kind ∷ missing) <> ".")

-- `_skipped_evidence`
abbrev pub skipped_evidence : Collector → Context → EvidenceStore → List Evidence
skipped_evidence c context store =
    bare_all c.provides EvidenceStatus.not_applicable (skip_detail (missing_requirements c store)) c
      context

abbrev pub all_present : List String → EvidenceStore → Bool
all_present [] store = true
all_present (kind ∷ kinds) store = has kind store && all_present kinds store

abbrev pub earlier : Option ℕ → ℕ → ℕ
earlier none at = at
earlier (some oldest) at = if ltb oldest at then oldest else at

-- the rest of `_should_run` after the collector's test
abbrev pub and_present : Option Bool → Bool → Option Bool
and_present none present = none
and_present (some false) present = some false
and_present (some true) present = some present

abbrev pub is_true : Option Bool → Bool
is_true none = false
is_true (some b) = b

-- a wave whose tests did not raise, or the collector whose test raised
abbrev pub tested : Option Collector → EvidenceStore → Result Collector EvidenceStore
tested none after = ok after
tested (some c) after = raised c

abbrev pub and_waves :
    Result Collector EvidenceStore
    → (EvidenceStore → Result Collector EvidenceStore)
    → Result Collector EvidenceStore
and_waves (raised c) go = raised c
and_waves (ok store) go = go store

module _ (py : PyText) where
  -- `_sanitize`
  abbrev pub clean : Option Json → Evidence → Evidence
  clean none e = e
  clean (some value) e =
      if e.redacted then e else record e { payload = some (redact py value); redacted = true }

  abbrev pub sanitize : ℕ → Option ℕ → Evidence → Evidence
  sanitize duration oldest e = clean e.payload record e {
    duration_ms = if e.duration_ms == 0 then duration else e.duration_ms;
    collected_at = earlier oldest e.collected_at;
  }

  module _ (behaviour : Collector → Behaviour) (context : Context) where
    -- `_should_run`
    unfoldable pub should_run : EvidenceStore → Collector → Option Bool
    should_run store c = and_present ((behaviour c).applicable store) (all_present c.requires store)

    abbrev pub runs : EvidenceStore → Collector → Bool
    runs store c = is_true (should_run store c)

    -- the first collector of a wave whose test raises
    unfoldable pub raiser : EvidenceStore → List Collector → Option Collector
    raiser store [] = none
    raiser store (c ∷ cs) = elim (should_run store c) [ none ↦ some c | some b ↦ raiser store cs ]

    abbrev pub evidence_of : Outcome → Collector → List Evidence
    evidence_of (collected items) c =
        map (sanitize (behaviour c).duration_ms (behaviour c).oldest) items
    evidence_of timed_out c =
        degraded_evidence EvidenceStatus.timeout
          ("Collector exceeded its "
            <> (context.seconds_text (timeout_for_next context c) <> "s time budget."))
          c context
    evidence_of (failed_with reason) c =
        degraded_evidence EvidenceStatus.failed ("Collector raised " <> reason) c context

    -- `_run_collector`
    unfoldable pub run_collector : EvidenceStore → Collector → List Evidence
    run_collector store c =
        if timeout_for_next context c == 0
        then degraded_evidence EvidenceStatus.timeout
            "Investigation collection budget was exhausted before this collector ran." c context
        else evidence_of ((behaviour c).collect store) c

    -- the loop over the skipped collectors, and that over the results
    unfoldable pub add_skipped : List Collector → EvidenceStore → EvidenceStore
    add_skipped [] store = store
    add_skipped (c ∷ cs) store = add_skipped cs (extend (skipped_evidence c context store) store)

    unfoldable pub add_results : EvidenceStore → List Collector → EvidenceStore → EvidenceStore
    add_results seen [] store = store
    add_results seen (c ∷ cs) store = add_results seen cs (extend (run_collector seen c) store)

    abbrev pub collectors_of : List Pending → List Collector
    collectors_of wave = map (λ p. p.collector) wave

    -- a wave after the tests of its collectors
    unfoldable pub collect_wave : List Collector → EvidenceStore → EvidenceStore
    collect_wave wave store =
        let runnable = keep (runs store) wave in
        let skipped = keep (λ c. not (runs store c)) wave in
        let prepared = add_skipped skipped store in add_results prepared runnable prepared

    unfoldable pub run_wave : List Collector → EvidenceStore → Result Collector EvidenceStore
    run_wave wave store = tested (raiser store wave) (collect_wave wave store)

    unfoldable pub run_waves : List (List Pending) → EvidenceStore → Result Collector EvidenceStore
    run_waves [] store = ok store
    run_waves (wave ∷ waves) store =
        and_waves (run_wave (collectors_of wave) store) (λ after. run_waves waves after)

    -- `run`
    abbrev pub finish : Waves → EvidenceStore → Option (Result RunError EvidenceStore)
    finish none store = none
    finish (some (raised e)) store = some (raised (graph e))
    finish (some (ok waves)) store = some (run_result (run_waves waves store))

    unfoldable pub run : List Collector → EvidenceStore → Option (Result RunError EvidenceStore)
    run collectors store = finish (resolve (ids_with_status (statuses store)) collectors) store
