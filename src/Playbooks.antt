-- ===== src/Playbooks.antt =====
-- backend/app/playbooks/orchestrator.py, registry.py and base.py: the rounds of an investigation.
-- The baseline is collected and analysed, and then playbooks plan what to collect next. What a
-- playbook decides, the analysis (`A`), the collectors' behaviour and the time that is left before
-- a round are arguments. Logs and progress reports are not modelled.
pub mod Fresh
pub mod Once
mod Examples
use ai_kubernetes_troublesho.Prelude.{
  ℕ, zero, suc, ◌-◌, String, Bool, true, false, not, Option, none, some, List, [], ◌∷◌, ◌++◌, ◌==◌,
  string_eq, nat_eq, contains, keep, length, map, if◌then◌else◌,
}
use ai_kubernetes_troublesho.Prelude.Exec.{Result, ok, raised}
use ai_kubernetes_troublesho.Evidence.{EvidenceStore}
use ai_kubernetes_troublesho.Evidence.Redactor.{PyText}
use ai_kubernetes_troublesho.Collectors.{Collector, GraphError, ids_of, register}
use ai_kubernetes_troublesho.Collectors.Scheduler.{
  Behaviour, Context, RunError, graph, run as run_scheduler,
}

-- `DEFAULT_MAX_ROUNDS`
abbrev pub default_max_rounds : ℕ
default_max_rounds = 1

-- A playbook; `none` is one that raises.
pub record Playbook (A : Type 0) : Type 0 where
  pub id : String
  pub applicable : A → EvidenceStore → Option Bool
  pub plan : A → EvidenceStore → Option (List Collector)

-- `PlaybookRegistry.register`
pub data PlaybookError : Type 0 where
  no_playbook_id : PlaybookError
  duplicate_playbook : String → PlaybookError

unfoldable pub register_playbook :
    {A : Type 0} → Playbook A → List (Playbook A) → Result PlaybookError (List (Playbook A))
register_playbook playbook playbooks =
    if playbook.id == ""
    then raised no_playbook_id
    else if contains playbook.id (map (λ p. p.id) playbooks)
    then raised (duplicate_playbook playbook.id)
    else ok (playbooks ++ playbook ∷ [])

abbrev applies : Option Bool → Bool
applies none = false
applies (some b) = b

-- `PlaybookRegistry.select`
unfoldable pub select : {A : Type 0} → A → EvidenceStore → List (Playbook A) → List (Playbook A)
select analysis store playbooks = keep (λ p. applies (p.applicable analysis store)) playbooks

-- what `_plan` has planned so far: the values of a dictionary by id, and the playbooks it selected
pub record Planned : Type 0 where
  pub collectors : List Collector
  pub selected : List String

abbrev pub set_default : Collector → List Collector → List Collector
set_default c planned = if contains c.id (ids_of planned) then planned else planned ++ c ∷ []

unfoldable pub set_defaults : List Collector → List Collector → List Collector
set_defaults [] planned = planned
set_defaults (c ∷ cs) planned = set_defaults cs (set_default c planned)

abbrev pub add_fresh : String → List Collector → Planned → Planned
add_fresh id [] planned = planned
add_fresh id (c ∷ cs) planned = record {
  collectors = set_defaults (c ∷ cs) planned.collectors;
  selected = planned.selected ++ id ∷ [];
}

abbrev pub fresh_of : List String → List Collector → List Collector
fresh_of executed collectors = keep (λ c. not (contains c.id executed)) collectors

abbrev pub add_plan : String → Option (List Collector) → List String → Planned → Planned
add_plan id none executed planned = planned
add_plan id (some collectors) executed planned = add_fresh id (fresh_of executed collectors) planned

unfoldable pub plan_all :
    {A : Type 0} → List (Playbook A) → A → EvidenceStore → List String → Planned → Planned
plan_all [] analysis store executed planned = planned
plan_all (p ∷ playbooks) analysis store executed planned =
    plan_all playbooks analysis store executed
      (add_plan p.id (p.plan analysis store) executed planned)

-- `_plan`
unfoldable pub plan : {A : Type 0} → List (Playbook A) → A → EvidenceStore → List String → Planned
plan playbooks analysis store executed =
    plan_all (select analysis store playbooks) analysis store executed
      record { collectors = []; selected = [] }

pub record PlaybookRound : Type 0 where
  pub round : ℕ
  pub playbooks : List String
  pub collectors : List String
  pub evidence_added : ℕ
  pub hypotheses_before : List String

pub record Orchestration (A : Type 0) : Type 0 where
  pub store : EvidenceStore
  pub analysis : A
  pub rounds : List PlaybookRound

-- `CollectorRegistry(collectors)`
unfoldable pub register_all : List Collector → List Collector → Result GraphError (List Collector)
register_all [] registry = ok registry
register_all (c ∷ cs) registry = elim (register c registry) [
  | raised e ↦ raised e
  | ok grown ↦ register_all cs grown
]

module _ (py : PyText) (behaviour : Collector → Behaviour) (context : Context) where
  abbrev pub scheduled :
      Result GraphError (List Collector) → EvidenceStore → Option (Result RunError EvidenceStore)
  scheduled (raised e) store = some (raised (graph e))
  scheduled (ok registry) store = run_scheduler py behaviour context registry store

  -- `_collect`
  unfoldable pub collect : List Collector → EvidenceStore → Option (Result RunError EvidenceStore)
  collect [] store = some (ok store)
  collect (c ∷ cs) store = scheduled (register_all (c ∷ cs) []) store

  module _ {A : Type 0} (playbooks : List (Playbook A)) (analyze : EvidenceStore → A)
      (hypotheses : A → List String) (remaining : ℕ → ℕ) where
    abbrev pub round_of : ℕ → Planned → EvidenceStore → EvidenceStore → A → PlaybookRound
    round_of number planned before after analysis = record {
      round = number;
      playbooks = planned.selected;
      collectors = ids_of planned.collectors;
      evidence_added = length after.items - length before.items;
      hypotheses_before = hypotheses analysis;
    }

    abbrev pub Outcome : Type 0
    Outcome = Option (Result RunError (Orchestration A))

    abbrev pub or_stop : List Collector → Outcome → Outcome → Outcome
    or_stop [] stop go = stop
    or_stop (c ∷ cs) stop go = go

    abbrev pub and_then :
        Option (Result RunError EvidenceStore) → (EvidenceStore → Outcome) → Outcome
    and_then none go = none
    and_then (some (raised e)) go = some (raised e)
    and_then (some (ok after)) go = go after

    -- the loop over the rounds: how many are left, and the number of the next
    unfoldable pub rounds_from :
        ℕ → ℕ → List String → EvidenceStore → A → List PlaybookRound → Outcome
    rounds_from zero number executed store analysis rounds =
        some (ok record { store = store; analysis = analysis; rounds = rounds })
    rounds_from (suc left) number executed store analysis rounds =
        let stop = some (ok record { store = store; analysis = analysis; rounds = rounds }) in
        let planned = plan playbooks analysis store executed in
        if remaining number == 0
        then stop
        else or_stop planned.collectors stop (
            and_then (collect planned.collectors store) (λ after.
              rounds_from left (suc number) (executed ++ ids_of planned.collectors) after
                (analyze after) (rounds ++ round_of number planned store after analysis ∷ [])))

    -- `run`
    unfoldable pub investigate : ℕ → List Collector → EvidenceStore → Outcome
    investigate max_rounds baseline store =
        and_then (collect baseline store)
          (λ collected. rounds_from max_rounds 1 (ids_of baseline) collected (analyze collected) [])
