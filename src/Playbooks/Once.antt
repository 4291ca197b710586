-- ===== src/Playbooks/Once.antt =====
-- The rounds of an investigation end, and no collector runs in two of them.
use ai_kubernetes_troublesho.Prelude.{
  ℕ, zero, suc, ◌+◌, ◌≤◌, ◌≡◌, ◌≢◌, refl, sym, ap, ◌∙◌, inl, inr, String, Option, none, some, List,
  [], ◌∷◌, ◌++◌, ◌==◌, string_eq, nat_eq, length, length-append, arith, Bool-cases, times,
  times-append, append_nil, append_assoc,
}
use ai_kubernetes_troublesho.Prelude.Exec.{Result, ok, raised}
use ai_kubernetes_troublesho.Evidence.{EvidenceStore, statuses}
use ai_kubernetes_troublesho.Evidence.Redactor.{PyText}
use ai_kubernetes_troublesho.Collectors.{Collector, GraphError, Waves, ids_of, resolve}
use ai_kubernetes_troublesho.Collectors.Waves.{resolve_ends}
use ai_kubernetes_troublesho.Collectors.Scheduler.{
  RunError, Behaviour, Context, ids_with_status, finish, run as run_scheduler,
}
use ai_kubernetes_troublesho.Playbooks.{
  Playbook, plan, PlaybookRound, Orchestration, register_all, scheduled, collect, or_stop, and_then,
  rounds_from, round_of, investigate,
}
use ai_kubernetes_troublesho.Playbooks.Fresh.{plan-Disjoint, register_all-once}

-- the ids of the collectors that the rounds ran
abbrev pub ran_in : List PlaybookRound → List String
ran_in [] = []
ran_in (round ∷ rounds) = round.collectors ++ ran_in rounds

-- What an investigation comes to: it raises; or at most so many rounds were run, and the id ran at
-- most once, in the baseline and in all rounds taken together.
abbrev pub RanOnce :
    {A : Type 0} → ℕ → List Collector → String → Option (Result RunError (Orchestration A)) → Type 0
RanOnce max_rounds baseline id none = ⊥
RanOnce max_rounds baseline id (some (raised e)) = Unit
RanOnce max_rounds baseline id (some (ok result)) =
    (length result.rounds ≤ max_rounds) × (times id (ids_of baseline ++ ran_in result.rounds) ≤ 1)

ran_in-snoc :
    (rounds : List PlaybookRound) (round : PlaybookRound)
    → ran_in (rounds ++ round ∷ []) ≡ ran_in rounds ++ round.collectors
ran_in-snoc [] round = append_nil round.collectors
ran_in-snoc (r ∷ rounds) round =
    ap (λ l. r.collectors ++ l) (ran_in-snoc rounds round)
    ∙ sym (append_assoc r.collectors (ran_in rounds) round.collectors)

module _ (py : PyText) (behaviour : Collector → Behaviour) (context : Context) where
  finish_ends :
      (waves : Waves) (store : EvidenceStore)
      → waves ≢ none
      → finish py behaviour context waves store ≢ none
  finish_ends none store h e = h refl
  finish_ends (some (raised g)) store h e = ground arith
  finish_ends (some (ok waves)) store h e = ground arith

  scheduled_ends :
      (registered : Result GraphError (List Collector)) (store : EvidenceStore)
      → scheduled py behaviour context registered store ≢ none
  unfolding run_scheduler
  scheduled_ends (raised g) store e = ground arith
  scheduled_ends (ok registry) store e =
      finish_ends (resolve (ids_with_status (statuses store)) registry) store
        (resolve_ends (ids_with_status (statuses store)) registry) e

  collect_ends :
      (cs : List Collector) (store : EvidenceStore) → collect py behaviour context cs store ≢ none
  unfolding collect
  collect_ends [] store e = ground arith
  collect_ends (c ∷ cs) store e = scheduled_ends (register_all (c ∷ cs) []) store e

  scheduled_once :
      (cs : List Collector) (registered : Result GraphError (List Collector))
      (store after : EvidenceStore)
      → register_all cs [] ≡ registered
      → scheduled py behaviour context registered store ≡ some (ok after)
      → (k : String) → times k (ids_of cs) ≤ 1
  scheduled_once cs (raised g) store after p e k = absurd (ground arith)
  scheduled_once cs (ok all) store after p e k = register_all-once cs [] all p (λ j. omega arith) k

  collect_once :
      (cs : List Collector) (store after : EvidenceStore)
      → collect py behaviour context cs store ≡ some (ok after)
      → (k : String) → times k (ids_of cs) ≤ 1
  unfolding collect
  collect_once [] store after e k = omega arith
  collect_once (c ∷ cs) store after e k =
      scheduled_once (c ∷ cs) (register_all (c ∷ cs) []) store after refl e k

  module _ {A : Type 0} (playbooks : List (Playbook A)) (analyze : EvidenceStore → A)
      (hypotheses : A → List String) (remaining : ℕ → ℕ) (max_rounds : ℕ)
      (baseline : List Collector) (id : String) where
    and_then-RanOnce :
        (result : Option (Result RunError EvidenceStore))
        (go : EvidenceStore → Option (Result RunError (Orchestration A)))
        → result ≢ none
        → ((after : EvidenceStore)
            → result ≡ some (ok after)
            → RanOnce max_rounds baseline id (go after))
        → RanOnce max_rounds baseline id
            (and_then py behaviour context playbooks analyze hypotheses remaining result go)
    and_then-RanOnce none go ends h = ends refl
    and_then-RanOnce (some (raised g)) go ends h = tt
    and_then-RanOnce (some (ok after)) go ends h = h after refl

    or_stop-RanOnce :
        (cs : List Collector) (stop go : Option (Result RunError (Orchestration A)))
        → RanOnce max_rounds baseline id stop
        → RanOnce max_rounds baseline id go
        → RanOnce max_rounds baseline id
            (or_stop py behaviour context playbooks analyze hypotheses remaining cs stop go)
    or_stop-RanOnce [] stop go h k = h
    or_stop-RanOnce (c ∷ cs) stop go h k = k

    rounds_from-RanOnce :
        (left number : ℕ) (executed : List String) (store : EvidenceStore) (analysis : A)
        (rounds : List PlaybookRound)
        → executed ≡ ids_of baseline ++ ran_in rounds
        → ((k : String) → times k executed ≤ 1)
        → length rounds + left ≤ max_rounds
        → RanOnce max_rounds baseline id (
            rounds_from py behaviour context playbooks analyze hypotheses remaining left number
              executed store analysis rounds)
    unfolding rounds_from
    rounds_from-RanOnce zero number executed store analysis rounds same once le =
        (omega arith, rw (sym same) (once id))
    rounds_from-RanOnce (suc left) number executed store analysis rounds same once le =
        elim (Bool-cases (remaining number == 0)) [
          | inl p ↦ rw p (omega arith, rw (sym same) (once id))
          | inr p ↦
              let planned = plan playbooks analysis store executed in
              let ids = ids_of planned.collectors in
              rw p (
                or_stop-RanOnce planned.collectors _ _ (omega arith, rw (sym same) (once id))
                  (and_then-RanOnce (collect py behaviour context planned.collectors store) _
                    (collect_ends planned.collectors store)
                    (λ after q.
                      rounds_from-RanOnce left (suc number) (executed ++ ids) after (analyze after)
                        _
                        (ap (λ l. l ++ ids) same
                          ∙ append_assoc (ids_of baseline) (ran_in rounds) ids
                          ∙ ap (λ l. ids_of baseline ++ l) (sym (ran_in-snoc rounds _)))
                        (λ k. omega (
                          arith,
                          times-append k executed ids,
                          plan-Disjoint playbooks analysis store executed once k,
                        ))
                        (omega (
                          arith,
                          length-append rounds (
                              round_of py behaviour context playbooks analyze hypotheses remaining
                                number planned store after analysis
                              ∷ []),
                        )))))
        ]

  -- An investigation always ends. Either it raises, since a registry refuses the collectors of the
  -- baseline or of a round, or since a collector's test whether it applies raises; or at most as
  -- many rounds were run as are allowed, and no collector id ran twice, in the baseline and in all
  -- rounds taken together, whatever the playbooks planned.
  pub investigate-RanOnce :
      {A : Type 0} (playbooks : List (Playbook A)) (analyze : EvidenceStore → A)
      (hypotheses : A → List String) (remaining : ℕ → ℕ) (max_rounds : ℕ)
      (baseline : List Collector) (id : String) (store : EvidenceStore)
      → RanOnce max_rounds baseline id (
          investigate py behaviour context playbooks analyze hypotheses remaining max_rounds
            baseline store)
  unfolding investigate
  investigate-RanOnce playbooks analyze hypotheses remaining max_rounds baseline id store =
      and_then-RanOnce playbooks analyze hypotheses remaining max_rounds baseline id
        (collect py behaviour context baseline store) _ (collect_ends baseline store)
        (λ after e.
          rounds_from-RanOnce playbooks analyze hypotheses remaining max_rounds baseline id
            max_rounds 1 (ids_of baseline) after (analyze after) []
            (sym (append_nil (ids_of baseline))) (collect_once baseline store after e)
            (omega arith))
