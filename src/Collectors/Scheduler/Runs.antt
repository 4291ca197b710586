-- ===== src/Collectors/Scheduler/Runs.antt =====
-- What a run of the scheduler leaves in the store: a record of every kind that a collector
-- declares.
use ai_kubernetes_troublesho.Prelude.{
  ◌≡◌, refl, sym, ap, ◌∙◌, String, Bool, true, not, ◌||◌, none, some, List, [], ◌∷◌, arith, ◌==◌,
  string_eq, nat_eq, keep, any, map, contains, leb, Bool-cases, Option-cases, inl, inr, ◌⊎◌, false,
  eq_iff, some_inj,
}
use ai_kubernetes_troublesho.Prelude.Exec.{Result, ok, raised}
use ai_kubernetes_troublesho.Prelude.Sort.{sorted, contains-sorted}
use ai_kubernetes_troublesho.Evidence.{
  Evidence, EvidenceStatus, EvidenceStore, extend, evidence_id, statuses,
}
use ai_kubernetes_troublesho.Evidence.Recorded.{
  is_recorded, AllNamed, IsNamedStore, extend-IsNamedStore, recorded-extend,
}
use ai_kubernetes_troublesho.Evidence.Redactor.{PyText}
use ai_kubernetes_troublesho.Collectors.{
  Collector, GraphError, Pending, Waves, resolve, pending_all,
}
use ai_kubernetes_troublesho.Collectors.Waves.{
  resolve-IsResolved, resolve-raised, IsResolved, pending_all-collectors, CollectorsIn,
}
use ai_kubernetes_troublesho.Collectors.Scheduler.{
  Outcome, collected, timed_out, failed_with, Behaviour, Context, text_leb, bare_all,
  skipped_evidence, should_run, evidence_of, run_collector, add_skipped, add_results, collectors_of,
  run_wave, run_waves, run, ids_with_status, timeout_for_next, finish, collect_wave, raiser, runs,
  run_result,
}
use ai_kubernetes_troublesho.Collectors.Scheduler.Items.{
  covers, covers-bare, bare_list-AllNamed, sanitize-AllNamed, covers-sanitize,
}
use ai_kubernetes_troublesho.Collectors.Scheduler.Declared.{
  declares, any_wave, IsDelivered, Omits, any-collectors, any_wave-count, or_assoc, any_split,
}

should_run-none :
    (py : PyText) (behaviour : Collector → Behaviour) (context : Context) (store : EvidenceStore)
    (c : Collector)
    → should_run py behaviour context store c ≡ none
    → (behaviour c).applicable store ≡ none
unfolding should_run
should_run-none py behaviour context store c h =
    elim (Option-cases ((behaviour c).applicable store)) [
      | inl e ↦ e
      | inr (b, e) ↦ absurd (ground (arith, e, h))
    ]

-- The collector whose test raised is one of the wave.
raiser_lem :
    (py : PyText) (behaviour : Collector → Behaviour) (context : Context) (store : EvidenceStore)
    (wave : List Collector) (c : Collector)
    → raiser py behaviour context store wave ≡ some c
    → (any (λ x. x.id == c.id) wave ≡ true) × ((behaviour c).applicable store ≡ none)
unfolding raiser
raiser_lem py behaviour context store [] c h = ground (arith, h)
raiser_lem py behaviour context store (x ∷ wave) c h =
    elim (Option-cases (should_run py behaviour context store x)) [
      | inl e ↦
          let same : x ≡ c = some_inj x c (rw (e, raiser) at h) in
          (
            ground (arith, (eq_iff x.id c.id).1 (ap (λ y. y.id) same)),
            sym (ap (λ y. (behaviour y).applicable store) same)
                ∙ should_run-none py behaviour context store x e,
          )
      | inr (b, e) ↦
          let rest = raiser_lem py behaviour context store wave c (rw (e, raiser) at h) in
          (ground (arith, rest.0), rest.1)
    ]

module _ (named : String → String) (py : PyText) (behaviour : Collector → Behaviour)
    (context : Context)
    (names_bare : (kind : String) → named (evidence_id kind context.cluster "") ≡ kind)
    (named_items : (c : Collector) (store : EvidenceStore) (items : List Evidence)
      → (behaviour c).collect store ≡ collected items
      → AllNamed named items) where
  -- The records cover the kind, or some collector that succeeded omitted it.
  abbrev Covered : String → List Evidence → Type 0
  Covered kind items = (covers kind items ≡ true) ⊎ Omits behaviour kind

  bare_all-AllNamed :
      (kinds : List String) (status : EvidenceStatus) (detail : String) (c : Collector)
      → AllNamed named (bare_all kinds status detail c context)
  unfolding bare_all
  bare_all-AllNamed kinds status detail c =
      bare_list-AllNamed named context names_bare (sorted text_leb kinds) status detail c

  covers-bare_all :
      (kind : String) (status : EvidenceStatus) (detail : String) (c : Collector)
      → contains kind c.provides ≡ true
      → covers kind (bare_all c.provides status detail c context) ≡ true
  unfolding bare_all
  covers-bare_all kind status detail c h =
      covers-bare kind (sorted text_leb c.provides) status detail c context
      ∙ contains-sorted text_leb kind c.provides
      ∙ h

  evidence_of-AllNamed :
      (outcome : Outcome) (c : Collector) (store : EvidenceStore)
      → (behaviour c).collect store ≡ outcome
      → AllNamed named (evidence_of py behaviour context outcome c)
  evidence_of-AllNamed (collected items) c store e =
      sanitize-AllNamed py (behaviour c).duration_ms (behaviour c).oldest named items
        (named_items c store items e)
  evidence_of-AllNamed timed_out c store e = bare_all-AllNamed c.provides _ _ c
  evidence_of-AllNamed (failed_with reason) c store e = bare_all-AllNamed c.provides _ _ c

  covers-evidence_of :
      (kind : String) (outcome : Outcome) (c : Collector) (store : EvidenceStore)
      → (behaviour c).collect store ≡ outcome
      → contains kind c.provides ≡ true
      → Covered kind (evidence_of py behaviour context outcome c)
  covers-evidence_of kind (collected items) c store e h =
      let same = covers-sanitize py (behaviour c).duration_ms (behaviour c).oldest kind items in
      elim (Bool-cases (covers kind items)) [
        | inl q ↦ inl (same ∙ q)
        | inr q ↦ inr (c, store, items, e, h, q)
      ]
  covers-evidence_of kind timed_out c store e h = inl (covers-bare_all kind _ _ c h)
  covers-evidence_of kind (failed_with reason) c store e h = inl (covers-bare_all kind _ _ c h)

  run_collector-AllNamed :
      (store : EvidenceStore) (c : Collector)
      → AllNamed named (run_collector py behaviour context store c)
  unfolding run_collector
  run_collector-AllNamed store c = elim (Bool-cases (timeout_for_next context c == 0)) [
    | inl p ↦ rw p (bare_all-AllNamed c.provides _ _ c)
    | inr p ↦ rw p (evidence_of-AllNamed ((behaviour c).collect store) c store refl)
  ]

  covers-run_collector :
      (kind : String) (store : EvidenceStore) (c : Collector)
      → contains kind c.provides ≡ true
      → Covered kind (run_collector py behaviour context store c)
  unfolding run_collector
  covers-run_collector kind store c h = elim (Bool-cases (timeout_for_next context c == 0)) [
    | inl p ↦ rw p (inl (covers-bare_all kind _ _ c h))
    | inr p ↦ rw p (covers-evidence_of kind ((behaviour c).collect store) c store refl h)
  ]

  -- A store whose ids name their kinds, and that holds a record of `kind`, if it should and no
  -- collector that succeeded omitted it.
  abbrev Kept : String → Bool → EvidenceStore → Type 0
  Kept kind expected store =
      IsNamedStore named store.items
      × (((not expected || is_recorded kind store.items) ≡ true) ⊎ Omits behaviour kind)

  extend-Kept :
      (kind : String) (expected more : Bool) (items : List Evidence) (store : EvidenceStore)
      → AllNamed named items
      → (more ≡ true → Covered kind items)
      → Kept kind expected store
      → Kept kind (expected || more) (extend items store)
  extend-Kept kind expected more items store n cover (h, inr o) =
      (extend-IsNamedStore named items store n h, inr o)
  extend-Kept kind expected more items store n cover (h, inl r) =
      let recorded = recorded-extend named kind items store n h in
      (
        extend-IsNamedStore named items store n h,
        elim (Bool-cases more) [
          | inr e ↦ inl (ground (arith, e, recorded))
          | inl e ↦ elim (cover e) [ inl c ↦ inl (ground (arith, c, recorded)) | inr o ↦ inr o ]
        ],
      )

  none_more :
      (kind : String) (expected : Bool) (store : EvidenceStore)
      → Kept kind expected store
      → Kept kind (expected || false) store
  none_more kind expected store (h, inl r) = (h, inl (ground (arith, r)))
  none_more kind expected store (h, inr o) = (h, inr o)

  add_results-Kept :
      (kind : String) (expected : Bool) (seen : EvidenceStore) (cs : List Collector)
      (store : EvidenceStore)
      → Kept kind expected store
      → Kept kind
          (expected || any (declares kind) cs)
          (add_results py behaviour context seen cs store)
  unfolding add_results
  add_results-Kept kind expected seen [] store h = none_more kind expected store h
  add_results-Kept kind expected seen (c ∷ cs) store h =
      rw (sym (or_assoc expected (declares kind c) (any (declares kind) cs))) (
        add_results-Kept kind (expected || declares kind c) seen cs
          (extend (run_collector py behaviour context seen c) store)
          (extend-Kept kind expected (declares kind c) (run_collector py behaviour context seen c)
            store (run_collector-AllNamed seen c) (covers-run_collector kind seen c) h))

  add_skipped-Kept :
      (kind : String) (expected : Bool) (cs : List Collector) (store : EvidenceStore)
      → Kept kind expected store
      → Kept kind (expected || any (declares kind) cs) (add_skipped py behaviour context cs store)
  unfolding add_skipped
  add_skipped-Kept kind expected [] store h = none_more kind expected store h
  add_skipped-Kept kind expected (c ∷ cs) store h =
      rw (sym (or_assoc expected (declares kind c) (any (declares kind) cs))) (
        add_skipped-Kept kind (expected || declares kind c) cs
          (extend (skipped_evidence c context store) store)
          (extend-Kept kind expected (declares kind c) (skipped_evidence c context store) store
            (bare_all-AllNamed c.provides _ _ c) (λ e. inl (covers-bare_all kind _ _ c e)) h))

  collect_wave-Kept :
      (kind : String) (expected : Bool) (wave : List Collector) (store : EvidenceStore)
      → Kept kind expected store
      → Kept kind
          (expected || any (declares kind) wave)
          (collect_wave py behaviour context wave store)
  unfolding collect_wave
  collect_wave-Kept kind expected wave store h =
      let applies = runs py behaviour context store in
      let skipped = keep (λ c. not (applies c)) wave in
      let prepared = add_skipped py behaviour context skipped store in
      rw
        (
          sym (any_split (declares kind) applies wave),
          sym (
              or_assoc expected (any (declares kind) skipped)
                (any (declares kind) (keep applies wave))),
        )
        (add_results-Kept kind (expected || any (declares kind) skipped) prepared
          (keep applies wave) prepared (add_skipped-Kept kind expected skipped store h))

  -- What some waves come to: a store, or a collector of one of them whose test raised.
  abbrev Gathered : String → Bool → List (List Pending) → Result Collector EvidenceStore → Type 0
  Gathered kind expected waves (ok store) =
      Kept kind (expected || any_wave (declares kind) waves) store
  Gathered kind expected waves (raised c) =
      (any_wave (λ x. x.id == c.id) waves ≡ true)
      × ((seen : EvidenceStore) × ((behaviour c).applicable seen ≡ none))

  later :
      (kind : String) (expected : Bool) (wave : List Pending) (waves : List (List Pending))
      (result : Result Collector EvidenceStore)
      → Gathered kind (expected || any (declares kind) (map (λ q. q.collector) wave)) waves result
      → Gathered kind expected (wave ∷ waves) result
  later kind expected wave waves (ok store) h =
      rw
        (sym (
          or_assoc expected (any (declares kind) (map (λ q. q.collector) wave))
            (any_wave (declares kind) waves)))
        h
  later kind expected wave waves (raised c) (member, r) = (ground (arith, member), r)

  run_waves-Gathered :
      (kind : String) (expected : Bool) (waves : List (List Pending)) (store : EvidenceStore)
      → Kept kind expected store
      → Gathered kind expected waves (run_waves py behaviour context waves store)
  unfolding run_waves run_wave
  run_waves-Gathered kind expected [] store h = none_more kind expected store h
  run_waves-Gathered kind expected (wave ∷ waves) store h =
      let members = collectors_of py behaviour context wave in
      elim (Option-cases (raiser py behaviour context store members)) [
        | inr (c, e) ↦
            let found = raiser_lem py behaviour context store members c e in
            rw (e, Gathered) (ground (arith, found.0), (store, found.1))
        | inl e ↦
            rw (e, Gathered)
              (later kind expected wave waves _ (
                run_waves-Gathered kind (expected || any (declares kind) members) waves
                  (collect_wave py behaviour context members store)
                  (collect_wave-Kept kind expected members store h)))
      ]

  delivered :
      (kind : String) (collectors : List Collector) (waves : List (List Pending))
      (store : EvidenceStore) (result : Result Collector EvidenceStore)
      → ((p : Collector → Bool) → any_wave p waves ≡ any p collectors)
      → Gathered kind (is_recorded kind store.items) waves result
      → IsDelivered behaviour kind collectors store (some (run_result result))
  delivered kind collectors waves store (ok final) all (n, inr o) = inr o
  delivered kind collectors waves store (ok final) all (n, inl r) =
      inl (ground (arith, r, all (declares kind)))
  delivered kind collectors waves store (raised c) all (member, r) =
      (sym (all (λ x. x.id == c.id)) ∙ member, r)

  finish-IsDelivered :
      (kind : String) (collectors : List Collector) (pending : List Pending) (waves : Waves)
      (store : EvidenceStore)
      → resolve (ids_with_status (statuses store)) collectors ≡ waves
      → map (λ p. p.collector) pending ≡ collectors
      → IsResolved pending [] waves
      → IsNamedStore named store.items
      → IsDelivered behaviour kind collectors store (finish py behaviour context waves store)
  finish-IsDelivered kind collectors pending none store e same h n = h
  finish-IsDelivered kind collectors pending (some (raised g)) store e same h n = e
  finish-IsDelivered kind collectors pending (some (ok waves)) store e same h n =
      let recorded = is_recorded kind store.items in
      let all : (p : Collector → Bool) → any_wave p waves ≡ any p collectors = λ p.
        any_wave-count p waves
        ∙ ap (leb 1) (h.1 (λ q. p q.collector))
        ∙ sym (any-collectors p pending)
        ∙ ap (any p) same in
      delivered kind collectors waves store (run_waves py behaviour context waves store) all
        (run_waves-Gathered kind recorded waves store (n, inl (ground arith)))

  resolved-IsDelivered :
      (kind : String) (collectors : List Collector) (store : EvidenceStore)
      (pending : Result GraphError (List Pending))
      → pending_all (ids_with_status (statuses store)) collectors collectors ≡ pending
      → CollectorsIn pending collectors
      → IsNamedStore named store.items
      → IsDelivered behaviour kind collectors store (run py behaviour context collectors store)
  unfolding run
  resolved-IsDelivered kind collectors store (raised e) p same n =
      let refused = resolve-raised (ids_with_status (statuses store)) collectors e p in
      rw (refused, run) refused
  resolved-IsDelivered kind collectors store (ok pending) p same n =
      let available = ids_with_status (statuses store) in
      finish-IsDelivered kind collectors pending (resolve available collectors) store refl same
        (resolve-IsResolved available collectors pending p) n

  -- A run always ends, whatever collectors are skipped, fail, time out or never get time. Either it
  -- raises, since the registry refuses the graph or since the test of one of the collectors whether
  -- it applies raises; or the store that is left holds a record of every kind that a collector
  -- declares and of every kind that was recorded before, except for a kind that a collector declares
  -- and omits from the records that it returns without an error. It is assumed that the id of every
  -- record names its kind: in the store at the start, in what is collected, and in the records that
  -- stand for what is missing.
  pub run-IsDelivered :
      (kind : String) (collectors : List Collector) (store : EvidenceStore)
      → IsNamedStore named store.items
      → IsDelivered behaviour kind collectors store (run py behaviour context collectors store)
  run-IsDelivered kind collectors store n =
      resolved-IsDelivered kind collectors store
        (pending_all (ids_with_status (statuses store)) collectors collectors) refl
        (pending_all-collectors (ids_with_status (statuses store)) collectors collectors) n
