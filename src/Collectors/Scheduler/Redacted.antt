-- ===== src/Collectors/Scheduler/Redacted.antt =====
-- What a run of the scheduler stores: payloads in which every sensitive key is masked.
use ai_kubernetes_troublesho.Prelude.{
  ℕ, ◌≡◌, refl, String, Bool, true, not, ◌&&◌, ◌||◌, Option, none, some, List, [], ◌∷◌, arith, ◌==◌,
  string_eq, nat_eq, map, keep, if◌then◌else◌, Bool-cases, Option-cases, inl, inr, some_inj,
}
use ai_kubernetes_troublesho.Prelude.Exec.{Result, ok, raised}
use ai_kubernetes_troublesho.Prelude.Dict.{Dict, get, put}
use ai_kubernetes_troublesho.Prelude.Sort.{sorted}
use ai_kubernetes_troublesho.Evidence.{
  Evidence, EvidenceStatus, EvidenceStore, add, add_new, extend, bare, statuses,
}
use ai_kubernetes_troublesho.Evidence.Redactor.{PyText, Json}
use ai_kubernetes_troublesho.Evidence.Masked.{payload_masked, redact-masked}
use ai_kubernetes_troublesho.Collectors.{Collector, Pending, Waves, resolve}
use ai_kubernetes_troublesho.Collectors.Scheduler.{
  collected, timed_out, failed_with, Outcome, Behaviour, Context, text_leb, bare_all,
  skipped_evidence, sanitize, clean, evidence_of, run_collector, add_skipped, add_results,
  collectors_of, run_wave, run_waves, finish, run, runs, raiser, collect_wave, run_result,
  timeout_for_next, ids_with_status, earlier,
}

module _ (py : PyText) where
  abbrev pub all_payloads_masked : List Evidence → Bool
  all_payloads_masked [] = true
  all_payloads_masked (e ∷ items) = payload_masked py e.payload && all_payloads_masked items

  abbrev pub store_masked : Dict String Evidence → Bool
  store_masked [] = true
  store_masked ((id, e) ∷ items) = payload_masked py e.payload && store_masked items

  -- Every record that is already flagged as redacted is masked.
  abbrev pub flags_hold : List Evidence → Bool
  flags_hold [] = true
  flags_hold (e ∷ items) = (not e.redacted || payload_masked py e.payload) && flags_hold items

  masked-put :
      (e : Evidence) (items : Dict String Evidence)
      → payload_masked py e.payload ≡ true
      → store_masked items ≡ true
      → store_masked (put e.id e items) ≡ true
  unfolding put
  masked-put e [] m h = ground (arith, m)
  masked-put e ((other, old) ∷ items) m h = ground (arith, masked-put e items)

  masked-add_new :
      (found : Option Evidence) (e : Evidence) (store : EvidenceStore)
      → payload_masked py e.payload ≡ true
      → store_masked store.items ≡ true
      → store_masked (add_new found e store).items ≡ true
  masked-add_new none e store m h = masked-put e store.items m h
  masked-add_new (some old) e store m h = h

  masked-extend :
      (items : List Evidence) (store : EvidenceStore)
      → all_payloads_masked items ≡ true
      → store_masked store.items ≡ true
      → store_masked (extend items store).items ≡ true
  unfolding extend add
  masked-extend [] store m h = h
  masked-extend (e ∷ items) store m h =
      masked-extend items (add e store) (ground arith)
        (masked-add_new (get e.id store.items) e store (ground arith) h)

  masked-bare :
      (kinds : List String) (status : EvidenceStatus) (detail : String) (c : Collector)
      (context : Context)
      → all_payloads_masked
          (map (λ kind. bare kind status context.cluster detail c.id context.now) kinds)
        ≡ true
  unfolding bare
  masked-bare [] status detail c context = refl
  masked-bare (kind ∷ kinds) status detail c context = masked-bare kinds status detail c context

  masked-clean :
      (payload : Option Json) (e : Evidence)
      → e.payload ≡ payload
      → (not e.redacted || payload_masked py e.payload) ≡ true
      → payload_masked py (clean py payload e).payload ≡ true
  masked-clean none e p h = rw p refl
  masked-clean (some value) e p h = elim (Bool-cases e.redacted) [
    | inl q ↦ ground (arith, q)
    | inr q ↦ rw q (redact-masked py value)
  ]

  masked-sanitize :
      (duration : ℕ) (oldest : Option ℕ) (items : List Evidence)
      → flags_hold items ≡ true
      → all_payloads_masked (map (sanitize py duration oldest) items) ≡ true
  masked-sanitize duration oldest [] h = refl
  masked-sanitize duration oldest (e ∷ items) h =
      let own =
        masked-clean e.payload
          (record e {
            duration_ms = if e.duration_ms == 0 then duration else e.duration_ms;
            collected_at = earlier oldest e.collected_at;
          })
          refl (ground arith) in
      let rest = masked-sanitize duration oldest items (ground arith) in rw (own, rest) refl

  module _ (behaviour : Collector → Behaviour) (context : Context)
      (flagged : (c : Collector) (store : EvidenceStore) (items : List Evidence)
        → (behaviour c).collect store ≡ collected items
        → flags_hold items ≡ true) where
    masked-bare_all :
        (kinds : List String) (status : EvidenceStatus) (detail : String) (c : Collector)
        → all_payloads_masked (bare_all kinds status detail c context) ≡ true
    unfolding bare_all
    masked-bare_all kinds status detail c =
        masked-bare (sorted text_leb kinds) status detail c context

    masked-evidence_of :
        (outcome : Outcome) (c : Collector) (store : EvidenceStore)
        → (behaviour c).collect store ≡ outcome
        → all_payloads_masked (evidence_of py behaviour context outcome c) ≡ true
    masked-evidence_of (collected items) c store e =
        masked-sanitize (behaviour c).duration_ms (behaviour c).oldest items
          (flagged c store items e)
    masked-evidence_of timed_out c store e = masked-bare_all c.provides _ _ c
    masked-evidence_of (failed_with reason) c store e = masked-bare_all c.provides _ _ c

    masked-run_collector :
        (store : EvidenceStore) (c : Collector)
        → all_payloads_masked (run_collector py behaviour context store c) ≡ true
    unfolding run_collector
    masked-run_collector store c = elim (Bool-cases (timeout_for_next context c == 0)) [
      | inl p ↦ rw p (masked-bare_all c.provides _ _ c)
      | inr p ↦ rw p (masked-evidence_of ((behaviour c).collect store) c store refl)
    ]

    masked-add_skipped :
        (cs : List Collector) (store : EvidenceStore)
        → store_masked store.items ≡ true
        → store_masked (add_skipped py behaviour context cs store).items ≡ true
    unfolding add_skipped
    masked-add_skipped [] store h = h
    masked-add_skipped (c ∷ cs) store h =
        masked-add_skipped cs (extend (skipped_evidence c context store) store) (
          masked-extend (skipped_evidence c context store) store (masked-bare_all c.provides _ _ c)
            h)

    masked-add_results :
        (seen : EvidenceStore) (cs : List Collector) (store : EvidenceStore)
        → store_masked store.items ≡ true
        → store_masked (add_results py behaviour context seen cs store).items ≡ true
    unfolding add_results
    masked-add_results seen [] store h = h
    masked-add_results seen (c ∷ cs) store h =
        masked-add_results seen cs (extend (run_collector py behaviour context seen c) store) (
          masked-extend (run_collector py behaviour context seen c) store
            (masked-run_collector seen c) h)

    -- the store that some waves leave, where they leave one
    abbrev LeavesMasked : Result Collector EvidenceStore → Type 0
    LeavesMasked (ok store) = store_masked store.items ≡ true
    LeavesMasked (raised c) = Unit

    masked-collect_wave :
        (wave : List Collector) (store : EvidenceStore)
        → store_masked store.items ≡ true
        → store_masked (collect_wave py behaviour context wave store).items ≡ true
    unfolding collect_wave
    masked-collect_wave wave store h =
        let applies = runs py behaviour context store in
        let skipped = keep (λ c. not (applies c)) wave in
        let prepared = add_skipped py behaviour context skipped store in
        masked-add_results prepared (keep applies wave) prepared
          (masked-add_skipped skipped store h)

    masked-run_waves :
        (waves : List (List Pending)) (store : EvidenceStore)
        → store_masked store.items ≡ true
        → LeavesMasked (run_waves py behaviour context waves store)
    unfolding run_waves run_wave
    masked-run_waves [] store h = h
    masked-run_waves (wave ∷ waves) store h =
        let members = collectors_of py behaviour context wave in
        elim (Option-cases (raiser py behaviour context store members)) [
          | inr (c, e) ↦ rw (e, LeavesMasked) tt
          | inl e ↦
              rw (e, LeavesMasked)
                (masked-run_waves waves (collect_wave py behaviour context members store)
                  (masked-collect_wave members store h))
        ]

    masked_result :
        (result : Result Collector EvidenceStore) (final : EvidenceStore)
        → run_result result ≡ ok final
        → LeavesMasked result
        → store_masked final.items ≡ true
    masked_result (ok store) final e h = ground (arith, e, h)
    masked_result (raised c) final e h = ground arith

    masked-finish :
        (waves : Waves) (store final : EvidenceStore)
        → finish py behaviour context waves store ≡ some (ok final)
        → store_masked store.items ≡ true
        → store_masked final.items ≡ true
    masked-finish none store final e h = ground arith
    masked-finish (some (raised g)) store final e h = ground arith
    masked-finish (some (ok waves)) store final e h =
        masked_result (run_waves py behaviour context waves store) final (some_inj _ _ e)
          (masked-run_waves waves store h)

    -- In every store that a run leaves, no payload has a value other than the mark under a
    -- sensitive key, at any depth. It is assumed that this holds of the store at the start, and of
    -- each record that a collector returns with its `redacted` flag already set.
    pub run-masked :
        (collectors : List Collector) (store final : EvidenceStore)
        → run py behaviour context collectors store ≡ some (ok final)
        → store_masked store.items ≡ true
        → store_masked final.items ≡ true
    unfolding run
    run-masked collectors store final e h =
        masked-finish (resolve (ids_with_status (statuses store)) collectors) store final e h
