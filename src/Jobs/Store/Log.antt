-- ===== src/Jobs/Store/Log.antt =====
-- The logs of the in-process job store, over every sequence of its operations.
use std.Path.{subst}
use ai_kubernetes_troublesho.Prelude.{
  ℕ, suc, ◌+◌, ◌≡◌, refl, String, Option, none, some, List, [], ◌∷◌, ◌++◌, arith, length,
  length-append, ◌==◌, string_eq, eq_iff, Option-cases, Bool-cases, inl, inr, take, leb, ◌-◌,
}
use ai_kubernetes_troublesho.Prelude.Dict.{get, put, remove, get-put, get-remove}
use ai_kubernetes_troublesho.Jobs.Models.{JobEvent, InvestigationJob, JobEventType}
use ai_kubernetes_troublesho.Jobs.Sequencer.Merge.{Numbered}
use ai_kubernetes_troublesho.Jobs.Store.{
  Store, or_zero, new_event, record_event, publish, close, evict_jobs, evict, terminal_jobs,
  new_job, create, transition, settle,
}

-- What is kept under one id: an absent job has no counter, a job's counter is the length of its
-- log.
abbrev pub Logged : {J : Type 0} → Option (InvestigationJob J) → Option ℕ → Type 0
Logged none none = Unit
Logged none (some n) = ⊥
Logged (some job) sequence = (or_zero sequence ≡ length job.events) × Numbered 1 job.events

-- Every log of the store.
abbrev pub IsLogged : {J : Type 0} → Store J → Type 0
IsLogged store = (id : String) → Logged (get id store.jobs) (get id store.sequences)

pub Logged-at :
    {J : Type 0} (id : String) (found : Option (InvestigationJob J)) (store : Store J)
    → IsLogged store
    → get id store.jobs ≡ found
    → Logged found (get id store.sequences)
Logged-at id found store h e = subst (λ o. Logged o (get id store.sequences)) e (h id)

snoc-Numbered :
    {J : Type 0} (n : ℕ) (events : List (JobEvent J)) (event : JobEvent J)
    → Numbered n events
    → event.seq ≡ n + length events
    → Numbered n (events ++ (event ∷ []))
snoc-Numbered n [] event h e = (omega arith, tt)
snoc-Numbered n (x ∷ events) event h e = (h.0, snoc-Numbered (suc n) events event h.1 (omega arith))

-- One id, after its entry and its counter were set, or left alone.
Logged-put :
    {J : Type 0} (job_id id : String) (job : InvestigationJob J) (n : ℕ) (store : Store J)
    → IsLogged store
    → Logged (some job) (some n)
    → Logged (get id (put job_id job store.jobs)) (get id (put job_id n store.sequences))
Logged-put job_id id job n store h new =
    let old = h id in
    rw (get-put job_id id job store.jobs, get-put job_id id n store.sequences)
      elim (Bool-cases (job_id == id)) [ inl e ↦ rw e new | inr e ↦ rw e old ]

record_event-IsLogged :
    {J : Type 0} (job_id : String) (event : JobEvent J) (job : InvestigationJob J) (store : Store J)
    → IsLogged store
    → Logged (some job) (get job_id store.sequences)
    → IsLogged (record_event job_id event job store)
record_event-IsLogged job_id event job store h own id =
    let sequence = or_zero (get job_id store.sequences) + 1 in
    let numbered = record event { seq = sequence } in
    Logged-put job_id id (record job { events = job.events ++ (numbered ∷ []) }) sequence store h
      (
        omega (arith, own.0, length-append job.events (numbered ∷ [])),
        snoc-Numbered 1 job.events numbered own.1 (omega (arith, own.0)),
      )

pub publish-IsLogged :
    {J : Type 0} (job_id : String) (event : JobEvent J) (store : Store J)
    → IsLogged store
    → IsLogged (publish job_id event store)
unfolding publish
publish-IsLogged job_id event store h = elim (Option-cases (get job_id store.jobs)) [
  | inl e ↦ rw (e, publish) h
  | inr (job, e) ↦
      let own : Logged (some job) (get job_id store.sequences) =
        Logged-at job_id (some job) store h e in
      rw (e, publish) (record_event-IsLogged job_id event job store h own)
]

remove-Logged :
    {J : Type 0} (job_id id : String) (store : Store J)
    → IsLogged store
    → Logged (get id (remove job_id store.jobs)) (get id (remove job_id store.sequences))
remove-Logged job_id id store h =
    let old = h id in
    rw (get-remove job_id id store.jobs, get-remove job_id id store.sequences)
      elim (Bool-cases (job_id == id)) [ inl e ↦ rw e tt | inr e ↦ rw e old ]

evict_jobs-IsLogged :
    {J : Type 0} (jobs : List (InvestigationJob J)) (store : Store J)
    → IsLogged store
    → IsLogged (evict_jobs jobs store)
unfolding evict_jobs
evict_jobs-IsLogged [] store h = h
evict_jobs-IsLogged (job ∷ jobs) store h =
    evict_jobs-IsLogged jobs
      record store {
        jobs = remove job.id store.jobs;
        subscribers = remove job.id store.subscribers;
        sequences = remove job.id store.sequences;
      }
      (λ id. remove-Logged job.id id store h)

evict-IsLogged : {J : Type 0} (store : Store J) → IsLogged store → IsLogged (evict store)
unfolding evict
evict-IsLogged store h =
    let excess = length store.jobs - store.max_jobs in
    let evicted = evict_jobs-IsLogged (take excess (terminal_jobs store)) store h in
    elim (Bool-cases (leb (length store.jobs) store.max_jobs)) [
      | inl e ↦ rw (e, evict) h
      | inr e ↦ rw (e, evict) evicted
    ]

-- One entry is set and its counter is left alone.
pub put_job-IsLogged :
    {J : Type 0} (job_id : String) (job : InvestigationJob J) (store : Store J)
    → IsLogged store
    → Logged (some job) (get job_id store.sequences)
    → IsLogged (record store { jobs = put job_id job store.jobs })
put_job-IsLogged job_id job store h own id =
    let old = h id in
    rw (get-put job_id id job store.jobs) elim (Bool-cases (job_id == id)) [
      | inl e ↦
          let same : job_id ≡ id = (eq_iff job_id id).0 e in
          rw e (subst (λ i. Logged (some job) (get i store.sequences)) same own)
      | inr e ↦ rw e old
    ]

vacant-Logged :
    {J : Type 0} (job : InvestigationJob J) (sequence : Option ℕ)
    → Logged {J = J} none sequence
    → job.events ≡ []
    → Logged (some job) sequence
vacant-Logged job none h e = rw e (refl, tt)
vacant-Logged job (some n) h e = absurd h

pub create-IsLogged :
    {J : Type 0} (id : String) (request : J) (owner : String) (principal : Option J) (now : ℕ)
    (store : Store J)
    → IsLogged store
    → get id store.jobs ≡ none
    → IsLogged (create id request owner principal now store)
unfolding create
create-IsLogged {J = J} id request owner principal now store h fresh =
    let job = new_job id request owner principal now in
    let stored = record store { jobs = put id job store.jobs } in
    let vacant : Logged {J = J} none (get id store.sequences) = Logged-at id none store h fresh in
    publish-IsLogged id (new_event now JobEventType.queued "Investigation queued") (evict stored) (
      evict-IsLogged stored
        (put_job-IsLogged id job store h (vacant-Logged job (get id store.sequences) vacant refl)))

module _ {J : Type 0} (job_id : String) (change : InvestigationJob J → InvestigationJob J)
    (event : JobEvent J)
    (kept : (job : InvestigationJob J) → (change job).events ≡ job.events) where
  pub transition-IsLogged :
      (store : Store J) → IsLogged store → IsLogged (transition job_id change event store)
  transition-IsLogged store h = elim (Option-cases (get job_id store.jobs)) [
    | inl e ↦ rw (e, transition) h
    | inr (job, e) ↦
        let own : Logged (some job) (get job_id store.sequences) =
          Logged-at job_id (some job) store h e in
        rw (e, transition)
          (publish-IsLogged job_id event
            (record store { jobs = put job_id (change job) store.jobs })
            (put_job-IsLogged job_id (change job) store h (rw (kept job) own)))
  ]

  pub settle-IsLogged :
      (store : Store J) → IsLogged store → IsLogged (settle job_id change event store)
  unfolding close
  settle-IsLogged store h = elim (Option-cases (get job_id store.jobs)) [
    | inl e ↦ rw (e, settle) h
    | inr (job, e) ↦ rw (e, settle) (transition-IsLogged store h)
  ]
