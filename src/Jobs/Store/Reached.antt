-- ===== src/Jobs/Store/Reached.antt =====
-- What the in-process job store can become, by its operations in any order, those of its streams
-- included, where no two calls of the store overlap.
use ai_kubernetes_troublesho.Prelude.{
  ℕ, ◌≡◌, refl, true, String, Option, none, some, [], ◌∷◌, string_eq, inl, inr, Option-cases,
}
use ai_kubernetes_troublesho.Prelude.Dict.{get}
use ai_kubernetes_troublesho.Jobs.Models.{JobEvent, InvestigationJob, JobEventType}
use ai_kubernetes_troublesho.Jobs.Sequencer.Merge.{Numbered}
use ai_kubernetes_troublesho.Jobs.Store.{
  Store, publish, create, mark_running, mark_succeeded, mark_failed, mark_cancelled, request_cancel,
  on_cancel, running, succeeded, failed, stopped, new_event,
}
use ai_kubernetes_troublesho.Jobs.Store.Subscriber.{
  Subscription, Phase, begin, advance, advance_phase, finish,
}
use ai_kubernetes_troublesho.Jobs.Store.Log.{
  IsLogged, Logged-at, publish-IsLogged, create-IsLogged, transition-IsLogged, settle-IsLogged,
  put_job-IsLogged,
}

abbrev pub empty_store : {J : Type 0} → ℕ → Store J
empty_store max_jobs = record {
  max_jobs = max_jobs;
  jobs = [];
  subscribers = [];
  sequences = [];
  cancel_listeners = [];
}

-- The id of a new job is one that no job has.
pub data Reached (J : Type 0) : Store J → Type 0 where
  started : (max_jobs : ℕ) → Reached J (empty_store max_jobs)
  created :
      {store : Store J} (id : String) (request : J) (owner : String) (principal : Option J)
      (now : ℕ)
      → get id store.jobs ≡ none
      → Reached J store
      → Reached J (create id request owner principal now store)
  published :
      {store : Store J} (id : String) (event : JobEvent J)
      → Reached J store
      → Reached J (publish id event store)
  ran :
      {store : Store J} (id : String) (now : ℕ)
      → Reached J store
      → Reached J (mark_running id now store)
  succeeded_at :
      {store : Store J} (id : String) (result : J) (now : ℕ)
      → Reached J store
      → Reached J (mark_succeeded id result now store)
  failed_at :
      {store : Store J} (id error : String) (result : Option J) (now : ℕ)
      → Reached J store
      → Reached J (mark_failed id error result now store)
  cancelled_at :
      {store : Store J} (id : String) (now : ℕ)
      → Reached J store
      → Reached J (mark_cancelled id now store)
  asked : {store : Store J} (id : String) → Reached J store → Reached J (request_cancel id store).2
  listened :
      {store : Store J} (listener : String) → Reached J store → Reached J (on_cancel listener store)
  streamed :
      {store : Store J} (subscriber : ℕ) (id : String) (after_seq : ℕ)
      → Reached J store
      → Reached J (begin subscriber id after_seq store).1
  advanced :
      {store : Store J} (sub : Subscription J) → Reached J store → Reached J (advance sub store).2
  left : {store : Store J} (sub : Subscription J) → Reached J store → Reached J (finish sub store)

request_cancel-IsLogged :
    {J : Type 0} (id : String) (store : Store J)
    → IsLogged store
    → IsLogged (request_cancel id store).2
unfolding request_cancel
request_cancel-IsLogged id store h = elim (Option-cases (get id store.jobs)) [
  | inl e ↦ rw (e, request_cancel) h
  | inr (job, e) ↦
      rw (e, request_cancel)
        (put_job-IsLogged id (record job { cancel_requested = true }) store h
          (Logged-at id (some job) store h e))
]

begin-IsLogged :
    {J : Type 0} (subscriber : ℕ) (id : String) (after : ℕ) (store : Store J)
    → IsLogged store
    → IsLogged (begin subscriber id after store).1
unfolding begin
begin-IsLogged subscriber id after store h = elim (Option-cases (get id store.jobs)) [
  | inl e ↦ rw (e, begin) h
  | inr (job, e) ↦ rw (e, begin) h
]

advance_phase-IsLogged :
    {J : Type 0} (phase : Phase J) (sub : Subscription J) (store : Store J)
    → IsLogged store
    → IsLogged (advance_phase phase sub store).2
advance_phase-IsLogged (Phase.replaying (event ∷ events)) sub store h = h
advance_phase-IsLogged (Phase.replaying []) sub store h = h
advance_phase-IsLogged Phase.live sub store h = h
advance_phase-IsLogged Phase.returned sub store h = h

finish-IsLogged :
    {J : Type 0} (sub : Subscription J) (store : Store J)
    → IsLogged store
    → IsLogged (finish sub store)
unfolding finish
finish-IsLogged sub store h = elim (Option-cases (get sub.job_id store.subscribers)) [
  | inl e ↦ rw (e, finish) h
  | inr (queues, e) ↦ rw (e, finish) h
]

pub reached-IsLogged : {J : Type 0} (store : Store J) → Reached J store → IsLogged store
unfolding get mark_running mark_succeeded mark_failed mark_cancelled on_cancel advance
reached-IsLogged _ (Reached.started max_jobs) = λ id. tt
reached-IsLogged _ (Reached.created {store} id request owner principal now fresh r) =
    create-IsLogged id request owner principal now store (reached-IsLogged store r) fresh
reached-IsLogged _ (Reached.published {store} id event r) =
    publish-IsLogged id event store (reached-IsLogged store r)
reached-IsLogged _ (Reached.ran {store} id now r) =
    transition-IsLogged id (running now)
      (new_event now JobEventType.started "Investigation started") (λ job. refl) store
      (reached-IsLogged store r)
reached-IsLogged _ (Reached.succeeded_at {store} id result now r) =
    settle-IsLogged id (succeeded result now)
      (new_event now JobEventType.completed "Investigation complete") (λ job. refl) store
      (reached-IsLogged store r)
reached-IsLogged _ (Reached.failed_at {store} id error result now r) =
    settle-IsLogged id (failed error result now) (new_event now JobEventType.failed error)
      (λ job. refl) store (reached-IsLogged store r)
reached-IsLogged _ (Reached.cancelled_at {store} id now r) =
    settle-IsLogged id (stopped now)
      (new_event now JobEventType.cancelled "Investigation cancelled") (λ job. refl) store
      (reached-IsLogged store r)
reached-IsLogged _ (Reached.asked {store} id r) =
    request_cancel-IsLogged id store (reached-IsLogged store r)
reached-IsLogged _ (Reached.listened {store} listener r) = reached-IsLogged store r
reached-IsLogged _ (Reached.streamed {store} subscriber id after r) =
    begin-IsLogged subscriber id after store (reached-IsLogged store r)
reached-IsLogged _ (Reached.advanced {store} sub r) =
    advance_phase-IsLogged sub.phase sub store (reached-IsLogged store r)
reached-IsLogged _ (Reached.left {store} sub r) =
    finish-IsLogged sub store (reached-IsLogged store r)

-- In a store that was reached by calls that do not overlap, the events of a job are numbered from 1
-- without a gap, in the order of their publication.
events-Numbered :
    {J : Type 0} (store : Store J) (id : String) (job : InvestigationJob J)
    → Reached J store
    → get id store.jobs ≡ some job
    → Numbered 1 job.events
events-Numbered store id job r e = (Logged-at id (some job) store (reached-IsLogged store r) e).1
