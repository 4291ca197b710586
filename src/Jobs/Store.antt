-- ===== src/Jobs/Store.antt =====
-- backend/app/jobs/store.py: `InMemoryJobStore`. A method is modelled as a call with no other call
-- of the store between its statements. So it is where the event loop makes the calls; the progress
-- reports of a job call `publish` from other threads, which nothing in the store keeps apart, and
-- reports that overlap are not modelled. A new job's id (`uuid4`) and the time are arguments. A queue is named by its subscriber, and
-- its `None` is the end of the feed; `asyncio.Queue` is modelled by its bound and its order. A
-- cancellation listener is a name, and the calls of listeners are returned.
pub mod Log
pub mod Subscriber
pub mod Reached
use ai_kubernetes_troublesho.Prelude.{
  ℕ, ◌+◌, ◌-◌, String, Bool, true, false, not, ◌||◌, Option, none, some, List, [], ◌∷◌, ◌++◌, map,
  ltb, leb, ◌==◌, string_eq, length, keep, take, if◌then◌else◌,
}
use ai_kubernetes_troublesho.Prelude.Dict.{Dict, get, put, remove}
use ai_kubernetes_troublesho.Prelude.Sort.{sorted}
use ai_kubernetes_troublesho.Jobs.Models.{
  JobStatus, terminal, JobEventType, JobEvent, InvestigationJob, or_else,
}

-- `DEFAULT_MAX_JOBS` and `SUBSCRIBER_QUEUE_SIZE`
abbrev pub default_max_jobs : ℕ
default_max_jobs = 100

abbrev pub subscriber_queue_size : ℕ
subscriber_queue_size = 256

pub record Queue (J : Type 0) : Type 0 where
  pub subscriber : ℕ
  pub items : List (Option (JobEvent J))

pub record Store (J : Type 0) : Type 0 where
  pub max_jobs : ℕ
  pub jobs : Dict String (InvestigationJob J)
  pub subscribers : Dict String (List (Queue J))
  pub sequences : Dict String ℕ
  pub cancel_listeners : List String

-- `d.get(k, [])` and `d.get(k, 0)`
abbrev pub or_empty {ℓ} : {A : Type ℓ} → Option (List A) → List A
or_empty none = []
or_empty (some xs) = xs

abbrev pub or_zero : Option ℕ → ℕ
or_zero none = 0
or_zero (some n) = n

-- `d.values()`
abbrev pub values {ℓ κ} : {K : Type ℓ} {V : Type κ} → Dict K V → List V
values d = map (λ entry. entry.1) d

module _ {J : Type 0} where
  abbrev pub new_event : ℕ → JobEventType → String → JobEvent J
  new_event now type message = record {
    type = type;
    message = message;
    at = now;
    body = none;
    seq = 0;
  }

  -- `queue.put_nowait`: a full queue loses the item
  abbrev pub offer : Option (JobEvent J) → Queue J → Queue J
  offer item queue =
      if ltb (length queue.items) subscriber_queue_size
      then record queue { items = queue.items ++ (item ∷ []) }
      else queue

  abbrev offer_all : Option (JobEvent J) → Option (List (Queue J)) → List (Queue J)
  offer_all item queues = map (offer item) (or_empty queues)

  -- what the queues of a job become; no entry is made for a job that has none
  abbrev pub fan_out :
      String → Option (JobEvent J) → Dict String (List (Queue J)) → Dict String (List (Queue J))
  fan_out job_id item subscribers = elim (get job_id subscribers) [
    | none ↦ subscribers
    | some queues ↦ put job_id (map (offer item) queues) subscribers
  ]

  -- `publish` to a job that is there, and `publish`
  abbrev pub record_event : String → JobEvent J → InvestigationJob J → Store J → Store J
  record_event job_id event job store =
      let sequence = or_zero (get job_id store.sequences) + 1 in
      let numbered = record event { seq = sequence } in
      record store {
        jobs = put job_id (record job { events = job.events ++ (numbered ∷ []) }) store.jobs;
        sequences = put job_id sequence store.sequences;
        subscribers = fan_out job_id (some numbered) store.subscribers;
      }

  unfoldable pub publish : String → JobEvent J → Store J → Store J
  publish job_id event store = elim (get job_id store.jobs) [
    | none ↦ store
    | some job ↦ record_event job_id event job store
  ]

  -- `_close`
  unfoldable pub close : String → Store J → Store J
  close job_id store = record store { subscribers = fan_out job_id none store.subscribers }

  -- `_evict`: the terminal jobs, longest finished first, until the bound is kept
  abbrev pub finished_before : InvestigationJob J → InvestigationJob J → Bool
  finished_before a b =
      leb (or_else a.finished_at a.created_at) (or_else b.finished_at b.created_at)

  unfoldable pub evict_jobs : List (InvestigationJob J) → Store J → Store J
  evict_jobs [] store = store
  evict_jobs (job ∷ jobs) store = evict_jobs jobs record store {
    jobs = remove job.id store.jobs;
    subscribers = remove job.id store.subscribers;
    sequences = remove job.id store.sequences;
  }

  abbrev pub terminal_jobs : Store J → List (InvestigationJob J)
  terminal_jobs store =
      sorted finished_before (keep (λ job. terminal job.status) (values store.jobs))

  unfoldable pub evict : Store J → Store J
  evict store =
      if leb (length store.jobs) store.max_jobs
      then store
      else evict_jobs (take (length store.jobs - store.max_jobs) (terminal_jobs store)) store

  abbrev pub new_job : String → J → String → Option J → ℕ → InvestigationJob J
  new_job id request owner principal now = record {
    id = id;
    request = request;
    owner = owner;
    principal = principal;
    cancel_requested = false;
    status = JobStatus.pending;
    events = [];
    result = none;
    error = "";
    created_at = now;
    started_at = none;
    finished_at = none;
  }

  unfoldable pub create : String → J → String → Option J → ℕ → Store J → Store J
  create id request owner principal now store =
      let stored = record store {
        jobs = put id (new_job id request owner principal now) store.jobs;
      } in
      publish id (new_event now JobEventType.queued "Investigation queued") (evict stored)

  unfoldable pub fetch : String → Store J → Option (InvestigationJob J)
  fetch job_id store = get job_id store.jobs

  unfoldable pub get_summary : String → Store J → Option (InvestigationJob J)
  get_summary job_id store = elim (get job_id store.jobs) [
    | none ↦ none
    | some job ↦ some (record job { result = none })
  ]

  -- `list`: newest first. No owner stands for every owner.
  abbrev pub visible : Option String → InvestigationJob J → Bool
  visible none job = true
  visible (some owner) job = job.owner == "" || job.owner == owner

  unfoldable pub list_jobs : ℕ → Option String → Store J → List (InvestigationJob J)
  list_jobs limit owner store =
      take limit
        (sorted (λ a b. leb b.created_at a.created_at) (keep (visible owner) (values store.jobs)))

  -- The four transitions change the job in place, publish, and close the feed of a job that ended.
  abbrev pub transition :
      String → (InvestigationJob J → InvestigationJob J) → JobEvent J → Store J → Store J
  transition job_id change event store = elim (get job_id store.jobs) [
    | none ↦ store
    | some job ↦ publish job_id event record store { jobs = put job_id (change job) store.jobs }
  ]

  abbrev pub settle :
      String → (InvestigationJob J → InvestigationJob J) → JobEvent J → Store J → Store J
  settle job_id change event store = elim (get job_id store.jobs) [
    | none ↦ store
    | some job ↦ close job_id (transition job_id change event store)
  ]

  abbrev pub running : ℕ → InvestigationJob J → InvestigationJob J
  running now job = record job { status = JobStatus.running; started_at = some now }

  unfoldable pub mark_running : String → ℕ → Store J → Store J
  mark_running job_id now store =
      transition job_id (running now) (new_event now JobEventType.started "Investigation started")
        store

  abbrev pub succeeded : J → ℕ → InvestigationJob J → InvestigationJob J
  succeeded result now job = record job {
    status = JobStatus.succeeded;
    result = some result;
    error = "";
    finished_at = some now;
  }

  unfoldable pub mark_succeeded : String → J → ℕ → Store J → Store J
  mark_succeeded job_id result now store =
      settle job_id (succeeded result now)
        (new_event now JobEventType.completed "Investigation complete") store

  abbrev pub or_kept : Option J → Option J → Option J
  or_kept none kept = kept
  or_kept (some result) kept = some result

  abbrev pub failed : String → Option J → ℕ → InvestigationJob J → InvestigationJob J
  failed error result now job = record job {
    status = JobStatus.failed;
    error = error;
    result = or_kept result job.result;
    finished_at = some now;
  }

  unfoldable pub mark_failed : String → String → Option J → ℕ → Store J → Store J
  mark_failed job_id error result now store =
      settle job_id (failed error result now) (new_event now JobEventType.failed error) store

  abbrev pub stopped : ℕ → InvestigationJob J → InvestigationJob J
  stopped now job = record job { status = JobStatus.cancelled; finished_at = some now }

  unfoldable pub mark_cancelled : String → ℕ → Store J → Store J
  mark_cancelled job_id now store =
      settle job_id (stopped now) (new_event now JobEventType.cancelled "Investigation cancelled")
        store

  -- `request_cancel`: whether the job is there, the listeners that are called, the store after
  unfoldable pub request_cancel : String → Store J → Bool × List (String × String) × Store J
  request_cancel job_id store = elim (get job_id store.jobs) [
    | none ↦ (false, [], store)
    | some job ↦ (
      true,
      map (λ listener. (listener, job_id)) store.cancel_listeners,
      record store { jobs = put job_id (record job { cancel_requested = true }) store.jobs },
    )
  ]

  unfoldable pub on_cancel : String → Store J → Store J
  on_cancel listener store = record store {
    cancel_listeners = store.cancel_listeners ++ (listener ∷ []);
  }
