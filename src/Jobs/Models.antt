-- ===== src/Jobs/Models.antt =====
-- backend/app/jobs/models.py: a job and its events. `J` is the type of the JSON objects that a job
-- carries (request, principal, result, event data), which nothing here looks into. A time is a
-- number of milliseconds.
use ai_kubernetes_troublesho.Prelude.{
  ℕ, ◌-◌, String, Bool, true, false, Option, none, some, List, count, length,
}

pub data JobStatus : Type 0 where
  pending running succeeded failed cancelled : JobStatus

-- `JobStatus.terminal`
abbrev pub terminal : JobStatus → Bool
terminal JobStatus.pending = false
terminal JobStatus.running = false
terminal JobStatus.succeeded = true
terminal JobStatus.failed = true
terminal JobStatus.cancelled = true

pub data JobEventType : Type 0 where
  queued started progress completed failed cancelled : JobEventType

pub record JobEvent (J : Type 0) : Type 0 where
  pub type : JobEventType
  pub message : String
  pub at : ℕ
  pub body : Option J
  pub seq : ℕ

pub record InvestigationJob (J : Type 0) : Type 0 where
  pub id : String
  pub request : J
  pub owner : String
  pub principal : Option J
  pub cancel_requested : Bool
  pub status : JobStatus
  pub events : List (JobEvent J)
  pub result : Option J
  pub error : String
  pub created_at : ℕ
  pub started_at : Option ℕ
  pub finished_at : Option ℕ

abbrev is_progress : JobEventType → Bool
is_progress JobEventType.progress = true
is_progress _ = false

-- `InvestigationJob.progress`: the completed steps, and all events
abbrev pub progress_of : {J : Type 0} → InvestigationJob J → ℕ × ℕ
progress_of job = (count (λ event. is_progress event.type) job.events, length job.events)

abbrev pub or_else : Option ℕ → ℕ → ℕ
or_else none other = other
or_else (some n) other = n

-- `InvestigationJob._duration_ms` at the time `now`
abbrev pub duration_ms : {J : Type 0} → ℕ → InvestigationJob J → Option ℕ
duration_ms now job = elim job.started_at [
  | none ↦ none
  | some start ↦ some (or_else job.finished_at now - start)
]
