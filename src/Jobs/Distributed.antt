-- ===== src/Jobs/Distributed.antt =====
-- backend/app/jobs/distributed.py: `PostgresRedisJobStore`, as its SQL statements change the table
-- `investigations` of backend/app/persistence/migrations/001_investigations.sql. A statement is one
-- step, as Postgres runs it; `now()` is an argument. What goes to the Redis bus is kept in the
-- order it was sent; what the bus does with it is not modelled, nor is the stream of the bus
-- (`subscribe`).
pub mod Rows
pub mod Leases
pub mod Claims
use ai_kubernetes_troublesho.Prelude.{
  ℕ, suc, ◌+◌, ◌*◌, String, Bool, true, false, not, ◌&&◌, ◌||◌, Option, none, some, List, [], ◌∷◌,
  ◌++◌, map, ltb, leb, ◌==◌, string_eq, keep, take, is_some, if◌then◌else◌,
}
use ai_kubernetes_troublesho.Prelude.Dict.{Dict, get, put}
use ai_kubernetes_troublesho.Prelude.Sort.{sorted}
use ai_kubernetes_troublesho.Jobs.Models.{JobStatus, terminal, JobEventType, JobEvent}
use ai_kubernetes_troublesho.Jobs.Store.{new_event, or_kept}

-- a row of `investigations` under its id
pub record Row (J : Type 0) : Type 0 where
  pub owner : String
  pub principal : Option J
  pub status : JobStatus
  pub request : J
  pub result : Option J
  pub error : String
  pub cancel_requested : Bool
  pub lease_worker : Option String
  pub lease_expires_at : Option ℕ
  pub created_at : ℕ
  pub started_at : Option ℕ
  pub finished_at : Option ℕ

-- a message to the bus
pub data Message (J : Type 0) : Type 0 where
  event_sent : String → JobEvent J → Message J
  cancel_sent : String → Message J
  job_queued : String → String → Message J

-- `investigation_events` numbers its rows across all jobs (`bigserial`).
pub record Database (J : Type 0) : Type 0 where
  pub rows : Dict String (Row J)
  pub events : List (String × JobEvent J)
  pub last_seq : ℕ
  pub sent : List (Message J)

abbrev pub is_pending : JobStatus → Bool
is_pending JobStatus.pending = true
is_pending _ = false

abbrev pub is_running : JobStatus → Bool
is_running JobStatus.running = true
is_running _ = false

-- `lease_worker = %s`, `lease_expires_at < now()`: a null is neither
abbrev pub held_by : String → Option String → Bool
held_by worker none = false
held_by worker (some holder) = holder == worker

abbrev pub before_now : ℕ → Option ℕ → Bool
before_now now none = false
before_now now (some at) = ltb at now

module _ {J : Type 0} where
  abbrev pub send : Message J → Database J → Database J
  send message db = record db { sent = db.sent ++ (message ∷ []) }

  -- `publish`: an event of a job that has no row breaks the foreign key, which is logged only
  unfoldable pub publish : String → JobEvent J → Database J → Database J
  publish job_id event db =
      let numbered = record event { seq = suc db.last_seq } in
      if is_some (get job_id db.rows)
      then record db {
        events = db.events ++ ((job_id, numbered) ∷ []);
        last_seq = suc db.last_seq;
        sent = db.sent ++ (event_sent job_id numbered ∷ []);
      }
      else db

  -- `UPDATE investigations SET ... WHERE id = %s AND ...`: the rows after it
  abbrev pub update_row : (Row J → Bool) → (Row J → Row J) → Option (Row J) → Option (Row J)
  update_row matches change none = none
  update_row matches change (some row) = if matches row then some (change row) else some row

  abbrev pub put_row : String → Option (Row J) → Dict String (Row J) → Dict String (Row J)
  put_row job_id none rows = rows
  put_row job_id (some row) rows = put job_id row rows

  unfoldable pub execute : String → (Row J → Bool) → (Row J → Row J) → Database J → Database J
  execute job_id matches change db = record db {
    rows = put_row job_id (update_row matches change (get job_id db.rows)) db.rows;
  }

  -- the row that `UPDATE ... RETURNING` gives, if one matched
  abbrev pub matched : (Row J → Bool) → Option (Row J) → Bool
  matched matches none = false
  matched matches (some row) = matches row

  abbrev pub new_row : J → String → Option J → ℕ → Row J
  new_row request owner principal now = record {
    owner = owner;
    principal = principal;
    status = JobStatus.pending;
    request = request;
    result = none;
    error = "";
    cancel_requested = false;
    lease_worker = none;
    lease_expires_at = none;
    created_at = now;
    started_at = none;
    finished_at = none;
  }

  unfoldable pub create : String → J → String → Option J → ℕ → Database J → Database J
  create id request owner principal now db =
      publish id (new_event now JobEventType.queued "Investigation queued")
        record db { rows = put id (new_row request owner principal now) db.rows }

  abbrev pub always : Row J → Bool
  always row = true

  unfoldable pub mark_running : String → ℕ → Database J → Database J
  mark_running job_id now db =
      publish job_id (new_event now JobEventType.started "Investigation started") (
        execute job_id always
          (λ row. record row { status = JobStatus.running; started_at = some now }) db)

  -- the columns that every end of a job sets
  abbrev pub ended : JobStatus → ℕ → Row J → Row J
  ended status now row = record row {
    status = status;
    finished_at = some now;
    lease_worker = none;
    lease_expires_at = none;
  }

  unfoldable pub mark_succeeded : String → J → ℕ → Database J → Database J
  mark_succeeded job_id result now db =
      publish job_id (new_event now JobEventType.completed "Investigation complete") (
        execute job_id always
          (λ row. record (ended JobStatus.succeeded now row) { result = some result; error = "" })
          db)

  unfoldable pub mark_failed : String → String → Option J → ℕ → Database J → Database J
  mark_failed job_id error result now db =
      publish job_id (new_event now JobEventType.failed error) (
        execute job_id always
          (λ row. record (ended JobStatus.failed now row) {
            error = error;
            result = or_kept result row.result;
          })
          db)

  unfoldable pub mark_cancelled : String → ℕ → Database J → Database J
  mark_cancelled job_id now db =
      publish job_id (new_event now JobEventType.cancelled "Investigation cancelled")
        (execute job_id always (ended JobStatus.cancelled now) db)

  abbrev pub unfinished : Row J → Bool
  unfinished row = is_pending row.status || is_running row.status

  unfoldable pub request_cancel : String → Database J → Bool × Database J
  request_cancel job_id db =
      if matched unfinished (get job_id db.rows)
      then (
        true,
        send (cancel_sent job_id)
            (execute job_id unfinished (λ row. record row { cancel_requested = true }) db),
      )
      else (is_some (get job_id db.rows), db)

  unfoldable pub is_cancel_requested : String → Database J → Bool
  is_cancel_requested job_id db = matched (λ row. row.cancel_requested) (get job_id db.rows)

  abbrev pub claimable : Row J → Bool
  claimable row = is_pending row.status && not row.cancel_requested

  abbrev pub claimed : String → ℕ → ℕ → Row J → Row J
  claimed worker lease now row = record row {
    status = JobStatus.running;
    started_at = some now;
    lease_worker = some worker;
    lease_expires_at = some (now + lease * 1000);
  }

  -- `claim`: whether the job is now the worker's
  unfoldable pub claim : String → String → ℕ → ℕ → Database J → Bool × Database J
  claim job_id worker lease now db =
      if matched claimable (get job_id db.rows)
      then (
        true,
        publish job_id (new_event now JobEventType.started "Investigation started")
            (execute job_id claimable (claimed worker lease now) db),
      )
      else (false, db)

  unfoldable pub renew_lease : String → String → ℕ → ℕ → Database J → Database J
  renew_lease job_id worker lease now db =
      execute job_id (λ row. held_by worker row.lease_worker)
        (λ row. record row { lease_expires_at = some (now + lease * 1000) }) db

  abbrev pub movable : String → Row J → Bool
  movable worker row =
      is_running row.status && (held_by worker row.lease_worker && not row.cancel_requested)

  abbrev pub moved : Row J → Row J
  moved row = record row {
    status = JobStatus.pending;
    started_at = none;
    lease_worker = none;
    lease_expires_at = none;
  }

  unfoldable pub hand_off : String → String → String → Database J → Bool × Database J
  hand_off job_id worker to_worker db =
      if matched (movable worker) (get job_id db.rows)
      then (true, send (job_queued job_id to_worker) (execute job_id (movable worker) moved db))
      else (false, db)

  unfoldable pub enqueue : String → String → Database J → Database J
  enqueue job_id worker db = send (job_queued job_id worker) db

  -- `reap_expired`: one statement over the table, then an event of each reaped job
  abbrev pub expired : ℕ → Row J → Bool
  expired now row = is_running row.status && before_now now row.lease_expires_at

  abbrev pub reap_row : String → ℕ → Row J → Row J
  reap_row error now row =
      if expired now row then record (ended JobStatus.failed now row) { error = error } else row

  unfoldable pub reap_rows : String → ℕ → Dict String (Row J) → Dict String (Row J)
  reap_rows error now [] = []
  reap_rows error now ((id, row) ∷ rows) = (id, reap_row error now row) ∷ reap_rows error now rows

  unfoldable pub publish_all : List String → JobEvent J → Database J → Database J
  publish_all [] event db = db
  publish_all (id ∷ ids) event db = publish_all ids event (publish id event db)

  abbrev pub ids_of : (Row J → Bool) → Dict String (Row J) → List String
  ids_of matches rows = map (λ entry. entry.0) (keep (λ entry. matches entry.1) rows)

  unfoldable pub reap_expired : String → ℕ → Database J → List String × Database J
  reap_expired error now db =
      let reaped = ids_of (expired now) db.rows in
      (
        reaped,
        publish_all reaped (new_event now JobEventType.failed error)
            record db { rows = reap_rows error now db.rows },
      )

  abbrev pub enqueue_all : List String → Database J → Database J
  enqueue_all [] db = db
  enqueue_all (id ∷ ids) db = enqueue_all ids (enqueue id "" db)

  abbrev pub unclaimed : ℕ → ℕ → Row J → Bool
  unclaimed older_than now row =
      is_pending row.status && ltb (row.created_at + older_than * 1000) now

  unfoldable pub requeue_unclaimed : ℕ → ℕ → Database J → List String × Database J
  requeue_unclaimed older_than now db =
      let stale = ids_of (unclaimed older_than now) db.rows in (stale, enqueue_all stale db)

  -- `events_since`: the rows of the job after a position, by their numbers
  unfoldable pub events_since : String → ℕ → Database J → List (JobEvent J)
  events_since job_id after_seq db =
      map (λ entry. entry.1)
        (keep (λ entry. entry.0 == job_id && ltb after_seq entry.1.seq) db.events)

  abbrev listed : Option String → Row J → Bool
  listed none row = true
  listed (some owner) row = row.owner == "" || row.owner == owner

  -- `list`: the newest first
  unfoldable pub list_jobs : ℕ → Option String → Database J → List (String × Row J)
  list_jobs limit owner db = take limit (
      sorted (λ a b. leb b.1.created_at a.1.created_at)
        (keep (λ entry. listed owner entry.1) db.rows))
