-- ===== src/Jobs/Distributed/Leases.antt =====
-- The leases of the distributed job store, over every sequence of operations.
use ai_kubernetes_troublesho.Prelude.{
  ℕ, ◌≤◌, ◌≡◌, ◌≢◌, refl, ap, ◌∙◌, String, true, not, ◌||◌, Option, none, some, List, [], ◌∷◌,
  arith, string_eq, eq_iff, is_some,
}
use ai_kubernetes_troublesho.Prelude.Dict.{get}
use ai_kubernetes_troublesho.Jobs.Distributed.{Row, Database, is_running}
use ai_kubernetes_troublesho.Jobs.Distributed.Rows.{Op, apply, run, step, get-apply}

module _ {J : Type 0} where
  -- the machine of rows over a sequence of operations
  abbrev pub steps : List (Op J) → String → Option (Row J) → Option (Row J)
  steps [] id row = row
  steps (op ∷ ops) id row = steps ops id (step op id row)

  pub get-run :
      (ops : List (Op J)) (id : String) (db : Database J)
      → get id (run ops db).rows ≡ steps ops id (get id db.rows)
  unfolding run
  get-run [] id db = refl
  get-run (op ∷ ops) id db = get-run ops id (apply op db) ∙ ap (steps ops id) (get-apply op id db)

  -- A lease has a holder and an end or neither, and only a running job is leased.
  abbrev pub IsLeased : Option (Row J) → Type 0
  IsLeased none = Unit
  IsLeased (some row) =
      (is_some row.lease_worker ≡ is_some row.lease_expires_at)
      × ((not (is_some row.lease_worker) || is_running row.status) ≡ true)

  step-IsLeased :
      (op : Op J) (id : String) (row : Option (Row J)) → IsLeased row → IsLeased (step op id row)
  step-IsLeased (Op.creates job request owner principal now) id row h = ground arith
  step-IsLeased (Op.runs job now) id row h = ground arith
  step-IsLeased (Op.succeeds job result now) id row h = ground arith
  step-IsLeased (Op.fails job error result now) id row h = ground arith
  step-IsLeased (Op.cancels job now) id row h = ground arith
  step-IsLeased (Op.asks job) id row h = ground arith
  step-IsLeased (Op.claims job worker lease now) id row h = ground arith
  step-IsLeased (Op.renews job worker lease now) id row h = ground arith
  step-IsLeased (Op.hands_off job worker to) id row h = ground arith
  step-IsLeased (Op.reaps error now) id row h = ground arith
  step-IsLeased (Op.requeues older now) id row h = h
  step-IsLeased (Op.publishes job event) id row h = h

  steps-IsLeased :
      (ops : List (Op J)) (id : String) (row : Option (Row J))
      → IsLeased row
      → IsLeased (steps ops id row)
  steps-IsLeased [] id row h = h
  steps-IsLeased (op ∷ ops) id row h =
      steps-IsLeased ops id (step op id row) (step-IsLeased op id row h)

  abbrev pub empty_database : Database J
  empty_database = record { rows = []; events = []; last_seq = 0; sent = [] }

  -- Whatever the operations on an empty database: a row has a lease holder exactly when it has a
  -- lease end, and a job that is leased is running.
  pub run-IsLeased :
      (ops : List (Op J)) (id : String) → IsLeased (get id (run ops empty_database).rows)
  unfolding get
  run-IsLeased ops id = rw (get-run ops id empty_database) (steps-IsLeased ops id none tt)

  -- What can happen to a leased job without its holder: anything but the end of the job, its
  -- creation, and a step of the holder; and the reaper only up to the time `until`.
  abbrev pub Foreign : String → String → ℕ → Op J → Type 0
  Foreign id holder until (Op.creates job request owner principal now) = job ≢ id
  Foreign id holder until (Op.succeeds job result now) = job ≢ id
  Foreign id holder until (Op.fails job error result now) = job ≢ id
  Foreign id holder until (Op.cancels job now) = job ≢ id
  Foreign id holder until (Op.renews job worker lease now) = worker ≢ holder
  Foreign id holder until (Op.hands_off job worker to) = worker ≢ holder
  Foreign id holder until (Op.reaps error now) = now ≤ until
  Foreign id holder until _ = Unit

  abbrev pub AllForeign : String → String → ℕ → List (Op J) → Type 0
  AllForeign id holder until [] = Unit
  AllForeign id holder until (op ∷ ops) =
      Foreign id holder until op × AllForeign id holder until ops

  -- The job is running under the lease of `holder`, which lasts until `until`.
  abbrev pub LeasedTo : String → ℕ → Option (Row J) → Type 0
  LeasedTo holder until none = ⊥
  LeasedTo holder until (some row) =
      (is_running row.status ≡ true)
      × (row.lease_worker ≡ some holder)
      × (row.lease_expires_at ≡ some until)

  step-LeasedTo :
      (op : Op J) (id holder : String) (until : ℕ) (row : Option (Row J))
      → Foreign id holder until op
      → LeasedTo holder until row
      → LeasedTo holder until (step op id row)
  step-LeasedTo op id holder until none k h = absurd h
  step-LeasedTo (Op.creates job request owner principal now) id holder until (some row) k h =
      ground (arith, eq_iff job id)
  step-LeasedTo (Op.runs job now) id holder until (some row) k h = ground arith
  step-LeasedTo (Op.succeeds job result now) id holder until (some row) k h =
      ground (arith, eq_iff job id)
  step-LeasedTo (Op.fails job error result now) id holder until (some row) k h =
      ground (arith, eq_iff job id)
  step-LeasedTo (Op.cancels job now) id holder until (some row) k h = ground (arith, eq_iff job id)
  step-LeasedTo (Op.asks job) id holder until (some row) k h = ground arith
  step-LeasedTo (Op.claims job worker lease now) id holder until (some row) k h = ground arith
  step-LeasedTo (Op.renews job worker lease now) id holder until (some row) k h =
      ground (arith, eq_iff holder worker)
  step-LeasedTo (Op.hands_off job worker to) id holder until (some row) k h =
      ground (arith, eq_iff holder worker)
  step-LeasedTo (Op.reaps error now) id holder until (some row) k h = ground arith
  step-LeasedTo (Op.requeues older now) id holder until (some row) k h = h
  step-LeasedTo (Op.publishes job event) id holder until (some row) k h = h

  steps-LeasedTo :
      (ops : List (Op J)) (id holder : String) (until : ℕ) (row : Option (Row J))
      → AllForeign id holder until ops
      → LeasedTo holder until row
      → LeasedTo holder until (steps ops id row)
  steps-LeasedTo [] id holder until row k h = h
  steps-LeasedTo (op ∷ ops) id holder until row k h =
      steps-LeasedTo ops id holder until (step op id row) k.1
        (step-LeasedTo op id holder until row k.0 h)

  -- A worker keeps the lease of its running job until the lease ends: claims, renewals and
  -- hand-offs by others, requests to cancel, re-queueing and the reaper up to that time all leave
  -- it alone.
  pub lease_kept :
      (ops : List (Op J)) (id holder : String) (until : ℕ) (db : Database J)
      → LeasedTo holder until (get id db.rows)
      → AllForeign id holder until ops
      → LeasedTo holder until (get id (run ops db).rows)
  lease_kept ops id holder until db h foreign =
      rw (get-run ops id db) (steps-LeasedTo ops id holder until (get id db.rows) foreign h)
