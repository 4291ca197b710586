-- ===== src/Jobs/Distributed/Rows.antt =====
-- The distributed job store as one machine for each row of its table.
use std.Path.{subst}
use ai_kubernetes_troublesho.Prelude.{
  ℕ, ◌+◌, ◌*◌, ◌≡◌, refl, sym, ap, ◌∙◌, String, Bool, true, false, Option, none, some, List, [],
  ◌∷◌, arith, ◌==◌, string_eq, eq_iff, if◌then◌else◌, Bool-cases, inl, inr,
}
use ai_kubernetes_troublesho.Prelude.Dict.{Dict, get, put, get-put}
use ai_kubernetes_troublesho.Jobs.Models.{JobStatus, JobEvent, JobEventType}
use ai_kubernetes_troublesho.Jobs.Store.{or_kept, new_event}
use ai_kubernetes_troublesho.Jobs.Distributed.{
  Row, Database, publish, execute, update_row, put_row, matched, new_row, create, mark_running,
  mark_succeeded, mark_failed, mark_cancelled, ended, request_cancel, claimable, claimed, claim,
  renew_lease, movable, moved, hand_off, enqueue, reap_row, reap_rows, publish_all, reap_expired,
  enqueue_all, requeue_unclaimed, held_by, unfinished, always, expired, ids_of, unclaimed,
}

-- the operations of the store with their arguments
pub data Op (J : Type 0) : Type 0 where
  creates : String → J → String → Option J → ℕ → Op J
  runs : String → ℕ → Op J
  succeeds : String → J → ℕ → Op J
  fails : String → String → Option J → ℕ → Op J
  cancels : String → ℕ → Op J
  asks : String → Op J
  claims : String → String → ℕ → ℕ → Op J
  renews : String → String → ℕ → ℕ → Op J
  hands_off : String → String → String → Op J
  reaps : String → ℕ → Op J
  requeues : ℕ → ℕ → Op J
  publishes : String → JobEvent J → Op J

module _ {J : Type 0} where
  abbrev pub apply : Op J → Database J → Database J
  apply (Op.creates id request owner principal now) db = create id request owner principal now db
  apply (Op.runs id now) db = mark_running id now db
  apply (Op.succeeds id result now) db = mark_succeeded id result now db
  apply (Op.fails id error result now) db = mark_failed id error result now db
  apply (Op.cancels id now) db = mark_cancelled id now db
  apply (Op.asks id) db = (request_cancel id db).1
  apply (Op.claims id worker lease now) db = (claim id worker lease now db).1
  apply (Op.renews id worker lease now) db = renew_lease id worker lease now db
  apply (Op.hands_off id worker to) db = (hand_off id worker to db).1
  apply (Op.reaps error now) db = (reap_expired error now db).1
  apply (Op.requeues older now) db = (requeue_unclaimed older now db).1
  apply (Op.publishes id event) db = publish id event db

  unfoldable pub run : List (Op J) → Database J → Database J
  run [] db = db
  run (op ∷ ops) db = run ops (apply op db)

  -- What an operation does to the row of one id.
  abbrev pub step : Op J → String → Option (Row J) → Option (Row J)
  step (Op.creates job request owner principal now) id row =
      if job == id then some (new_row request owner principal now) else row
  step (Op.runs job now) id row =
      if job == id
      then update_row always (λ r. record r { status = JobStatus.running; started_at = some now })
          row
      else row
  step (Op.succeeds job result now) id row =
      if job == id
      then update_row always
          (λ r. record (ended JobStatus.succeeded now r) { result = some result; error = "" }) row
      else row
  step (Op.fails job error result now) id row =
      if job == id
      then update_row always
          (λ r. record (ended JobStatus.failed now r) {
            error = error;
            result = or_kept result r.result;
          })
          row
      else row
  step (Op.cancels job now) id row =
      if job == id then update_row always (ended JobStatus.cancelled now) row else row
  step (Op.asks job) id row =
      if job == id
      then update_row unfinished (λ r. record r { cancel_requested = true }) row
      else row
  step (Op.claims job worker lease now) id row =
      if job == id then update_row claimable (claimed worker lease now) row else row
  step (Op.renews job worker lease now) id row =
      if job == id
      then update_row (λ r. held_by worker r.lease_worker)
          (λ r. record r { lease_expires_at = some (now + lease * 1000) }) row
      else row
  step (Op.hands_off job worker to) id row =
      if job == id then update_row (movable worker) moved row else row
  step (Op.reaps error now) id none = none
  step (Op.reaps error now) id (some row) = some (reap_row error now row)
  step (Op.requeues older now) id row = row
  step (Op.publishes job event) id row = row

  rows-publish :
      (id : String) (event : JobEvent J) (db : Database J) → (publish id event db).rows ≡ db.rows
  unfolding publish
  rows-publish id event db = ground arith

  rows-publish_all :
      (ids : List String) (event : JobEvent J) (db : Database J)
      → (publish_all ids event db).rows ≡ db.rows
  unfolding publish_all
  rows-publish_all [] event db = refl
  rows-publish_all (id ∷ ids) event db =
      rows-publish_all ids event (publish id event db) ∙ rows-publish id event db

  rows-enqueue_all : (ids : List String) (db : Database J) → (enqueue_all ids db).rows ≡ db.rows
  unfolding enqueue
  rows-enqueue_all [] db = refl
  rows-enqueue_all (id ∷ ids) db = rows-enqueue_all ids (enqueue id "" db)

  get-put_row :
      (job id : String) (new : Option (Row J)) (rows : Dict String (Row J))
      → (new ≡ none → get job rows ≡ none)
      → get id (put_row job new rows) ≡ (if job == id then new else get id rows)
  get-put_row job id (some row) rows h = get-put job id row rows
  get-put_row job id none rows h = elim (Bool-cases (job == id)) [
    | inl e ↦ let same : get id rows ≡ none = rw (sym ((eq_iff job id).0 e)) (h refl) in rw e same
    | inr e ↦ rw e refl
  ]

  -- the row of the id that a statement names, read at either spelling of it
  at_id :
      (job id : String) (matches : Row J → Bool) (change : Row J → Row J)
      (rows : Dict String (Row J))
      → (if job == id then update_row matches change (get job rows) else get id rows)
        ≡ (if job == id then update_row matches change (get id rows) else get id rows)
  at_id job id matches change rows = elim (Bool-cases (job == id)) [
    | inl e ↦ rw e (ap (λ i. update_row matches change (get i rows)) ((eq_iff job id).0 e))
    | inr e ↦ rw e refl
  ]

  update_row-none :
      (matches : Row J → Bool) (change : Row J → Row J) (row : Option (Row J))
      → update_row matches change row ≡ none
      → row ≡ none
  update_row-none matches change none h = refl
  update_row-none matches change (some row) h = ground arith

  get-execute :
      (job id : String) (matches : Row J → Bool) (change : Row J → Row J) (db : Database J)
      → get id (execute job matches change db).rows
        ≡ (if job == id then update_row matches change (get id db.rows) else get id db.rows)
  unfolding execute
  get-execute job id matches change db =
      get-put_row job id (update_row matches change (get job db.rows)) db.rows
        (update_row-none matches change (get job db.rows))
      ∙ at_id job id matches change db.rows

  get-reap_rows :
      (error : String) (now : ℕ) (id : String) (rows : Dict String (Row J))
      → get id (reap_rows error now rows) ≡ step (Op.reaps error now) id (get id rows)
  unfolding get reap_rows
  get-reap_rows error now id [] = refl
  get-reap_rows error now id ((job, row) ∷ rows) = elim (Bool-cases (job == id)) [
    | inl e ↦ rw e refl
    | inr e ↦ rw e (get-reap_rows error now id rows)
  ]

  -- Where the statement matches no row, it changes none.
  unmatched :
      (matches : Row J → Bool) (change : Row J → Row J) (row : Option (Row J))
      → matched matches row ≡ false
      → update_row matches change row ≡ row
  unmatched matches change none h = refl
  unmatched matches change (some row) h = rw h refl

  idle :
      (job id : String) (matches : Row J → Bool) (change : Row J → Row J)
      (rows : Dict String (Row J))
      → matched matches (get job rows) ≡ false
      → get id rows ≡ (if job == id then update_row matches change (get id rows) else get id rows)
  idle job id matches change rows h = elim (Bool-cases (job == id)) [
    | inl e ↦ rw e (
        subst (λ i. get i rows ≡ update_row matches change (get i rows)) ((eq_iff job id).0 e)
          (sym (unmatched matches change (get job rows) h)))
    | inr e ↦ rw e refl
  ]

  get-published :
      (job id : String) (event : JobEvent J) (db : Database J)
      → get id (publish job event db).rows ≡ get id db.rows
  get-published job id event db = ap (get id) (rows-publish job event db)

  get-claim :
      (job worker : String) (lease now : ℕ) (id : String) (db : Database J)
      → get id (claim job worker lease now db).1.rows
        ≡ step (Op.claims job worker lease now) id (get id db.rows)
  unfolding claim
  get-claim job worker lease now id db = elim (Bool-cases (matched claimable (get job db.rows))) [
    | inl e ↦
        rw (e, claim)
          (get-published job id (new_event now JobEventType.started "Investigation started")
              (execute job claimable (claimed worker lease now) db)
            ∙ get-execute job id claimable (claimed worker lease now) db)
    | inr e ↦ rw (e, claim) (idle job id claimable (claimed worker lease now) db.rows e)
  ]

  get-hand_off :
      (job worker to : String) (id : String) (db : Database J)
      → get id (hand_off job worker to db).1.rows
        ≡ step (Op.hands_off job worker to) id (get id db.rows)
  unfolding hand_off
  get-hand_off job worker to id db =
      elim (Bool-cases (matched (movable worker) (get job db.rows))) [
        | inl e ↦ rw (e, hand_off) (get-execute job id (movable worker) moved db)
        | inr e ↦ rw (e, hand_off) (idle job id (movable worker) moved db.rows e)
      ]

  get-request_cancel :
      (job id : String) (db : Database J)
      → get id (request_cancel job db).1.rows ≡ step (Op.asks job) id (get id db.rows)
  unfolding request_cancel
  get-request_cancel job id db =
      let asked : Row J → Row J = λ r. record r { cancel_requested = true } in
      elim (Bool-cases (matched unfinished (get job db.rows))) [
        | inl e ↦ rw (e, request_cancel) (get-execute job id unfinished asked db)
        | inr e ↦ rw (e, request_cancel) (idle job id unfinished asked db.rows e)
      ]

  -- Every operation of the store acts on the table row by row: what becomes of the row of an id
  -- depends on that row alone and is what the machine of rows says.
  pub get-apply :
      (op : Op J) (id : String) (db : Database J)
      → get id (apply op db).rows ≡ step op id (get id db.rows)
  unfolding create mark_running mark_succeeded mark_failed mark_cancelled renew_lease reap_expired
      requeue_unclaimed
  get-apply (Op.creates job request owner principal now) id db =
      get-published job id (new_event now JobEventType.queued "Investigation queued")
        record db { rows = put job (new_row request owner principal now) db.rows }
      ∙ get-put job id (new_row request owner principal now) db.rows
  get-apply (Op.runs job now) id db =
      let change : Row J → Row J =
        λ r. record r { status = JobStatus.running; started_at = some now } in
      get-published job id (new_event now JobEventType.started "Investigation started")
        (execute job always change db)
      ∙ get-execute job id always change db
  get-apply (Op.succeeds job result now) id db =
      let change : Row J → Row J =
        λ r. record (ended JobStatus.succeeded now r) { result = some result; error = "" } in
      get-published job id (new_event now JobEventType.completed "Investigation complete")
        (execute job always change db)
      ∙ get-execute job id always change db
  get-apply (Op.fails job error result now) id db =
      let change : Row J → Row J = λ r. record (ended JobStatus.failed now r) {
        error = error;
        result = or_kept result r.result;
      } in
      get-published job id (new_event now JobEventType.failed error) (execute job always change db)
      ∙ get-execute job id always change db
  get-apply (Op.cancels job now) id db =
      get-published job id (new_event now JobEventType.cancelled "Investigation cancelled")
        (execute job always (ended JobStatus.cancelled now) db)
      ∙ get-execute job id always (ended JobStatus.cancelled now) db
  get-apply (Op.asks job) id db = get-request_cancel job id db
  get-apply (Op.claims job worker lease now) id db = get-claim job worker lease now id db
  get-apply (Op.renews job worker lease now) id db =
      get-execute job id (λ r. held_by worker r.lease_worker)
        (λ r. record r { lease_expires_at = some (now + lease * 1000) }) db
  get-apply (Op.hands_off job worker to) id db = get-hand_off job worker to id db
  get-apply (Op.reaps error now) id db =
      ap (get id) (
        rows-publish_all (ids_of (expired now) db.rows) (new_event now JobEventType.failed error)
          record db { rows = reap_rows error now db.rows })
      ∙ get-reap_rows error now id db.rows
  get-apply (Op.requeues older now) id db =
      ap (get id) (rows-enqueue_all (ids_of (unclaimed older now) db.rows) db)
  get-apply (Op.publishes job event) id db = get-published job id event db
