-- ===== src/Jobs/Distributed/Claims.antt =====
-- Claims and cancellation in the distributed job store, over every sequence of operations.
use ai_kubernetes_troublesho.Prelude.{
  ℕ, ◌≡◌, ◌≢◌, refl, sym, ap, ◌∙◌, String, true, false, Option, none, some, List, [], ◌∷◌, arith,
  string_eq, eq_iff, Bool-cases, inl, inr,
}
use ai_kubernetes_troublesho.Prelude.Dict.{get}
use ai_kubernetes_troublesho.Jobs.Distributed.{
  Row, Database, claim, claimable, matched, is_pending, request_cancel, unfinished, hand_off,
  movable,
}
use ai_kubernetes_troublesho.Jobs.Distributed.Rows.{Op, apply, run, step, get-apply}
use ai_kubernetes_troublesho.Jobs.Distributed.Leases.{steps, get-run}

module _ {J : Type 0} where
  -- Neither creates the job nor hands it off.
  abbrev pub Keeps : String → Op J → Type 0
  Keeps id (Op.creates job request owner principal now) = job ≢ id
  Keeps id (Op.hands_off job worker to) = job ≢ id
  Keeps id _ = Unit

  abbrev pub AllKeep : String → List (Op J) → Type 0
  AllKeep id [] = Unit
  AllKeep id (op ∷ ops) = Keeps id op × AllKeep id ops

  -- the row is there and not pending
  abbrev Taken : Option (Row J) → Type 0
  Taken none = ⊥
  Taken (some row) = is_pending row.status ≡ false

  step-Taken :
      (op : Op J) (id : String) (row : Option (Row J))
      → Keeps id op
      → Taken row
      → Taken (step op id row)
  step-Taken op id none k h = absurd h
  step-Taken (Op.creates job request owner principal now) id (some row) k h =
      ground (arith, eq_iff job id)
  step-Taken (Op.runs job now) id (some row) k h = ground arith
  step-Taken (Op.succeeds job result now) id (some row) k h = ground arith
  step-Taken (Op.fails job error result now) id (some row) k h = ground arith
  step-Taken (Op.cancels job now) id (some row) k h = ground arith
  step-Taken (Op.asks job) id (some row) k h = ground arith
  step-Taken (Op.claims job worker lease now) id (some row) k h = ground arith
  step-Taken (Op.renews job worker lease now) id (some row) k h = ground arith
  step-Taken (Op.hands_off job worker to) id (some row) k h = ground (arith, eq_iff job id)
  step-Taken (Op.reaps error now) id (some row) k h = ground arith
  step-Taken (Op.requeues older now) id (some row) k h = h
  step-Taken (Op.publishes job event) id (some row) k h = h

  steps-Taken :
      (ops : List (Op J)) (id : String) (row : Option (Row J))
      → AllKeep id ops
      → Taken row
      → Taken (steps ops id row)
  steps-Taken [] id row k h = h
  steps-Taken (op ∷ ops) id row k h =
      steps-Taken ops id (step op id row) k.1 (step-Taken op id row k.0 h)

  claimed-Taken :
      (id worker : String) (lease now : ℕ) (row : Option (Row J))
      → matched claimable row ≡ true
      → Taken (step (Op.claims id worker lease now) id row)
  claimed-Taken id worker lease now none h = ground arith
  claimed-Taken id worker lease now (some row) h = ground (arith, eq_iff id id)

  Taken-refused : (row : Option (Row J)) → Taken row → matched claimable row ≡ false
  Taken-refused none h = absurd h
  Taken-refused (some row) h = ground arith

  claim_answer :
      (id worker : String) (lease now : ℕ) (db : Database J)
      → (claim id worker lease now db).0 ≡ matched claimable (get id db.rows)
  unfolding claim
  claim_answer id worker lease now db = elim (Bool-cases (matched claimable (get id db.rows))) [
    | inl e ↦ rw (e, claim) refl
    | inr e ↦ rw (e, claim) refl
  ]

  -- A job that one worker has claimed is not claimed again, by any worker at any time and whatever
  -- happens in between, as long as nobody hands the job off (or creates it anew).
  pub claim_once :
      (id worker other : String) (lease lease' now now' : ℕ) (ops : List (Op J)) (db : Database J)
      → (claim id worker lease now db).0 ≡ true
      → AllKeep id ops
      → (claim id other lease' now' (run ops (claim id worker lease now db).1)).0 ≡ false
  claim_once id worker other lease lease' now now' ops db h keeps =
      let own : Op J = Op.claims id worker lease now in
      let first : matched claimable (get id db.rows) ≡ true =
        sym (claim_answer id worker lease now db) ∙ h in
      let after : Taken (steps ops id (step own id (get id db.rows))) =
        steps-Taken ops id (step own id (get id db.rows)) keeps
          (claimed-Taken id worker lease now (get id db.rows) first) in
      claim_answer id other lease' now' (run ops (claim id worker lease now db).1)
      ∙ ap (matched claimable)
          (get-run ops id (apply own db) ∙ ap (steps ops id) (get-apply own id db))
      ∙ Taken-refused (steps ops id (step own id (get id db.rows))) after

  abbrev pub NotCreated : String → Op J → Type 0
  NotCreated id (Op.creates job request owner principal now) = job ≢ id
  NotCreated id _ = Unit

  abbrev pub NoneCreated : String → List (Op J) → Type 0
  NoneCreated id [] = Unit
  NoneCreated id (op ∷ ops) = NotCreated id op × NoneCreated id ops

  abbrev Cancelled : Option (Row J) → Type 0
  Cancelled none = ⊥
  Cancelled (some row) = row.cancel_requested ≡ true

  step-Cancelled :
      (op : Op J) (id : String) (row : Option (Row J))
      → NotCreated id op
      → Cancelled row
      → Cancelled (step op id row)
  step-Cancelled op id none k h = absurd h
  step-Cancelled (Op.creates job request owner principal now) id (some row) k h =
      ground (arith, eq_iff job id)
  step-Cancelled (Op.runs job now) id (some row) k h = ground arith
  step-Cancelled (Op.succeeds job result now) id (some row) k h = ground arith
  step-Cancelled (Op.fails job error result now) id (some row) k h = ground arith
  step-Cancelled (Op.cancels job now) id (some row) k h = ground arith
  step-Cancelled (Op.asks job) id (some row) k h = ground arith
  step-Cancelled (Op.claims job worker lease now) id (some row) k h = ground arith
  step-Cancelled (Op.renews job worker lease now) id (some row) k h = ground arith
  step-Cancelled (Op.hands_off job worker to) id (some row) k h = ground arith
  step-Cancelled (Op.reaps error now) id (some row) k h = ground arith
  step-Cancelled (Op.requeues older now) id (some row) k h = h
  step-Cancelled (Op.publishes job event) id (some row) k h = h

  steps-Cancelled :
      (ops : List (Op J)) (id : String) (row : Option (Row J))
      → NoneCreated id ops
      → Cancelled row
      → Cancelled (steps ops id row)
  steps-Cancelled [] id row k h = h
  steps-Cancelled (op ∷ ops) id row k h =
      steps-Cancelled ops id (step op id row) k.1 (step-Cancelled op id row k.0 h)

  Cancelled-refused :
      (worker : String) (row : Option (Row J))
      → Cancelled row
      → (matched claimable row ≡ false) × (matched (movable worker) row ≡ false)
  Cancelled-refused worker none h = absurd h
  Cancelled-refused worker (some row) h = ground arith

  asked-Cancelled :
      (id : String) (row : Option (Row J))
      → matched unfinished row ≡ true
      → Cancelled (step (Op.asks id) id row)
  asked-Cancelled id none h = ground arith
  asked-Cancelled id (some row) h = ground (arith, eq_iff id id)

  hand_off_answer :
      (id worker to : String) (db : Database J)
      → (hand_off id worker to db).0 ≡ matched (movable worker) (get id db.rows)
  unfolding hand_off
  hand_off_answer id worker to db = elim (Bool-cases (matched (movable worker) (get id db.rows))) [
    | inl e ↦ rw (e, hand_off) refl
    | inr e ↦ rw (e, hand_off) refl
  ]

  -- A request to cancel a job that is pending or running is final: whatever happens afterwards (but
  -- for a new job of that id), the job is neither claimed nor handed off.
  pub cancel_final :
      (id worker to : String) (lease now : ℕ) (ops : List (Op J)) (db : Database J)
      → matched unfinished (get id db.rows) ≡ true
      → NoneCreated id ops
      → ((claim id worker lease now (run ops (request_cancel id db).1)).0 ≡ false)
        × ((hand_off id worker to (run ops (request_cancel id db).1)).0 ≡ false)
  cancel_final id worker to lease now ops db h keeps =
      let own : Op J = Op.asks id in
      let row = steps ops id (step own id (get id db.rows)) in
      let after : get id (run ops (apply own db)).rows ≡ row =
        get-run ops id (apply own db) ∙ ap (steps ops id) (get-apply own id db) in
      let refused = Cancelled-refused worker row (
        steps-Cancelled ops id (step own id (get id db.rows)) keeps
          (asked-Cancelled id (get id db.rows) h)) in
      (
        claim_answer id worker lease now (run ops (apply own db))
            ∙ ap (matched claimable) after
            ∙ refused.0,
        hand_off_answer id worker to (run ops (apply own db))
            ∙ ap (matched (movable worker)) after
            ∙ refused.1,
      )
