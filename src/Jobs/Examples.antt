-- ===== src/Jobs/Examples.antt =====
-- The job stores at concrete inputs. A JSON object is stood for by a number.
use ai_kubernetes_troublesho.Prelude.{
  ℕ, ◌≡◌, refl, String, true, false, none, some, List, [], ◌∷◌, arith, string_eq, eq_iff,
}
use ai_kubernetes_troublesho.Prelude.Dict.{get, put}
use ai_kubernetes_troublesho.Jobs.Models.{JobStatus, JobEvent, JobEventType, InvestigationJob}
use ai_kubernetes_troublesho.Jobs.Sequencer.{deliver}
use ai_kubernetes_troublesho.Jobs.Sequencer.Merge.{Ascending, deliver-Ascending}
use ai_kubernetes_troublesho.Jobs.Store.{Store, create, mark_running, publish, evict}
use ai_kubernetes_troublesho.Jobs.Store.Reached.{empty_store}
use ai_kubernetes_troublesho.Jobs.Distributed.{
  Database, matched, unfinished, execute, create as insert, publish as record_event, claim,
  hand_off, request_cancel,
}
use ai_kubernetes_troublesho.Jobs.Distributed.Rows.{Op, run, apply}
use ai_kubernetes_troublesho.Jobs.Distributed.Leases.{
  IsLeased, LeasedTo, empty_database, run-IsLeased, lease_kept,
}
use ai_kubernetes_troublesho.Jobs.Distributed.Claims.{claim_once, cancel_final}

abbrev numbered : ℕ → JobEvent ℕ
numbered n = record { type = JobEventType.progress; message = ""; at = 0; body = none; seq = n }

-- events out of order and repeated
deliver-Ascending_example :
    Ascending 1 (deliver 1 (numbered 2 ∷ numbered 3 ∷ numbered 2 ∷ numbered 5 ∷ numbered 4 ∷ []))
deliver-Ascending_example =
    deliver-Ascending 1 (numbered 2 ∷ numbered 3 ∷ numbered 2 ∷ numbered 5 ∷ numbered 4 ∷ [])
      (omega arith, (omega arith, (omega arith, (omega arith, (omega arith, tt)))))

abbrev queued : Store ℕ
queued = create "inv-1" 7 "ada" none 1000 (empty_store 100)

abbrev started : Store ℕ
started = mark_running "inv-1" 2000 queued

abbrev event_at : ℕ → JobEventType → String → ℕ → JobEvent ℕ
event_at at type message seq = record {
  type = type;
  message = message;
  at = at;
  body = none;
  seq = seq;
}

-- the job after it was queued and started
abbrev job : InvestigationJob ℕ
job = record {
  id = "inv-1";
  request = 7;
  owner = "ada";
  principal = none;
  cancel_requested = false;
  status = JobStatus.running;
  events =
      event_at 1000 JobEventType.queued "Investigation queued" 1
      ∷ event_at 2000 JobEventType.started "Investigation started" 2
      ∷ [];
  result = none;
  error = "";
  created_at = 1000;
  started_at = some 2000;
  finished_at = none;
}

started-job : get "inv-1" started.jobs ≡ some job
unfolding get put create mark_running publish evict
started-job = refl

-- A job that is created and claimed by worker `w1` for 30 seconds.
abbrev created : Database ℕ
created = apply (Op.creates "inv-1" 7 "ada" none 1000) empty_database

abbrev claimed : Database ℕ
claimed = apply (Op.claims "inv-1" "w1" 30 2000) created

abbrev others : List (Op ℕ)
others =
    Op.claims "inv-1" "w2" 30 3000
    ∷ Op.renews "inv-1" "w2" 30 4000
    ∷ Op.asks "inv-1"
    ∷ Op.reaps "worker stopped" 31000
    ∷ []

run-IsLeased_example : IsLeased (
    get "inv-1"
      (run
        (Op.creates "inv-1" 7 "ada" none 1000 ∷ Op.claims "inv-1" "w1" 30 2000 ∷ others)
        empty_database).rows)
run-IsLeased_example =
    run-IsLeased (Op.creates "inv-1" 7 "ada" none 1000 ∷ Op.claims "inv-1" "w1" 30 2000 ∷ others)
      "inv-1"

w1_holds : LeasedTo "w1" 32000 (get "inv-1" claimed.rows)
unfolding get put insert claim record_event execute
w1_holds = (refl, refl, refl)

lease_kept_example : LeasedTo "w1" 32000 (get "inv-1" (run others claimed).rows)
lease_kept_example =
    lease_kept others "inv-1" "w1" 32000 claimed w1_holds
      (tt, (λ e. ground (arith, eq_iff "w2" "w1"), (tt, (omega arith, tt))))

w1_claims : (claim "inv-1" "w1" 30 2000 created).0 ≡ true
unfolding get put insert claim record_event execute
w1_claims = refl

claim_once_example :
    (claim "inv-1" "w2" 30 9000 (run others (claim "inv-1" "w1" 30 2000 created).1)).0 ≡ false
claim_once_example =
    claim_once "inv-1" "w1" "w2" 30 30 2000 9000 others created w1_claims (tt, (tt, (tt, (tt, tt))))

is_unfinished : matched unfinished (get "inv-1" created.rows) ≡ true
unfolding get put insert record_event
is_unfinished = refl

cancel_final_example :
    ((claim "inv-1" "w1" 30 2000 (run others (request_cancel "inv-1" created).1)).0 ≡ false)
    × ((hand_off "inv-1" "w1" "w2" (run others (request_cancel "inv-1" created).1)).0 ≡ false)
cancel_final_example =
    cancel_final "inv-1" "w1" "w2" 30 2000 others created is_unfinished (tt, (tt, (tt, (tt, tt))))
