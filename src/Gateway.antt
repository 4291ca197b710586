-- ===== src/Gateway.antt =====
-- backend/app/gateway/session.py: one connected agent (`AgentSession`), and the collections that
-- wait for its answers. A record is a message of the wire schema and stays abstract (`R`), as does
-- what is asked for (`Q`). The collections are objects that the dictionary of pending ones and the
-- waiting `collect` share: they stand in a heap, by their request id. `collect` is two steps, what
-- it does before it waits and after. `show` is Python's text of an integer.
pub mod Settled
pub mod Late
pub mod Registry
mod Examples
use Prim.Native.String.{◌++◌ as ◌<>◌}
use ai_kubernetes_troublesho.Prelude.{
  ℕ, suc, ◌-◌, String, Bool, true, false, not, Option, none, some, List, [], ◌∷◌, ◌++◌, ◌==◌, leb,
  string_eq, contains, keep, is_some, length, if◌then◌else◌,
}
use ai_kubernetes_troublesho.Prelude.Dict.{Dict, get, put, modify}

pub record PendingCollection (R : Type 0) : Type 0 where
  pub request_id : String
  pub expected : ℕ
  pub records : List R
  pub is_done : Bool
  pub detail : String

-- `AgentIdentity` and what the session has of the hello
pub record Session (R : Type 0) (Q : Type 0) : Type 0 where
  pub cluster_id : String
  pub tenant : String
  pub certificate_serial : String
  pub outbound : List (String × List Q)
  pub is_closed : Bool
  pub termination_reason : String
  -- the heap of collections, and the keys of `_pending`
  pub collections : Dict String (PendingCollection R)
  pub pending : List String
  pub counter : ℕ
  pub last_seen : ℕ
  pub degradation : String

abbrev pub timed_out_detail : String
timed_out_detail = "The agent did not answer within the deadline."

-- `DEFAULT_COLLECTION_TIMEOUT`, in milliseconds
abbrev pub default_collection_timeout : ℕ
default_collection_timeout = 60000

-- `PendingCollection.add` and `PendingCollection.finish`
abbrev pub add_record : {R : Type 0} → R → PendingCollection R → PendingCollection R
add_record r pending = record pending { records = pending.records ++ r ∷ [] }

abbrev pub finish : {R : Type 0} → String → PendingCollection R → PendingCollection R
finish detail pending = record pending { detail = detail; is_done = true }

abbrev pub timed : {R : Type 0} → Bool → PendingCollection R → PendingCollection R
timed true pending = pending
timed false pending = record pending { detail = timed_out_detail }

-- the end of the wait: where nothing was answered, the deadline has passed (the source overwrites
-- the detail on every `TimeoutError`, so also where the deadline fires in the turn of the event loop
-- in which the answer came; see `end_collect`)
abbrev pub time_out : {R : Type 0} → PendingCollection R → PendingCollection R
time_out pending = timed pending.is_done pending

unfoldable pub finish_all :
    {R : Type 0}
    → String
    → List String
    → Dict String (PendingCollection R)
    → Dict String (PendingCollection R)
finish_all reason [] heap = heap
finish_all reason (id ∷ ids) heap = finish_all reason ids (modify (finish reason) id heap)

module _ {R Q : Type 0} (show : ℕ → String) where
  -- `next_request_id`
  abbrev pub request_id : Session R Q → String
  request_id s = s.cluster_id <> ("-" <> show (suc s.counter))

  abbrev new_pending : String → List Q → PendingCollection R
  new_pending id specs = record {
    request_id = id;
    expected = length specs;
    records = [];
    is_done = false;
    detail = "";
  }

  -- `collect`, up to where it waits
  unfoldable pub begin_collect : List Q → Session R Q → Session R Q
  begin_collect specs s =
      let id = request_id s in
      record s {
        counter = suc s.counter;
        collections = put id (new_pending id specs) s.collections;
        pending = s.pending ++ id ∷ [];
        outbound = s.outbound ++ (id, specs) ∷ [];
      }

  -- `collect`, from where the wait ends: by the answer, or by the deadline. A deadline that fires in
  -- the same turn of the event loop as the answer would overwrite its detail; it is taken to come
  -- before the answer or not at all.
  unfoldable pub end_collect : String → Session R Q → Session R Q
  end_collect id s = record s {
    collections = modify time_out id s.collections;
    pending = keep (λ k. not (k == id)) s.pending;
  }

  unfoldable pub touch : ℕ → String → Session R Q → Session R Q
  touch now degradation s = record s { last_seen = now; degradation = degradation }

  -- `online`
  abbrev pub is_online : ℕ → ℕ → Session R Q → Bool
  is_online now stale_after s = leb (now - s.last_seen) stale_after

  unfoldable pub on_evidence : R → String → Session R Q → Session R Q
  on_evidence r id s =
      if contains id s.pending
      then record s { collections = modify (add_record r) id s.collections }
      else s

  unfoldable pub on_done : String → String → Session R Q → Session R Q
  on_done id detail s =
      if contains id s.pending
      then record s { collections = modify (finish detail) id s.collections }
      else s

  unfoldable pub cancel_all : String → Session R Q → Session R Q
  cancel_all reason s = record s {
    collections = finish_all reason s.pending s.collections;
    pending = [];
  }

  unfoldable pub terminate : String → Session R Q → Session R Q
  terminate reason s = record (cancel_all reason record s { termination_reason = reason }) {
    is_closed = true;
  }
