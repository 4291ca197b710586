-- ===== src/Gateway/Examples.antt =====
-- The agent session and the registry at concrete inputs. A record is a text here, and so is what is
-- asked for; an integer is written as that many strokes.
use ai_kubernetes_troublesho.Prelude.{
  ℕ, zero, suc, ◌≡◌, refl, sym, ap, ◌∙◌, String, true, false, none, some, List, [], ◌∷◌, string_eq,
  nat_eq, if◌then◌else◌,
}
use ai_kubernetes_troublesho.Prelude.Dict.{get, put, modify}
use ai_kubernetes_troublesho.Gateway.{
  PendingCollection, Session, begin_collect, end_collect, on_evidence, cancel_all, terminate,
  finish_all, timed_out_detail,
}
use ai_kubernetes_troublesho.Gateway.Settled.{Op, begun, ended, evidence, finished, terminated, run}
use ai_kubernetes_troublesho.Gateway.Late.{IsOver, late_ignored}
use ai_kubernetes_troublesho.Gateway.Registry.{
  AgentRegistry, session_key_eq, register, unregister, lookup, live, terminate_all,
  terminate_revoked, opened, scope_of, holds,
}
use ai_kubernetes_troublesho.Gateway.Registry.Reached as Reached
use ai_kubernetes_troublesho.Gateway.Registry.Reached.{
  Event, opens, registers, unregisters, refreshes, sweeps, happens, lookup_own,
}
use ai_kubernetes_troublesho.Gateway.Registry.Closed.{swept_closed, unregister_own}

abbrev strokes : ℕ → String
strokes zero = ""
strokes (suc n) = String.◌∷◌ "|" (strokes n)

abbrev size : String → ℕ
size String.[] = 0
size (String.◌∷◌ c s) = suc (size s)

size-strokes : (n : ℕ) → size (strokes n) ≡ n
size-strokes zero = refl
size-strokes (suc n) = ap suc (size-strokes n)

strokes_inj : (m n : ℕ) → strokes m ≡ strokes n → m ≡ n
strokes_inj m n e = sym (size-strokes m) ∙ ap size e ∙ size-strokes n

abbrev agent : String → String → String → Session String String
agent tenant cluster serial = record {
  cluster_id = cluster;
  tenant = tenant;
  certificate_serial = serial;
  outbound = [];
  is_closed = false;
  termination_reason = "";
  collections = [];
  pending = [];
  counter = 0;
  last_seen = 0;
  degradation = "";
}

abbrev before : List (Op String String)
before =
    begun ("pods" ∷ [])
    ∷ evidence "web is down" "prod-|"
    ∷ begun ("nodes" ∷ [])
    ∷ ended "prod-|"
    ∷ []

-- the first collection, which has timed out with one record
abbrev first_collection : PendingCollection String
first_collection = record {
  request_id = "prod-|";
  expected = 1;
  records = "web is down" ∷ [];
  is_done = false;
  detail = timed_out_detail;
}

abbrev later : List (Op String String)
later =
    evidence "late" "prod-|"
    ∷ finished "prod-|" "all"
    ∷ begun ("logs" ∷ [])
    ∷ terminated "revoked"
    ∷ []

has_timed_out :
    IsOver strokes "prod-|" first_collection (run strokes before (agent "acme" "prod" "s1"))
unfolding run begin_collect on_evidence end_collect get put modify
has_timed_out = (refl, refl)

late_ignored_example :
    IsOver strokes "prod-|" first_collection
      (run strokes later (run strokes before (agent "acme" "prod" "s1")))
late_ignored_example =
    late_ignored strokes strokes_inj (agent "acme" "prod" "s1") before later "prod-|"
      first_collection refl has_timed_out

-- Two tenants have a cluster of the same name, and the agent of the first connects again.
abbrev events : List (Event String String)
events =
    opens 1 (agent "acme" "prod" "s1")
    ∷ registers 1
    ∷ opens 2 (agent "zoo" "prod" "s2")
    ∷ registers 2
    ∷ opens 3 (agent "acme" "prod" "s3")
    ∷ registers 3
    ∷ []

abbrev start : AgentRegistry String String
start = record { heap = []; sessions = []; calls = [] }

looked_up :
    lookup strokes "prod" none "zoo" (Reached.run strokes events start)
    ≡ some (agent "zoo" "prod" "s2")
unfolding lookup Reached.run opened register get put modify cancel_all finish_all
looked_up = refl

abbrev zoo : Session String String
zoo = agent "zoo" "prod" "s2"

lookup_own_example : (zoo.tenant ≡ scope_of none "zoo") × (zoo.cluster_id ≡ "prod")
lookup_own_example = lookup_own strokes events start "prod" none "zoo" zoo refl looked_up

abbrev swept : AgentRegistry String String
swept =
    (terminate_revoked strokes ("s3" ∷ []) "The certificate was revoked."
      (Reached.run strokes events start)).0

abbrev closed_agent : Session String String
closed_agent = record (agent "acme" "prod" "s3") {
  is_closed = true;
  termination_reason = "The certificate was revoked.";
}

entry_stays : get ("acme", "prod") swept.sessions ≡ some 3
unfolding terminate_revoked live Reached.run opened register get put modify cancel_all finish_all
entry_stays = refl

agent_closed : get 3 swept.heap ≡ some closed_agent
unfolding terminate_revoked live terminate_all terminate Reached.run opened register get put modify
    cancel_all finish_all
agent_closed = refl

swept_closed_example : closed_agent.is_closed ≡ true
swept_closed_example =
    swept_closed strokes events start ("s3" ∷ []) "The certificate was revoked." ("acme", "prod") 3
      closed_agent refl entry_stays agent_closed refl

old_agent : get 1 (Reached.run strokes events start).heap ≡ some (agent "acme" "prod" "s1")
unfolding Reached.run opened register get put modify cancel_all finish_all
old_agent = refl

unregister_own_example :
    get ("acme", "prod") (unregister strokes 1 (Reached.run strokes events start)).sessions ≡ (
      if holds (get ("acme", "prod") (Reached.run strokes events start).sessions) 1
      then none
      else get ("acme", "prod") (Reached.run strokes events start).sessions)
unregister_own_example =
    unregister_own strokes events start ("acme", "prod") 1 (agent "acme" "prod" "s1") refl old_agent
