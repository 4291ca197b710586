-- ===== src/Gateway/Registry.antt =====
-- backend/app/gateway/session.py: `AgentRegistry`, which clusters have an agent connected. A
-- session is an object that its stream and the registry share: the sessions stand in a heap, by a
-- number. What the registry tells the presence component is recorded as a list of calls.
pub mod Reached
pub mod Closed
use ai_kubernetes_troublesho.Prelude.{
  ℕ, String, Bool, true, false, not, ◌&&◌, Option, none, some, List, [], ◌∷◌, ◌++◌, ◌↔◌, ◌≡◌, ◌==◌,
  arith, eq_iff, Key, string_eq, nat_eq, contains, keep, map, if◌then◌else◌,
}
use ai_kubernetes_troublesho.Prelude.Dict.{Dict, get, put, remove, modify}
use ai_kubernetes_troublesho.Gateway.{Session, cancel_all, terminate}
use ai_kubernetes_troublesho.Gateway.Settled.{Op, step}

-- `AgentSession.key`: the tenant first
abbrev pub SessionKey : Type 0
SessionKey = String × String

pub key_test_iff : (a b : SessionKey) → ((a.0 == b.0 && a.1 == b.1) ≡ true) ↔ (a ≡ b)
key_test_iff (a, m) (b, n) = ground (arith, eq_iff a b, eq_iff m n)

instance abbrev pub session_key_eq : Key SessionKey
session_key_eq = record { test = λ a b. a.0 == b.0 && a.1 == b.1; test_iff = key_test_iff }

pub data PresenceCall : Type 0 where
  announced withdrawn : ℕ → PresenceCall

pub record AgentRegistry (R : Type 0) (Q : Type 0) : Type 0 where
  pub heap : Dict ℕ (Session R Q)
  pub sessions : Dict SessionKey ℕ
  pub calls : List PresenceCall

-- `self._sessions.get(session.key) is session`
abbrev pub holds : Option ℕ → ℕ → Bool
holds none i = false
holds (some j) i = j == i

-- `tenant or current_tenant()`, `tenant` being what the caller gives and `current` the tenant it
-- runs as
abbrev pub scope_of : Option String → String → String
scope_of none current = current
scope_of (some tenant) current = if tenant == "" then current else tenant

module _ {R Q : Type 0} (show : ℕ → String) where
  abbrev pub key_of : Session R Q → SessionKey
  key_of s = (s.tenant, s.cluster_id)

  abbrev pub cancel_existing : Option ℕ → Dict ℕ (Session R Q) → Dict ℕ (Session R Q)
  cancel_existing none heap = heap
  cancel_existing (some old) heap = modify (cancel_all show "The agent reconnected.") old heap

  -- `register`, of the session with a number; without such a session nothing happens
  abbrev pub register_session : Option (Session R Q) → ℕ → AgentRegistry R Q → AgentRegistry R Q
  register_session none i registry = registry
  register_session (some s) i registry = record {
    heap = cancel_existing (get (key_of s) registry.sessions) registry.heap;
    sessions = put (key_of s) i registry.sessions;
    calls = registry.calls ++ announced i ∷ [];
  }

  unfoldable pub register : ℕ → AgentRegistry R Q → AgentRegistry R Q
  register i registry = register_session (get i registry.heap) i registry

  abbrev pub unregister_session : Option (Session R Q) → ℕ → AgentRegistry R Q → AgentRegistry R Q
  unregister_session none i registry = registry
  unregister_session (some s) i registry = record {
    heap = modify (cancel_all show "The agent disconnected.") i registry.heap;
    sessions =
        if holds (get (key_of s) registry.sessions) i
        then remove (key_of s) registry.sessions
        else registry.sessions;
    calls = registry.calls ++ withdrawn i ∷ [];
  }

  unfoldable pub unregister : ℕ → AgentRegistry R Q → AgentRegistry R Q
  unregister i registry = unregister_session (get i registry.heap) i registry

  -- `refresh`
  unfoldable pub refresh : ℕ → AgentRegistry R Q → AgentRegistry R Q
  refresh i registry = record registry { calls = registry.calls ++ announced i ∷ [] }

  -- `get`
  abbrev at : Option ℕ → Dict ℕ (Session R Q) → Option (Session R Q)
  at none heap = none
  at (some i) heap = get i heap

  unfoldable pub lookup : String → Option String → String → AgentRegistry R Q → Option (Session R Q)
  lookup cluster tenant current registry =
      at (get (scope_of tenant current, cluster) registry.sessions) registry.heap

  -- the sessions that stand in the registry, in order
  abbrev pub add_found : Option (Session R Q) → List (ℕ × Session R Q) → ℕ → List (ℕ × Session R Q)
  add_found none rest i = rest
  add_found (some s) rest i = (i, s) ∷ rest

  unfoldable pub live : Dict SessionKey ℕ → Dict ℕ (Session R Q) → List (ℕ × Session R Q)
  live [] heap = []
  live ((key, i) ∷ entries) heap = add_found (get i heap) (live entries heap) i

  -- `sessions`
  unfoldable pub sessions_of : Option String → String → AgentRegistry R Q → List (ℕ × Session R Q)
  sessions_of tenant current registry =
      keep (λ entry. entry.1.tenant == scope_of tenant current)
        (live registry.sessions registry.heap)

  -- `terminate_revoked`
  abbrev pub is_doomed : List String → Session R Q → Bool
  is_doomed revoked s = not (s.certificate_serial == "") && contains s.certificate_serial revoked

  unfoldable pub terminate_all :
      String → List (ℕ × Session R Q) → Dict ℕ (Session R Q) → Dict ℕ (Session R Q)
  terminate_all reason [] heap = heap
  terminate_all reason ((i, s) ∷ doomed) heap =
      terminate_all reason doomed (modify (terminate show reason) i heap)

  abbrev pub sweep :
      List String
      → List String
      → String
      → AgentRegistry R Q
      → AgentRegistry R Q × List (ℕ × Session R Q)
  sweep [] revoked reason registry = (registry, [])
  sweep (serial ∷ serials) revoked reason registry =
      let doomed =
        keep (λ entry. is_doomed revoked entry.1) (live registry.sessions registry.heap) in
      (record registry { heap = terminate_all reason doomed registry.heap }, doomed)

  unfoldable pub terminate_revoked :
      List String → String → AgentRegistry R Q → AgentRegistry R Q × List (ℕ × Session R Q)
  terminate_revoked revoked reason registry = sweep revoked revoked reason registry

  -- A stream opens: its session is a new object.
  abbrev pub open_session :
      Option (Session R Q) → ℕ → Session R Q → AgentRegistry R Q → AgentRegistry R Q
  open_session none i s registry = record registry { heap = put i s registry.heap }
  open_session (some old) i s registry = registry

  unfoldable pub opened : ℕ → Session R Q → AgentRegistry R Q → AgentRegistry R Q
  opened i s registry = open_session (get i registry.heap) i s registry

  -- an event of one session
  unfoldable pub on_session : ℕ → Op R Q → AgentRegistry R Q → AgentRegistry R Q
  on_session i op registry = record registry { heap = modify (step show op) i registry.heap }
