-- ===== src/Gateway/Registry/Closed.antt =====
-- What a sweep for revoked certificates closes, and what an agent that leaves takes with it.
use std.Path.{subst}
use ai_kubernetes_troublesho.Prelude.{
  ℕ, String, Bool, true, false, not, ◌&&◌, ◌||◌, Option, none, some, List, [], ◌∷◌, ◌≡◌, refl, sym,
  ap, ◌∙◌, ◌==◌, arith, string_eq, nat_eq, contains, keep, any, if◌then◌else◌, Bool-cases, some_inj,
  inl, inr, ==_refl,
}
use ai_kubernetes_troublesho.Prelude.Dict.{Dict, get, remove, modify, get-remove, get-modify}
use ai_kubernetes_troublesho.Gateway.{Session, cancel_all, terminate}
use ai_kubernetes_troublesho.Gateway.Registry.{
  SessionKey, session_key_eq, key_test_iff, AgentRegistry, key_of, holds, unregister_session,
  unregister, live, add_found, is_doomed, terminate_all, sweep, terminate_revoked,
}
use ai_kubernetes_troublesho.Gateway.Registry.Reached.{
  Event, run, run-IsKeyed, new-IsKeyed, IsKeyed,
}

holds_some : (o : Option ℕ) (i : ℕ) → holds o i ≡ true → o ≡ some i
holds_some none i h = absurd (ground arith)
holds_some (some j) i h = ap some ((nat_eq.test_iff j i).0 h)

kept_entry :
    (b : Bool) (k key : SessionKey) (entries : Dict SessionKey ℕ)
    → (k.0 == key.0 && k.1 == key.1) ≡ false
    → get key (if b then remove k entries else entries) ≡ get key entries
kept_entry true k key entries p = rw (get-remove k key entries, p) refl
kept_entry false k key entries p = refl

own_entry :
    (b : Bool) (key : SessionKey) (entries : Dict SessionKey ℕ)
    → get key (if b then remove key entries else entries) ≡ (if b then none else get key entries)
own_entry true key entries = rw (get-remove key key entries, ==_refl key) refl
own_entry false key entries = refl

module _ {R Q : Type 0} (show : ℕ → String) where
  abbrev names : ℕ → List (ℕ × Session R Q) → Bool
  names i entries = any (λ entry. entry.0 == i) entries

  -- What terminations make of a session: it has its certificate still, and is closed if it was
  -- named.
  abbrev Fate : Session R Q → Bool → Session R Q → Type 0
  Fate s named t =
      (t.certificate_serial ≡ s.certificate_serial)
      × ((not (s.is_closed || named) || t.is_closed) ≡ true)

  terminate_all-Fate :
      (reason : String) (doomed : List (ℕ × Session R Q)) (heap : Dict ℕ (Session R Q)) (i : ℕ)
      (s : Session R Q)
      → get i heap ≡ some s
      → (t : Session R Q) × (get i (terminate_all show reason doomed heap) ≡ some t)
        × Fate s (names i doomed) t
  unfolding terminate_all terminate cancel_all
  terminate_all-Fate reason [] heap i s h = (s, h, (refl, ground arith))
  terminate_all-Fate reason ((j, old) ∷ doomed) heap i s h = elim (Bool-cases (j == i)) [
    | inl p ↦
        let s1 = terminate show reason s in
        let stored : get i (modify (terminate show reason) j heap) ≡ some s1 =
          rw (get-modify (terminate show reason) j i heap, p, h) refl in
        let (t, kept, (serial, closed)) =
          terminate_all-Fate reason doomed (modify (terminate show reason) j heap) i s1 stored in
        (t, kept, (serial, ground (arith, closed)))
    | inr p ↦
        let stored : get i (modify (terminate show reason) j heap) ≡ some s =
          rw (get-modify (terminate show reason) j i heap, p) h in
        let (t, kept, (serial, closed)) =
          terminate_all-Fate reason doomed (modify (terminate show reason) j heap) i s stored in
        (t, kept, (serial, ground (arith, closed, p)))
  ]

  names-add_found :
      (revoked : List String) (i : ℕ) (found : Option (Session R Q)) (j : ℕ)
      (rest : List (ℕ × Session R Q))
      → names i (keep (λ entry. is_doomed show revoked entry.1) rest) ≡ true
      → names i (keep (λ entry. is_doomed show revoked entry.1) (add_found show found rest j))
        ≡ true
  names-add_found revoked i none j rest h = h
  names-add_found revoked i (some x) j rest h = elim (Bool-cases (is_doomed show revoked x)) [
    | inl p ↦ rw p (ground arith)
    | inr p ↦ rw p h
  ]

  names-live :
      (revoked : List String) (key : SessionKey) (i : ℕ) (s : Session R Q)
      (entries : Dict SessionKey ℕ) (heap : Dict ℕ (Session R Q))
      → get key entries ≡ some i
      → get i heap ≡ some s
      → is_doomed show revoked s ≡ true
      → names i (keep (λ entry. is_doomed show revoked entry.1) (live show entries heap)) ≡ true
  unfolding get live
  names-live revoked key i s [] heap e h d = absurd (ground arith)
  names-live revoked key i s ((k, j) ∷ entries) heap e h d =
      let rest = live show entries heap in
      elim (Bool-cases (k.0 == key.0 && k.1 == key.1)) [
        | inl p ↦
            let same : j ≡ i = some_inj j i (rw p at e) in
            let stored : get j heap ≡ some s = ap (λ n. get n heap) same ∙ h in
            rw (stored, d) (ground (arith, same))
        | inr p ↦
            names-add_found revoked i (get j heap) j rest
              (names-live revoked key i s entries heap (rw p at e) h d)
      ]

  doomed_serial :
      (revoked : List String) (s t : Session R Q)
      → t.certificate_serial ≡ s.certificate_serial
      → is_doomed show revoked t ≡ is_doomed show revoked s
  doomed_serial revoked s t e = ap (λ serial. not (serial == "") && contains serial revoked) e

  doomed_closed :
      (revoked : List String) (reason : String) (registry : AgentRegistry R Q) (key : SessionKey)
      (i : ℕ) (s : Session R Q)
      → IsKeyed show registry
      → get key registry.sessions ≡ some i
      → get i (
          terminate_all show reason
            (keep
              (λ entry. is_doomed show revoked entry.1)
              (live show registry.sessions registry.heap))
            registry.heap)
        ≡ some s
      → is_doomed show revoked s ≡ true
      → s.is_closed ≡ true
  doomed_closed revoked reason registry key i s keyed e h d =
      let doomed =
        keep (λ entry. is_doomed show revoked entry.1)
          (live show registry.sessions registry.heap) in
      let (before, stored, same) = keyed key i e in
      let (after, kept, (serial, closed)) =
        terminate_all-Fate reason doomed registry.heap i before stored in
      let own = some_inj after s (sym kept ∙ h) in
      let was =
        sym (doomed_serial revoked before after serial) ∙ ap (is_doomed show revoked) own ∙ d in
      let named = names-live revoked key i before registry.sessions registry.heap e stored was in
      ap (λ x. x.is_closed) (sym own) ∙ ground (arith, closed, named)

  sweep_closed :
      (serials revoked : List String) (reason : String) (registry : AgentRegistry R Q)
      (key : SessionKey) (i : ℕ) (s : Session R Q)
      → IsKeyed show registry
      → serials ≡ revoked
      → get key (sweep show serials revoked reason registry).0.sessions ≡ some i
      → get i (sweep show serials revoked reason registry).0.heap ≡ some s
      → is_doomed show revoked s ≡ true
      → s.is_closed ≡ true
  sweep_closed [] revoked reason registry key i s keyed none_listed e h d =
      absurd (ground (arith, ap (contains s.certificate_serial) none_listed))
  sweep_closed (serial ∷ serials) revoked reason registry key i s keyed listed e h d =
      doomed_closed revoked reason registry key i s keyed e h d

  -- Whatever has happened to a registry that began empty, after a sweep for revoked certificates
  -- every registered session whose certificate is among them is closed, whatever tenant it belongs
  -- to.
  pub swept_closed :
      (events : List (Event R Q)) (start : AgentRegistry R Q) (revoked : List String)
      (reason : String) (key : SessionKey) (i : ℕ) (s : Session R Q)
      → start.sessions ≡ []
      → get key (terminate_revoked show revoked reason (run show events start)).0.sessions ≡ some i
      → get i (terminate_revoked show revoked reason (run show events start)).0.heap ≡ some s
      → is_doomed show revoked s ≡ true
      → s.is_closed ≡ true
  unfolding terminate_revoked
  swept_closed events start revoked reason key i s new e h d =
      let registry = run show events start in
      sweep_closed revoked revoked reason registry key i s
        (run-IsKeyed show events start (new-IsKeyed show start new)) refl e h d

  other_not_held :
      (s : Session R Q) (key : SessionKey) (i : ℕ) (registry : AgentRegistry R Q)
      → get i registry.heap ≡ some s
      → IsKeyed show registry
      → ((key_of show s).0 == key.0 && (key_of show s).1 == key.1) ≡ false
      → holds (get key registry.sessions) i ≡ false
  other_not_held s key i registry e keyed p =
      elim (Bool-cases (holds (get key registry.sessions) i)) [
        | inr q ↦ q
        | inl q ↦
            let (t, stored, same) = keyed key i (holds_some (get key registry.sessions) i q) in
            let own : key_of show s ≡ key =
              ap (key_of show) (some_inj s t (sym e ∙ stored)) ∙ same in
            absurd (ground (arith, (key_test_iff (key_of show s) key).1 own, p))
      ]

  removed_entry :
      (s : Session R Q) (key : SessionKey) (i : ℕ) (registry : AgentRegistry R Q)
      → get i registry.heap ≡ some s
      → IsKeyed show registry
      → get key (unregister_session show (some s) i registry).sessions
        ≡ (if holds (get key registry.sessions) i then none else get key registry.sessions)
  removed_entry s key i registry e keyed =
      elim (Bool-cases ((key_of show s).0 == key.0 && (key_of show s).1 == key.1)) [
        | inl p ↦
            subst
              (λ k.
                get k (unregister_session show (some s) i registry).sessions
                ≡ (if holds (get k registry.sessions) i then none else get k registry.sessions))
              ((key_test_iff (key_of show s) key).0 p)
              (own_entry (holds (get (key_of show s) registry.sessions) i) (key_of show s)
                registry.sessions)
        | inr p ↦ rw (other_not_held s key i registry e keyed p) (
            kept_entry (holds (get (key_of show s) registry.sessions) i) (key_of show s) key
              registry.sessions p)
      ]

  -- Whatever has happened to a registry that began empty, a session that leaves takes its own entry
  -- with it and no other: where an agent has connected again under the same key, the session that
  -- is left behind does not remove the new one.
  pub unregister_own :
      (events : List (Event R Q)) (start : AgentRegistry R Q) (key : SessionKey) (i : ℕ)
      (s : Session R Q)
      → start.sessions ≡ []
      → get i (run show events start).heap ≡ some s
      → get key (unregister show i (run show events start)).sessions ≡ (
          if holds (get key (run show events start).sessions) i
          then none
          else get key (run show events start).sessions)
  unfolding unregister
  unregister_own events start key i s new e =
      let registry = run show events start in
      rw e (
        removed_entry s key i registry e
          (run-IsKeyed show events start (new-IsKeyed show start new)))
