-- ===== src/Gateway/Registry/Reached.antt =====
-- What the registry of agents can become: every entry stands under its session's own tenant and
-- cluster.
use ai_kubernetes_troublesho.Prelude.{
  ℕ, String, Option, none, some, List, [], ◌∷◌, ◌≡◌, refl, sym, ap, ◌∙◌, ◌==◌, arith, string_eq,
  nat_eq, contains, keep, Bool-cases, some_inj, Option-cases, inl, inr,
}
use ai_kubernetes_troublesho.Prelude.Dict.{Dict, get, put, modify, get-put, get-remove, get-modify}
use ai_kubernetes_troublesho.Gateway.{
  Session, cancel_all, terminate, begin_collect, end_collect, touch, on_evidence, on_done,
}
use ai_kubernetes_troublesho.Gateway.Settled.{
  Op, begun, ended, evidence, finished, heard, cancelled, terminated, step,
}
use ai_kubernetes_troublesho.Gateway.Registry.{
  SessionKey, session_key_eq, key_test_iff, AgentRegistry, key_of, cancel_existing,
  register_session, register, holds, unregister_session, unregister, refresh, scope_of, lookup,
  live, is_doomed, terminate_all, sweep, terminate_revoked, open_session, opened, on_session,
}

-- What happens to the registry.
pub data Event (R : Type 0) (Q : Type 0) : Type 0 where
  opens : ℕ → Session R Q → Event R Q
  registers unregisters refreshes : ℕ → Event R Q
  sweeps : List String → String → Event R Q
  happens : ℕ → Op R Q → Event R Q

module _ {R Q : Type 0} (show : ℕ → String) where
  abbrev pub apply : Event R Q → AgentRegistry R Q → AgentRegistry R Q
  apply (opens i s) registry = opened show i s registry
  apply (registers i) registry = register show i registry
  apply (unregisters i) registry = unregister show i registry
  apply (refreshes i) registry = refresh show i registry
  apply (sweeps revoked reason) registry = (terminate_revoked show revoked reason registry).0
  apply (happens i op) registry = on_session show i op registry

  unfoldable pub run : List (Event R Q) → AgentRegistry R Q → AgentRegistry R Q
  run [] registry = registry
  run (event ∷ events) registry = run events (apply event registry)

  -- Every entry holds a session of the tenant and the cluster under which it stands.
  abbrev pub IsKeyed : AgentRegistry R Q → Type 0
  IsKeyed registry =
      (key : SessionKey) (i : ℕ)
      → get key registry.sessions ≡ some i
      → (s : Session R Q) × (get i registry.heap ≡ some s) × (key_of show s ≡ key)

  abbrev Carries : Dict ℕ (Session R Q) → Dict ℕ (Session R Q) → Type 0
  Carries heap after =
      (i : ℕ) (s : Session R Q)
      → get i heap ≡ some s
      → (t : Session R Q) × (get i after ≡ some t) × (key_of show t ≡ key_of show s)

  modify-Carries :
      (f : Session R Q → Session R Q) (i : ℕ) (heap : Dict ℕ (Session R Q))
      → ((s : Session R Q) → key_of show (f s) ≡ key_of show s)
      → Carries heap (modify f i heap)
  modify-Carries f i heap same j s h = elim (Bool-cases (i == j)) [
    | inl p ↦ (f s, rw (get-modify f i j heap, p, h) refl, same s)
    | inr p ↦ (s, rw (get-modify f i j heap, p) h, refl)
  ]

  terminate_all-Carries :
      (reason : String) (doomed : List (ℕ × Session R Q)) (heap : Dict ℕ (Session R Q))
      → Carries heap (terminate_all show reason doomed heap)
  unfolding terminate_all terminate cancel_all
  terminate_all-Carries reason [] heap j s h = (s, h, refl)
  terminate_all-Carries reason ((i, old) ∷ doomed) heap j s h =
      let (t, stored, same) = modify-Carries (terminate show reason) i heap (λ x. refl) j s h in
      let (u, kept, again) =
        terminate_all-Carries reason doomed (modify (terminate show reason) i heap) j t stored in
      (u, kept, again ∙ same)

  carried-IsKeyed :
      (registry : AgentRegistry R Q) (heap : Dict ℕ (Session R Q))
      → Carries registry.heap heap
      → IsKeyed registry
      → IsKeyed (record registry { heap = heap })
  carried-IsKeyed registry heap c h key i e =
      let (s, stored, same) = h key i e in
      let (t, kept, again) = c i s stored in (t, kept, again ∙ same)

  step-key : (op : Op R Q) (s : Session R Q) → key_of show (step show op s) ≡ key_of show s
  unfolding begin_collect end_collect touch on_evidence on_done cancel_all terminate
  step-key (begun specs) s = refl
  step-key (ended id) s = refl
  step-key (evidence r id) s = elim (Bool-cases (contains id s.pending)) [
    | inl p ↦ rw p refl
    | inr p ↦ rw p refl
  ]
  step-key (finished id detail) s = elim (Bool-cases (contains id s.pending)) [
    | inl p ↦ rw p refl
    | inr p ↦ rw p refl
  ]
  step-key (heard now degradation) s = refl
  step-key (cancelled reason) s = refl
  step-key (terminated reason) s = refl

  cancel_existing-Carries :
      (existing : Option ℕ) (heap : Dict ℕ (Session R Q))
      → Carries heap (cancel_existing show existing heap)
  unfolding cancel_all
  cancel_existing-Carries none heap = λ j s h. (s, h, refl)
  cancel_existing-Carries (some old) heap =
      modify-Carries (cancel_all show "The agent reconnected.") old heap (λ x. refl)

  register-IsKeyed :
      (found : Option (Session R Q)) (i : ℕ) (registry : AgentRegistry R Q)
      → get i registry.heap ≡ found
      → IsKeyed registry
      → IsKeyed (register_session show found i registry)
  register-IsKeyed none i registry e h key j stored = h key j stored
  register-IsKeyed (some s) i registry e h key j stored =
      let existing = get (key_of show s) registry.sessions in
      let carried = cancel_existing-Carries existing registry.heap in
      elim (Bool-cases (key_of show s == key)) [
        | inl p ↦
            let same = (key_test_iff (key_of show s) key).0 p in
            let own : i ≡ j =
              ground (arith, rw (get-put (key_of show s) key i registry.sessions, p) at stored) in
            let (t, kept, again) = carried i s e in (t, rw (sym own) kept, again ∙ same)
        | inr p ↦
            let old = rw (get-put (key_of show s) key i registry.sessions, p) at stored in
            carried-IsKeyed registry (cancel_existing show existing registry.heap) carried h key j
              old
      ]

  unregister-IsKeyed :
      (found : Option (Session R Q)) (i : ℕ) (registry : AgentRegistry R Q)
      → IsKeyed registry
      → IsKeyed (unregister_session show found i registry)
  unfolding cancel_all
  unregister-IsKeyed none i registry h key j stored = h key j stored
  unregister-IsKeyed (some s) i registry h key j stored =
      let heap = modify (cancel_all show "The agent disconnected.") i registry.heap in
      let carried =
        modify-Carries (cancel_all show "The agent disconnected.") i registry.heap (λ x. refl) in
      carried-IsKeyed registry heap carried h key j
        (elim (Bool-cases (holds (get (key_of show s) registry.sessions) i)) [
          | inl p ↦ ground (arith, rw p at stored, get-remove (key_of show s) key registry.sessions)
          | inr p ↦ rw p at stored
        ])

  open-IsKeyed :
      (found : Option (Session R Q)) (i : ℕ) (s : Session R Q) (registry : AgentRegistry R Q)
      → get i registry.heap ≡ found
      → IsKeyed registry
      → IsKeyed (open_session show found i s registry)
  open-IsKeyed (some old) i s registry e h = h
  open-IsKeyed none i s registry e h =
      carried-IsKeyed registry (put i s registry.heap)
        (λ j t stored. elim (Bool-cases (i == j)) [
          | inl p ↦
              absurd (
                ground
                  (arith, stored, e, ap (λ k. get k registry.heap) ((nat_eq.test_iff i j).0 p)))
          | inr p ↦ (t, rw (get-put i j s registry.heap, p) stored, refl)
        ])
        h

  sweep-IsKeyed :
      (serials revoked : List String) (reason : String) (registry : AgentRegistry R Q)
      → IsKeyed registry
      → IsKeyed (sweep show serials revoked reason registry).0
  sweep-IsKeyed [] revoked reason registry h = h
  sweep-IsKeyed (serial ∷ serials) revoked reason registry h =
      let doomed =
        keep (λ entry. is_doomed show revoked entry.1)
          (live show registry.sessions registry.heap) in
      carried-IsKeyed registry (terminate_all show reason doomed registry.heap)
        (terminate_all-Carries reason doomed registry.heap) h

  apply-IsKeyed :
      (event : Event R Q) (registry : AgentRegistry R Q)
      → IsKeyed registry
      → IsKeyed (apply event registry)
  unfolding opened register unregister refresh terminate_revoked on_session
  apply-IsKeyed (opens i s) registry h = open-IsKeyed (get i registry.heap) i s registry refl h
  apply-IsKeyed (registers i) registry h = register-IsKeyed (get i registry.heap) i registry refl h
  apply-IsKeyed (unregisters i) registry h = unregister-IsKeyed (get i registry.heap) i registry h
  apply-IsKeyed (refreshes i) registry h = h
  apply-IsKeyed (sweeps revoked reason) registry h = sweep-IsKeyed revoked revoked reason registry h
  apply-IsKeyed (happens i op) registry h =
      carried-IsKeyed registry (modify (step show op) i registry.heap)
        (modify-Carries (step show op) i registry.heap (step-key op)) h

  pub run-IsKeyed :
      (events : List (Event R Q)) (registry : AgentRegistry R Q)
      → IsKeyed registry
      → IsKeyed (run events registry)
  unfolding run
  run-IsKeyed [] registry h = h
  run-IsKeyed (event ∷ events) registry h =
      run-IsKeyed events (apply event registry) (apply-IsKeyed event registry h)

  pub new-IsKeyed : (registry : AgentRegistry R Q) → registry.sessions ≡ [] → IsKeyed registry
  unfolding get
  new-IsKeyed registry e key i stored = absurd (ground (arith, rw e at stored))

  -- Whatever has happened to a registry that began empty, a lookup only ever gives a session of the
  -- tenant that the caller named or runs as, and of the cluster that it asked for.
  pub lookup_own :
      (events : List (Event R Q)) (registry : AgentRegistry R Q) (cluster : String)
      (tenant : Option String) (current : String) (s : Session R Q)
      → registry.sessions ≡ []
      → lookup show cluster tenant current (run events registry) ≡ some s
      → (s.tenant ≡ scope_of tenant current) × (s.cluster_id ≡ cluster)
  unfolding lookup
  lookup_own events registry cluster tenant current s e found =
      let reached = run events registry in
      let key : SessionKey = (scope_of tenant current, cluster) in
      elim (Option-cases (get key reached.sessions)) [
        | inl q ↦ absurd (ground (arith, rw (q, lookup) at found))
        | inr (i, q) ↦
            let (t, stored, same) = run-IsKeyed events registry (new-IsKeyed registry e) key i q in
            let own : t ≡ s = some_inj t s (sym stored ∙ rw (q, lookup) at found) in
            (
              sym (ap (λ x. x.tenant) own) ∙ ap (λ k. k.0) same,
              sym (ap (λ x. x.cluster_id) own) ∙ ap (λ k. k.1) same,
            )
      ]
