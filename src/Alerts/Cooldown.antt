-- ===== src/Alerts/Cooldown.antt =====
-- The ledger of alerts over a history of claims, and what a parsed trigger always names.
use ai_kubernetes_troublesho.Prelude.{
  ℕ, ◌+◌, ◌*◌, ◌≤◌, ◌<◌, ◌≡◌, ◌≢◌, refl, sym, ap, ◌∙◌, String, true, false, Option, none, some,
  List, [], ◌∷◌, arith, ◌==◌, string_eq, eq_iff, keep, if◌then◌else◌, Bool-cases, Option-cases, inl,
  inr,
}
use ai_kubernetes_troublesho.Prelude.Dict.{get, get-put}
use ai_kubernetes_troublesho.Alerts.{
  Ledger, is_cooling, forget, is_held, claim, AlertTrigger, Alert, Labels, Payload, add_triggers,
  parse_alertmanager, no_labels, first_label, cluster_labels, merge, fingerprint_of,
}

module _ (cooldown : ℕ) where
  -- a claim: its key and its time
  abbrev pub after_claims : List (String × ℕ) → Ledger → Ledger
  after_claims [] seen = seen
  after_claims ((key, now) ∷ claims) seen = after_claims claims (claim key cooldown now seen).1

  -- No claim is later than `now`.
  abbrev pub NoneLater : ℕ → List (String × ℕ) → Type 0
  NoneLater now [] = Unit
  NoneLater now (c ∷ claims) = (c.1 ≤ now) × NoneLater now claims

  -- An entry that is still cooling is not forgotten.
  get-keep :
      (key : String) (now at : ℕ) (seen : Ledger)
      → now < at + cooldown * 1000
      → get key seen ≡ some at
      → get key (keep (λ entry. is_cooling cooldown now entry.1) seen) ≡ some at
  unfolding get
  get-keep key now at [] l h = h
  get-keep key now at ((other, last) ∷ seen) l h = ground (arith, get-keep key now at seen l)

  get-forget :
      (key : String) (now at : ℕ) (seen : Ledger)
      → now < at + cooldown * 1000
      → get key seen ≡ some at
      → get key (forget cooldown now seen) ≡ some at
  unfolding forget
  get-forget key now at seen l h = ground (arith, get-keep key now at seen l h)

  -- A key that is still cooling is not the one that is claimed.
  unclaimed :
      (key other : String) (now at : ℕ) (seen : Ledger)
      → now < at + cooldown * 1000
      → get key (forget cooldown now seen) ≡ some at
      → is_held cooldown now (get other (forget cooldown now seen)) ≡ false
      → (if other == key then some now else get key (forget cooldown now seen)) ≡ some at
  unclaimed key other now at seen l kept e = elim (Bool-cases (other == key)) [
    | inl p ↦
        let same = ap (λ k. get k (forget cooldown now seen)) ((eq_iff other key).0 p) in
        let cooled : is_held cooldown now (some at) ≡ false =
          sym (ap (is_held cooldown now) (same ∙ kept)) ∙ e in
        absurd (ground arith)
    | inr p ↦ rw p kept
  ]

  get-claim :
      (key other : String) (now at : ℕ) (seen : Ledger)
      → now < at + cooldown * 1000
      → get key seen ≡ some at
      → get key (claim other cooldown now seen).1 ≡ some at
  unfolding claim
  get-claim key other now at seen l h =
      let kept = get-forget key now at seen l h in
      elim (Bool-cases (is_held cooldown now (get other (forget cooldown now seen)))) [
        | inl e ↦ rw (e, claim) kept
        | inr e ↦
            rw (e, claim)
              (get-put other key now (forget cooldown now seen)
                ∙ unclaimed key other now at seen l kept e)
      ]

  get-after_claims :
      (key : String) (now at : ℕ) (claims : List (String × ℕ)) (seen : Ledger)
      → NoneLater now claims
      → now < at + cooldown * 1000
      → get key seen ≡ some at
      → get key (after_claims claims seen) ≡ some at
  get-after_claims key now at [] seen b l h = h
  get-after_claims key now at (c ∷ claims) seen b l h =
      get-after_claims key now at claims (claim c.0 cooldown c.1 seen).1 b.1 l
        (get-claim key c.0 c.1 at seen (omega (arith, b.0)) h)

  get-claim_granted :
      (key : String) (at : ℕ) (seen : Ledger)
      → (claim key cooldown at seen).0 ≡ true
      → get key (claim key cooldown at seen).1 ≡ some at
  unfolding claim
  get-claim_granted key at seen h =
      ground (arith, eq_iff key key, get-put key key at (forget cooldown at seen))

  held :
      (key : String) (now at : ℕ) (seen : Ledger)
      → now < at + cooldown * 1000
      → get key seen ≡ some at
      → (claim key cooldown now seen).0 ≡ false
  unfolding claim
  held key now at seen l h =
      let kept = get-forget key now at seen l h in
      let e : is_held cooldown now (get key (forget cooldown now seen)) ≡ true =
        rw kept (ground arith) in
      rw e refl

  -- An alert that was claimed is refused until its cooldown is over, whatever is claimed in between
  -- and whether or not old entries are forgotten meanwhile. All claims use one cooldown, and none
  -- in between is later than the refused one.
  pub claim_cools :
      (key : String) (at now : ℕ) (claims : List (String × ℕ)) (seen : Ledger)
      → (claim key cooldown at seen).0 ≡ true
      → NoneLater now claims
      → now < at + cooldown * 1000
      → (claim key cooldown now (after_claims claims (claim key cooldown at seen).1)).0 ≡ false
  claim_cools key at now claims seen h b l =
      let granted = (claim key cooldown at seen).1 in
      held key now at (after_claims claims granted) l
        (get-after_claims key now at claims granted b l (get-claim_granted key at seen h))

module _ (digest : Labels → String) where
  -- Every trigger names a cluster and has a fingerprint.
  abbrev pub AllNamed : List AlertTrigger → Type 0
  AllNamed [] = Unit
  AllNamed (t ∷ triggers) = (t.cluster ≢ "") × (t.fingerprint ≢ "") × AllNamed triggers

  add_triggers-AllNamed :
      (common : Labels) (alerts : List (Option Alert))
      → ((labels : Labels) → digest labels ≢ "")
      → AllNamed (add_triggers digest common alerts)
  unfolding add_triggers
  add_triggers-AllNamed common [] h = tt
  add_triggers-AllNamed common (none ∷ alerts) h = add_triggers-AllNamed common alerts h
  add_triggers-AllNamed common (some alert ∷ alerts) h =
      let merged = merge common (no_labels alert.labels) in
      ground (
        arith,
        add_triggers-AllNamed common alerts h,
        eq_iff (first_label merged cluster_labels) "",
        eq_iff (fingerprint_of digest alert.fingerprint merged) "",
        h merged,
      )

  -- Every trigger that a webhook gives rise to names a cluster and has a fingerprint, as long as
  -- the digest of labels is never the empty text.
  pub parse_alertmanager-AllNamed :
      (payload : Payload)
      → ((labels : Labels) → digest labels ≢ "")
      → AllNamed (parse_alertmanager digest payload)
  unfolding parse_alertmanager
  parse_alertmanager-AllNamed payload h = elim (Option-cases payload.alerts) [
    | inl e ↦ rw (e, parse_alertmanager) tt
    | inr (alerts, e) ↦
        rw (e, parse_alertmanager)
          (add_triggers-AllNamed (no_labels payload.common_labels) alerts h)
  ]
