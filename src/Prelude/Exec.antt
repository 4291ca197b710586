-- ===== src/Prelude/Exec.antt =====
-- Code that may raise, and code that also changes an object. What was written before a raise stays
-- written, so the object comes back beside an exception too.
use mathlib.Core.Path.{◌≡◌, refl, sym, ap, subst}
use mathlib.Core.Logic.{◌⊎◌, inl, inr}
use mathlib.Core.Bool.{Bool, true, false}

pub data Result {ℓ κ} (E : Type ℓ) (A : Type κ) : Type (ℓ ⊔ κ) where
  ok : A → Result E A
  raised : E → Result E A

abbrev pub Exec {ℓ} : Type ℓ → Type ℓ → Type ℓ → Type ℓ
Exec E S A = S → Result E A × S

module _ {ℓ} {E S A : Type ℓ} where
  abbrev pub pure : A → Exec E S A
  pure a s = (ok a, s)

  abbrev pub raise : E → Exec E S A
  raise e s = (raised e, s)

module _ {ℓ} {E S A B : Type ℓ} where
  abbrev pub continue : Result E A → (A → Exec E S B) → Exec E S B
  continue (ok a) f s = f a s
  continue (raised e) f s = (raised e, s)

  infixl 10 ◌>>=◌ ◌>>◌
  unfoldable pub ◌>>=◌ : Exec E S A → (A → Exec E S B) → Exec E S B
  ◌>>=◌ m f s = let (r, s') = m s in continue r f s'

  abbrev pub ◌>>◌ : Exec E S A → Exec E S B → Exec E S B
  m >> n = m >>= λ _. n

module _ {ℓ} {E S : Type ℓ} where
  -- `if test: raise e`
  unfoldable pub raise_if : Bool → E → Exec E S (Unit {ℓ})
  raise_if true e s = (raised e, s)
  raise_if false e s = (ok tt, s)

  -- `if test: m`
  unfoldable pub when : Bool → Exec E S (Unit {ℓ}) → Exec E S (Unit {ℓ})
  when true m s = m s
  when false m s = (ok tt, s)

  -- `if not test: m`
  unfoldable pub unless : Bool → Exec E S (Unit {ℓ}) → Exec E S (Unit {ℓ})
  unless true m s = (ok tt, s)
  unless false m s = m s

-- `m` only checks: it passes or raises, and writes nothing.
pub record Checks {ℓ} {E S A : Type ℓ} (m : Exec E S A) (s : S) : Type ℓ where
  pub outcome : ((a : A) × (m s ≡ (ok a, s))) ⊎ ((e : E) × (m s ≡ (raised e, s)))

outcome_of {ℓ} :
    {E S A : Type ℓ} (r : Result E A × S) {s : S}
    → r.1 ≡ s
    → ((a : A) × (r ≡ (ok a, s))) ⊎ ((e : E) × (r ≡ (raised e, s)))
outcome_of (ok a, t) h = inl (a, ap (λ u. (ok a, u)) h)
outcome_of (raised e, t) h = inr (e, ap (λ u. (raised e, u)) h)

-- Code that leaves the object as it was only checks.
pub Checks-of_same {ℓ} : {E S A : Type ℓ} (m : Exec E S A) (s : S) → (m s).1 ≡ s → Checks m s
Checks-of_same m s h = record { outcome = outcome_of (m s) h }

-- `m`, run on `s`, leaves an object with `P`.
pub record Ends {ℓ} {E S A : Type ℓ} (P : S → Type ℓ) (m : Exec E S A) (s : S) : Type ℓ where
  pub holds : P (m s).1

module _ {ℓ} {E S : Type ℓ} where
  pub raise_if-Checks : (b : Bool) (e : E) (s : S) → Checks (raise_if b e) s
  unfolding raise_if
  raise_if-Checks true e s = record { outcome = inr (e, refl) }
  raise_if-Checks false e s = record { outcome = inl (tt, refl) }

  pub when-Checks : (b : Bool) {m : Exec E S (Unit {ℓ})} {s : S} → Checks m s → Checks (when b m) s
  unfolding when
  when-Checks true c = record { outcome = c.outcome }
  when-Checks false c = record { outcome = inl (tt, refl) }

  pub unless-Checks :
      (b : Bool) {m : Exec E S (Unit {ℓ})} {s : S} → Checks m s → Checks (unless b m) s
  unfolding unless
  unless-Checks true c = record { outcome = inl (tt, refl) }
  unless-Checks false c = record { outcome = c.outcome }

  pub when-true : (m : Exec E S (Unit {ℓ})) (s : S) → when true m s ≡ m s
  unfolding when
  when-true m s = refl

  pub unless-pass :
      (b : Bool) (m : Exec E S (Unit {ℓ})) (s : S)
      → unless b m s ≡ (ok tt, s)
      → (b ≡ true) ⊎ (m s ≡ (ok tt, s))
  unfolding unless
  unless-pass true m s h = inl refl
  unless-pass false m s h = inr h

  pub when-pass :
      (b : Bool) (m : Exec E S (Unit {ℓ})) (s : S)
      → when b m s ≡ (ok tt, s)
      → (b ≡ false) ⊎ (m s ≡ (ok tt, s))
  unfolding when
  when-pass true m s h = inr h
  when-pass false m s h = inl refl

module _ {ℓ} {E S A B : Type ℓ} where
  pub bind-ok :
      (m : Exec E S A) (f : A → Exec E S B) (s t : S) (a : A)
      → m s ≡ (ok a, t)
      → (m >>= f) s ≡ f a t
  unfolding ◌>>=◌
  bind-ok m f s t a e = rw (e, ◌>>=◌)

  pub bind-raised :
      (m : Exec E S A) (f : A → Exec E S B) (s t : S) (e : E)
      → m s ≡ (raised e, t)
      → (m >>= f) s ≡ (raised e, t)
  unfolding ◌>>=◌
  bind-raised m f s t e h = rw (h, ◌>>=◌)

module _ {ℓ} {E S A B : Type ℓ} {P : S → Type ℓ} {s : S} where
  pub after_read :
      (m : Exec E S A) (f : A → Exec E S B) (a : A)
      → m s ≡ (ok a, s)
      → Ends P (f a) s
      → Ends P (m >>= f) s
  after_read m f a e h = record { holds = subst (λ r. P r.1) (sym (bind-ok m f s s a e)) h.holds }

module _ {ℓ} {E S A B : Type ℓ} {P : S → Type ℓ} where
  continue-holds :
      (f : A → Exec E S B) (r : Result E A) (t : S)
      → P t
      → ((a : A) (u : S) → P u → Ends P (f a) u)
      → P (continue r f t).1
  continue-holds f (ok a) t h go = (go a t h).holds
  continue-holds f (raised e) t h go = h

module _ {ℓ} {E S A B : Type ℓ} {P : S → Type ℓ} {s : S} where
  pub after_check :
      {m : Exec E S A} (f : A → Exec E S B)
      → P s
      → Checks m s
      → ((a : A) → m s ≡ (ok a, s) → Ends P (f a) s)
      → Ends P (m >>= f) s
  after_check {m} f h c go = elim c.outcome [
    | inl (a, e) ↦ record { holds = subst (λ r. P r.1) (sym (bind-ok m f s s a e)) (go a e).holds }
    | inr (x, e) ↦ record { holds = subst (λ r. P r.1) (sym (bind-raised m f s s x e)) h }
  ]

  pub after_step :
      {m : Exec E S A} (f : A → Exec E S B)
      → Ends P m s
      → ((a : A) (u : S) → P u → Ends P (f a) u)
      → Ends P (m >>= f) s
  unfolding ◌>>=◌
  after_step {m} f h go = record { holds = continue-holds f (m s).0 (m s).1 h.holds go }
