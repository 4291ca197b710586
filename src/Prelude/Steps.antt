-- ===== src/Prelude/Steps.antt =====
-- Code that writes and may raise, step by step: what holds of the object where it returned, and
-- where it raised.
use mathlib.Core.Path.{◌≡◌, refl, sym, subst}
use mathlib.Core.Bool.{Bool, true, false}
use mathlib.Core.Logic.{inl, inr}
use ai_kubernetes_troublesho.Prelude.Exec.{
  Result, ok, raised, Exec, continue, ◌>>=◌, when, unless, Checks, Ends,
}

abbrev pub Ended {ℓ} : {E S A : Type ℓ} → (S → Type ℓ) → (A → S → Type ℓ) → Result E A × S → Type ℓ
Ended P R (ok a, t) = R a t
Ended P R (raised e, t) = P t

-- `m`, run on `s`, leaves an object with `P` where it raises, and with `R` where it returns.
pub record Leaves {ℓ} {E S A : Type ℓ} (P : S → Type ℓ) (R : A → S → Type ℓ) (m : Exec E S A)
    (s : S) : Type ℓ where
  pub holds : Ended P R (m s)

end_of {ℓ} :
    {E S A : Type ℓ} (P : S → Type ℓ) (r : Result E A) (t : S) → Ended P (λ _ u. P u) (r, t) → P t
end_of P (ok a) t h = h
end_of P (raised e) t h = h

weaker {ℓ} :
    {E S A : Type ℓ} (P : S → Type ℓ) {R Q : A → S → Type ℓ} (r : Result E A) (t : S)
    → Ended P R (r, t)
    → ((a : A) (u : S) → R a u → Q a u)
    → Ended P Q (r, t)
weaker P (ok a) t h go = go a t h
weaker P (raised e) t h go = h

kept_ends {ℓ} :
    {E S A : Type ℓ} (P : S → Type ℓ) (r : Result E A) (t : S) → P t → Ended P (λ _ u. P u) (r, t)
kept_ends P (ok a) t h = h
kept_ends P (raised e) t h = h

module _ {ℓ} {E S A : Type ℓ} {P : S → Type ℓ} where
  pub Ends-leaves : {m : Exec E S A} {s : S} → Ends P m s → Leaves P (λ _ u. P u) m s
  Ends-leaves {m} {s} h = record { holds = kept_ends P (m s).0 (m s).1 h.holds }

  module _ {B : Type ℓ} {R : A → S → Type ℓ} {Q : B → S → Type ℓ} where
    ended_then :
        (f : A → Exec E S B) (r : Result E A) (t : S)
        → Ended P R (r, t)
        → ((a : A) (u : S) → R a u → Leaves P Q (f a) u)
        → Ended P Q (continue r f t)
    ended_then f (ok a) t h go = (go a t h).holds
    ended_then f (raised e) t h go = h

    pub then_leaves :
        {m : Exec E S A} {s : S} (f : A → Exec E S B)
        → Leaves P R m s
        → ((a : A) (u : S) → R a u → Leaves P Q (f a) u)
        → Leaves P Q (m >>= f) s
    unfolding ◌>>=◌
    then_leaves {m} {s} f h go = record { holds = ended_then f (m s).0 (m s).1 h.holds go }

  module _ {R Q : A → S → Type ℓ} where
    pub weaken_leaves :
        {m : Exec E S A} {s : S}
        → Leaves P R m s
        → ((a : A) (u : S) → R a u → Q a u)
        → Leaves P Q m s
    weaken_leaves {m} {s} h go = record { holds = weaker P (m s).0 (m s).1 h.holds go }

  -- Code that only checks.
  pub Checks-leaves :
      (R : A → S → Type ℓ) {m : Exec E S A} {s : S}
      → Checks m s
      → P s
      → ((a : A) → m s ≡ (ok a, s) → R a s)
      → Leaves P R m s
  Checks-leaves R {m} {s} c h go = elim c.outcome [
    | inl (a, e) ↦ record { holds = subst (Ended P R) (sym e) (go a e) }
    | inr (x, e) ↦ record { holds = subst (Ended P R) (sym e) h }
  ]

  pub at_end : {m : Exec E S A} {s : S} → Leaves P (λ _ u. P u) m s → P (m s).1
  at_end {m} {s} h = end_of P (m s).0 (m s).1 h.holds

module _ {ℓ} {E S : Type ℓ} {P : S → Type ℓ} {R : Unit {ℓ} → S → Type ℓ} where
  pub when_leaves :
      (b : Bool) {m : Exec E S (Unit {ℓ})} {s : S}
      → (b ≡ false → R tt s)
      → Leaves P R m s
      → Leaves P R (when b m) s
  unfolding when
  when_leaves true skip h = record { holds = h.holds }
  when_leaves false skip h = record { holds = skip refl }

  pub unless_leaves :
      (b : Bool) {m : Exec E S (Unit {ℓ})} {s : S}
      → (b ≡ true → R tt s)
      → Leaves P R m s
      → Leaves P R (unless b m) s
  unfolding unless
  unless_leaves true skip h = record { holds = skip refl }
  unless_leaves false skip h = record { holds = h.holds }
