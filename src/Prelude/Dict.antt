-- ===== src/Prelude/Dict.antt =====
-- Python's `dict`: an association list in insertion order.
use mathlib.Core.Path.{◌≡◌, refl, sym}
use mathlib.Core.Logic.{inl, inr}
use mathlib.Core.Bool.{Bool}
use Prim.Native.Nat.{ℕ, ◌+◌}
use mathlib.Core.Option.{Option, none, some}
use mathlib.Core.List.{List, [], ◌∷◌}
use native.Mathlib.Omega.{arith}
use package.ai_kubernetes_troublesho.Prelude.Tests.{Key, ◌==◌, if◌then◌else◌, ==_refl, Bool-cases}

abbrev pub Dict {ℓ κ} : Type ℓ → Type κ → Type (ℓ ⊔ κ)
Dict K V = List (K × V)

module _ {ℓ κ} {K : Type ℓ} {V : Type κ} ⦃e : Key K⦄ where
  -- `d.get(k)`
  unfoldable pub get : K → Dict K V → Option V
  get k [] = none
  get k ((j, v) ∷ d) = if j == k then some v else get k d

  -- `d[k] = v`: a key that is there keeps its place
  unfoldable pub put : K → V → Dict K V → Dict K V
  put k v [] = (k, v) ∷ []
  put k v ((j, w) ∷ d) = if j == k then (j, v) ∷ d else (j, w) ∷ put k v d

  -- `d.pop(k, None)`, `del d[k]`
  unfoldable pub remove : K → Dict K V → Dict K V
  remove k [] = []
  remove k ((j, v) ∷ d) = let rest = remove k d in if j == k then rest else (j, v) ∷ rest

  pub get-put :
      (k j : K) (v : V) (d : Dict K V) → get j (put k v d) ≡ (if k == j then some v else get j d)
  unfolding get put
  get-put k j v [] = refl
  get-put k j v ((i, w) ∷ d) =
      ground (arith, e.test_iff k j, e.test_iff i k, e.test_iff i j, get-put k j v d)

  pub get-remove :
      (k j : K) (d : Dict K V) → get j (remove k d) ≡ (if k == j then none else get j d)
  unfolding get remove
  get-remove k j [] = ground arith
  get-remove k j ((i, v) ∷ d) =
      ground (arith, e.test_iff k j, e.test_iff i k, e.test_iff i j, get-remove k j d)

  pub get-put_self : (k : K) (v : V) (d : Dict K V) → get k (put k v d) ≡ some v
  get-put_self k v d = rw (get-put, ==_refl k)

-- `if k in d: d[k] = f(d[k])`
abbrev pub mapped {ℓ} : {V : Type ℓ} → (V → V) → Option V → Option V
mapped f none = none
mapped f (some v) = some (f v)

module _ {ℓ κ} {K : Type ℓ} {V : Type κ} ⦃e : Key K⦄ where
  abbrev change : (V → V) → Option V → K → Dict K V → Dict K V
  change f none k d = d
  change f (some v) k d = put k (f v) d

  unfoldable pub modify : (V → V) → K → Dict K V → Dict K V
  modify f k d = change f (get k d) k d

  change-get :
      (f : V → V) (k j : K) (found : Option V) (d : Dict K V)
      → get k d ≡ found
      → get j (change f found k d) ≡ (if k == j then mapped f (get j d) else get j d)
  change-get f k j none d h = elim (Bool-cases (k == j)) [
    | inl p ↦ let q = (e.test_iff k j).0 p in rw (p, sym q, h) refl
    | inr p ↦ rw p refl
  ]
  change-get f k j (some c) d h = elim (Bool-cases (k == j)) [
    | inl p ↦ let q = (e.test_iff k j).0 p in rw (get-put k j (f c) d, p, sym q, h) refl
    | inr p ↦ rw (get-put k j (f c) d, p) refl
  ]

  pub get-modify :
      (f : V → V) (k j : K) (d : Dict K V)
      → get j (modify f k d) ≡ (if k == j then mapped f (get j d) else get j d)
  unfolding modify
  get-modify f k j d = change-get f k j (get k d) d refl

-- How many entries pass a test, and what an update changes of that.
abbrev pub hits {ℓ} : {V : Type ℓ} → (V → Bool) → Option V → ℕ
hits p none = 0
hits p (some v) = if p v then 1 else 0

module _ {ℓ κ} {K : Type ℓ} {V : Type κ} where
  abbrev pub tally : (V → Bool) → Dict K V → ℕ
  tally p [] = 0
  tally p ((k, v) ∷ d) = (if p v then 1 else 0) + tally p d

module _ {ℓ κ} {K : Type ℓ} {V : Type κ} ⦃e : Key K⦄ where
  -- No key stands twice.
  abbrev pub Unique : Dict K V → Type κ
  Unique [] = Unit
  Unique ((k, v) ∷ d) = (get k d ≡ none) × Unique d

  pub put-Unique : (k : K) (v : V) (d : Dict K V) → Unique d → Unique (put k v d)
  unfolding get put
  put-Unique k v [] u = (refl, tt)
  put-Unique k v ((i, w) ∷ d) u =
      ground (arith, get-put k i v d, e.test_iff i k, e.test_iff k i, put-Unique k v d u.1)

  pub remove-Unique : (k : K) (d : Dict K V) → Unique d → Unique (remove k d)
  unfolding remove
  remove-Unique k [] u = tt
  remove-Unique k ((i, w) ∷ d) u =
      ground (arith, get-remove k i d, e.test_iff i k, e.test_iff k i, remove-Unique k d u.1)

  pub tally-put :
      (p : V → Bool) (k : K) (v : V) (d : Dict K V)
      → tally p (put k v d) + hits p (get k d) ≡ tally p d + hits p (some v)
  unfolding get put
  tally-put p k v [] = omega arith
  tally-put p k v ((i, w) ∷ d) = ground (arith, tally-put p k v d)

  pub tally-remove-none :
      (p : V → Bool) (k : K) (d : Dict K V) → get k d ≡ none → tally p (remove k d) ≡ tally p d
  unfolding get remove
  tally-remove-none p k [] h = refl
  tally-remove-none p k ((i, w) ∷ d) h = ground (arith, tally-remove-none p k d)

  pub tally-remove :
      (p : V → Bool) (k : K) (d : Dict K V)
      → Unique d
      → tally p (remove k d) + hits p (get k d) ≡ tally p d
  unfolding get remove
  tally-remove p k [] u = refl
  tally-remove p k ((i, w) ∷ d) u =
      ground (arith, e.test_iff i k, tally-remove-none p k d, tally-remove p k d u.1)
