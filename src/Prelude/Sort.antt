-- ===== src/Prelude/Sort.antt =====
-- Python's `sorted(xs, key=...)`: a stable sort. `before a b` says that the key of `a` is at most
-- that of `b`.
use mathlib.Core.Path.{◌≡◌, refl}
use mathlib.Core.Bool.{Bool}
use mathlib.Core.Logic.{inl, inr}
use mathlib.Core.List.{List, [], ◌∷◌, Perm}
use mathlib.Core.List.Perm
use native.Mathlib.Omega.{arith}
use package.ai_kubernetes_troublesho.Prelude.Tests.{Key, if◌then◌else◌, Bool-cases}
use package.ai_kubernetes_troublesho.Prelude.Lists.{count, contains}

module _ {ℓ} {A : Type ℓ} (before : A → A → Bool) where
  unfoldable pub insert_sorted : A → List A → List A
  insert_sorted a [] = a ∷ []
  insert_sorted a (x ∷ xs) = if before a x then a ∷ x ∷ xs else x ∷ insert_sorted a xs

  unfoldable pub sorted : List A → List A
  unfolding insert_sorted
  sorted [] = []
  sorted (x ∷ xs) = insert_sorted x (sorted xs)

  insert_sorted-perm : (a : A) (xs : List A) → Perm (insert_sorted a xs) (a ∷ xs)
  unfolding insert_sorted
  insert_sorted-perm a [] = Perm.refl (a ∷ [])
  insert_sorted-perm a (x ∷ xs) = elim (Bool-cases (before a x)) [
    | inl p ↦ rw p (Perm.refl (a ∷ x ∷ xs))
    | inr p ↦ rw p (Perm.trans (Perm.cons x (insert_sorted-perm a xs)) (Perm.swap a x xs))
  ]

  pub sorted-perm : (xs : List A) → Perm (sorted xs) xs
  unfolding sorted
  sorted-perm [] = Perm.refl []
  sorted-perm (x ∷ xs) =
      Perm.trans (insert_sorted-perm x (sorted xs)) (Perm.cons x (sorted-perm xs))

  count-insert_sorted :
      (p : A → Bool) (a : A) (xs : List A) → count p (insert_sorted a xs) ≡ count p (a ∷ xs)
  unfolding insert_sorted
  count-insert_sorted p a [] = refl
  count-insert_sorted p a (x ∷ xs) = ground (arith, count-insert_sorted p a xs)

  pub count-sorted : (p : A → Bool) (xs : List A) → count p (sorted xs) ≡ count p xs
  unfolding sorted
  count-sorted p [] = refl
  count-sorted p (x ∷ xs) = ground (arith, count-insert_sorted p x (sorted xs), count-sorted p xs)

module _ {ℓ} {A : Type ℓ} ⦃e : Key A⦄ (before : A → A → Bool) where
  contains-insert_sorted :
      (b a : A) (xs : List A) → contains b (insert_sorted before a xs) ≡ contains b (a ∷ xs)
  unfolding insert_sorted
  contains-insert_sorted b a [] = refl
  contains-insert_sorted b a (x ∷ xs) = ground (arith, contains-insert_sorted b a xs)

  pub contains-sorted : (b : A) (xs : List A) → contains b (sorted before xs) ≡ contains b xs
  unfolding sorted
  contains-sorted b [] = refl
  contains-sorted b (x ∷ xs) =
      ground (arith, contains-insert_sorted b x (sorted before xs), contains-sorted b xs)
