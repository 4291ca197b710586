-- ===== src/Graph/Walk.antt =====
-- What the walk over the graph finds: the edges that leave what is within reach.
use ai_kubernetes_troublesho.Prelude.{
  ◌≡◌, refl, sym, ap, ◌∙◌, ◌⊎◌, inl, inr, String, Bool, true, not, ◌&&◌, ◌||◌, List, [], ◌∷◌, ◌++◌,
  ◌==◌, string_eq, eq_iff, contains, contains-snoc, any, arith, Bool-cases, append_nil,
  append_assoc,
}
use ai_kubernetes_troublesho.Graph.{Edge, Search, visit, scan, expand}

abbrev pub Has : {A : Type 0} → A → List A → Type 0
Has a [] = ⊥
Has a (x ∷ xs) = (x ≡ a) ⊎ Has a xs

module _ {A : Type 0} where
  pub Has-left : (a : A) (xs ys : List A) → Has a xs → Has a (xs ++ ys)
  Has-left a [] ys h = elim h [ ]
  Has-left a (x ∷ xs) ys (inl p) = inl p
  Has-left a (x ∷ xs) ys (inr h) = inr (Has-left a xs ys h)

  pub Has-right : (a : A) (xs ys : List A) → Has a ys → Has a (xs ++ ys)
  Has-right a [] ys h = h
  Has-right a (x ∷ xs) ys h = inr (Has-right a xs ys h)

  pub Has-split : (a : A) (xs ys : List A) → Has a (xs ++ ys) → Has a xs ⊎ Has a ys
  Has-split a [] ys h = inr h
  Has-split a (x ∷ xs) ys (inl p) = inl (inl p)
  Has-split a (x ∷ xs) ys (inr h) = elim (Has-split a xs ys h) [
    | inl l ↦ inl (inr l)
    | inr r ↦ inr r
  ]

  pub any_intro : (p : A → Bool) (a : A) (xs : List A) → Has a xs → p a ≡ true → any p xs ≡ true
  any_intro p a [] m h = elim m [ ]
  any_intro p a (x ∷ xs) (inl e) h = rw (ap p e, h) refl
  any_intro p a (x ∷ xs) (inr m) h = ground (arith, any_intro p a xs m h)

  pub any_elim : (p : A → Bool) (xs : List A) → any p xs ≡ true → (a : A) × Has a xs × (p a ≡ true)
  any_elim p [] h = absurd (ground arith)
  any_elim p (x ∷ xs) h = elim (Bool-cases (p x)) [
    | inl q ↦ (x, inl refl, q)
    | inr q ↦ let (a, m, r) = any_elim p xs (rw q at h) in (a, inr m, r)
  ]

module _ (steps : String → List Edge) (other : Edge → String) where
  -- The key is the other end of one of the edges.
  abbrev pub ends_at : String → List Edge → Bool
  ends_at v edges = any (λ edge. v == other edge) edges

  -- Some edge leads from the frontier to the key.
  abbrev pub leads_to : List String → String → Bool
  leads_to frontier v = any (λ u. ends_at v (steps u)) frontier

  abbrev pub found_from : List String → List Edge
  found_from [] = []
  found_from (u ∷ frontier) = steps u ++ found_from frontier

  visit-found : (edge : Edge) (s : Search) → (visit steps other edge s).found ≡ s.found ++ edge ∷ []
  visit-found edge s = ground arith

  visit-visited :
      (v : String) (edge : Edge) (s : Search)
      → contains v (visit steps other edge s).visited ≡ (contains v s.visited || v == other edge)
  visit-visited v edge s = elim (Bool-cases (contains (other edge) s.visited)) [
    | inl p ↦ rw p (ground (arith, eq_iff v (other edge)))
    | inr p ↦ rw p (ground arith)
  ]

  visit-following :
      (v : String) (edge : Edge) (s : Search)
      → contains v (visit steps other edge s).following
        ≡ (contains v s.following || (v == other edge && not (contains v s.visited)))
  visit-following v edge s = elim (Bool-cases (contains (other edge) s.visited)) [
    | inl p ↦ rw p (ground (arith, eq_iff v (other edge)))
    | inr p ↦
        rw (p, contains-snoc v (other edge) s.following) (ground (arith, eq_iff v (other edge)))
  ]

  pub scan-found :
      (edges : List Edge) (s : Search) → (scan steps other edges s).found ≡ s.found ++ edges
  unfolding scan
  scan-found [] s = sym (append_nil s.found)
  scan-found (edge ∷ edges) s =
      scan-found edges (visit steps other edge s)
      ∙ ap (λ l. l ++ edges) (visit-found edge s)
      ∙ append_assoc s.found (edge ∷ []) edges

  scan-visited :
      (v : String) (edges : List Edge) (s : Search)
      → contains v (scan steps other edges s).visited ≡ (contains v s.visited || ends_at v edges)
  unfolding scan
  scan-visited v [] s = ground arith
  scan-visited v (edge ∷ edges) s =
      ground (arith, scan-visited v edges (visit steps other edge s), visit-visited v edge s)

  scan-following :
      (v : String) (edges : List Edge) (s : Search)
      → contains v (scan steps other edges s).following
        ≡ (contains v s.following || (ends_at v edges && not (contains v s.visited)))
  unfolding scan
  scan-following v [] s = ground arith
  scan-following v (edge ∷ edges) s = ground (
    arith,
    scan-following v edges (visit steps other edge s),
    visit-following v edge s,
    visit-visited v edge s,
  )

  pub expand-found :
      (frontier : List String) (s : Search)
      → (expand steps other frontier s).found ≡ s.found ++ found_from frontier
  unfolding expand
  expand-found [] s = sym (append_nil s.found)
  expand-found (u ∷ frontier) s =
      expand-found frontier (scan steps other (steps u) s)
      ∙ ap (λ l. l ++ found_from frontier) (scan-found (steps u) s)
      ∙ append_assoc s.found (steps u) (found_from frontier)

  pub expand-visited :
      (v : String) (frontier : List String) (s : Search)
      → contains v (expand steps other frontier s).visited
        ≡ (contains v s.visited || leads_to frontier v)
  unfolding expand
  expand-visited v [] s = ground arith
  expand-visited v (u ∷ frontier) s =
      ground (
        arith,
        expand-visited v frontier (scan steps other (steps u) s),
        scan-visited v (steps u) s,
      )

  pub expand-following :
      (v : String) (frontier : List String) (s : Search)
      → contains v (expand steps other frontier s).following
        ≡ (contains v s.following || (leads_to frontier v && not (contains v s.visited)))
  unfolding expand
  expand-following v [] s = ground arith
  expand-following v (u ∷ frontier) s = ground (
    arith,
    expand-following v frontier (scan steps other (steps u) s),
    scan-following v (steps u) s,
    scan-visited v (steps u) s,
  )
