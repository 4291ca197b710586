-- ===== src/Graph/Bounds.antt =====
-- The walk over the graph looks at no key twice, so it finds at most as many edges as there are.
use ai_kubernetes_troublesho.Prelude.{
  ℕ, zero, suc, ◌+◌, ◌≤◌, ◌≡◌, refl, ap, inl, inr, String, List, [], ◌∷◌, string_eq, eq_iff,
  contains, length, length-append, arith, Bool-cases, List-cases, times, times-append, times_none,
}
use ai_kubernetes_troublesho.Graph.{Edge, Search, visit, scan, expand, rounds, walk}
use ai_kubernetes_troublesho.Graph.Walk.{found_from, scan-found}
use ai_kubernetes_troublesho.Graph.Index.{edges_at}

module _ (steps : String → List Edge) (other : Edge → String) where
  -- The edges found are those of the keys done; each visited key is done, waits in the frontier or
  -- follows, once.
  record IsOnce (done frontier : List String) (s : Search) : Type 0 where
    found : length s.found ≡ length (found_from steps other done)
    split : (k : String) → times k done + times k frontier + times k s.following ≡ times k s.visited
    once : (k : String) → times k s.visited ≤ 1

  module _ (done frontier : List String) where
    -- what `scan` keeps: all but the number of edges
    abbrev Balanced : Search → Type 0
    Balanced s =
        ((k : String) → times k done + times k frontier + times k s.following ≡ times k s.visited)
        × ((k : String) → times k s.visited ≤ 1)

    visit-split :
        (edge : Edge) (s : Search)
        → Balanced s
        → (k : String)
        → times k done + times k frontier + times k (visit steps other edge s).following
          ≡ times k (visit steps other edge s).visited
    visit-split edge s h k = elim (Bool-cases (contains (other edge) s.visited)) [
      | inl p ↦ rw p (h.0 k)
      | inr p ↦ rw p (ground (arith, h.0 k, times-append k s.following (other edge ∷ [])))
    ]

    visit-once :
        (edge : Edge) (s : Search)
        → Balanced s
        → (k : String) → times k (visit steps other edge s).visited ≤ 1
    visit-once edge s h k = elim (Bool-cases (contains (other edge) s.visited)) [
      | inl p ↦ rw p (h.1 k)
      | inr p ↦
          rw p (ground (arith, h.1 k, times_none (other edge) s.visited p, eq_iff k (other edge)))
    ]

    scan-Balanced :
        (edges : List Edge) (s : Search) → Balanced s → Balanced (scan steps other edges s)
    unfolding scan
    scan-Balanced [] s h = h
    scan-Balanced (edge ∷ edges) s h =
        scan-Balanced edges (visit steps other edge s) (visit-split edge s h, visit-once edge s h)

  expand-IsOnce :
      (frontier done : List String) (s : Search)
      → IsOnce done frontier s
      → (all : List String) × IsOnce all [] (expand steps other frontier s)
  unfolding expand
  expand-IsOnce [] done s h = (done, h)
  expand-IsOnce (u ∷ frontier) done s h =
      let after = scan steps other (steps u) s in
      let kept =
        scan-Balanced (u ∷ done) frontier (steps u) s (λ k. ground (arith, h.split k), h.once) in
      expand-IsOnce frontier (u ∷ done) after record {
        found = omega (
          arith,
          h.found,
          ap length (scan-found steps other (steps u) s),
          length-append s.found (steps u),
          length-append (steps u) (found_from steps other done),
        );
        split = kept.0;
        once = kept.1;
      }

  rounds-IsOnce :
      (depth : ℕ) (frontier done : List String) (s : Search)
      → IsOnce done frontier (record s { following = [] })
      → (all : List String) × ((k : String) → times k all ≤ 1)
        × (length (rounds steps other depth frontier s).found ≡ length (found_from steps other all))
  unfolding rounds
  rounds-IsOnce zero frontier done s h = (done, λ k. ground (arith, h.split k, h.once k), h.found)
  rounds-IsOnce (suc depth) frontier done s h =
      let after = expand steps other frontier (record s { following = [] }) in
      let (all, kept) = expand-IsOnce frontier done (record s { following = [] }) h in
      elim (List-cases after.following) [
        | inl p ↦ (all, λ k. ground (arith, kept.split k, kept.once k), rw (p, rounds) kept.found)
        | inr (key, keys, p) ↦
            rw (p, rounds)
              (rounds-IsOnce depth (key ∷ keys) all after record {
                found = kept.found;
                split = λ k. ground (arith, kept.split k, ap (times k) p);
                once = kept.once;
              })
      ]

module _ (end_of other : Edge → String) where
  length-edges_at :
      (u : String) (e : Edge) (edges : List Edge)
      → length (edges_at end_of u (e ∷ edges))
        ≡ length (edges_at end_of u edges) + times u (end_of e ∷ [])
  length-edges_at u e edges = ground (arith, eq_iff u (end_of e), eq_iff (end_of e) u)

  abbrev found_in : List Edge → List String → List Edge
  found_in edges keys = found_from (λ u. edges_at end_of u edges) other keys

  length-found_in :
      (e : Edge) (edges : List Edge) (keys : List String)
      → length (found_in (e ∷ edges) keys) ≡ length (found_in edges keys) + times (end_of e) keys
  length-found_in e edges [] = omega arith
  length-found_in e edges (u ∷ keys) = ground (
    arith,
    length-edges_at u e edges,
    length-found_in e edges keys,
    length-append (edges_at end_of u edges) (found_in edges keys),
    length-append (edges_at end_of u (e ∷ edges)) (found_in (e ∷ edges) keys),
    eq_iff u (end_of e),
    eq_iff (end_of e) u,
  )

  found_in-nil : (keys : List String) → length (found_in [] keys) ≡ 0
  found_in-nil [] = refl
  found_in-nil (u ∷ keys) = found_in-nil keys

  found_in-length :
      (edges : List Edge) (keys : List String)
      → ((k : String) → times k keys ≤ 1)
      → length (found_in edges keys) ≤ length edges
  found_in-length [] keys h = omega (arith, found_in-nil keys)
  found_in-length (e ∷ edges) keys h =
      omega (arith, length-found_in e edges keys, found_in-length edges keys h, h (end_of e))

  -- A walk that follows the edges of a list never finds more edges than the list holds, whatever
  -- its depth.
  pub length-walk :
      (edges : List Edge) (start : String) (max_depth : ℕ)
      → length (walk (λ u. edges_at end_of u edges) other start max_depth) ≤ length edges
  unfolding walk
  length-walk edges start max_depth =
      let (all, once, same) =
        rounds-IsOnce (λ u. edges_at end_of u edges) other max_depth (start ∷ []) []
          (record { found = []; visited = start ∷ []; following = [] })
          (record { found = refl; split = λ k. omega arith; once = λ k. ground arith }) in
      omega (arith, same, found_in-length edges all once)
