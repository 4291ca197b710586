-- ===== src/Graph/Reach.antt =====
-- The walk over the graph finds exactly the edges that leave what is within reach.
use ai_kubernetes_troublesho.Prelude.{
  ℕ, zero, suc, ◌+◌, ◌≤◌, ◌<◌, ◌≡◌, refl, sym, ap, ◌↔◌, ◌⊎◌, inl, inr, String, true, List, [], ◌∷◌,
  ◌==◌, string_eq, eq_iff, contains, arith, Bool-cases, List-cases, ==_refl,
}
use ai_kubernetes_troublesho.Graph.{Edge, Search, expand, rounds, walk}
use ai_kubernetes_troublesho.Graph.Walk.{
  Has, Has-left, Has-right, Has-split, any_intro, any_elim, ends_at, leads_to, found_from,
  expand-found, expand-visited, expand-following,
}

Has-contains : (v : String) (xs : List String) → contains v xs ≡ true → Has v xs
Has-contains v [] h = absurd (ground arith)
Has-contains v (x ∷ xs) h = elim (Bool-cases (v == x)) [
  | inl p ↦ inl (sym ((eq_iff v x).0 p))
  | inr p ↦ inr (Has-contains v xs (rw p at h))
]

contains-Has : (v : String) (xs : List String) → Has v xs → contains v xs ≡ true
contains-Has v [] h = elim h [ ]
contains-Has v (x ∷ xs) (inl p) = ground (arith, eq_iff v x, sym p)
contains-Has v (x ∷ xs) (inr h) = ground (arith, contains-Has v xs h)

module _ (steps : String → List Edge) (other : Edge → String) where
  -- A path of so many edges leads from the start to the key.
  abbrev pub Reach : String → ℕ → String → Type 0
  Reach start zero v = start ≡ v
  Reach start (suc n) v =
      (u : String) × (e : Edge) × Reach start n u × Has e (steps u) × (other e ≡ v)

  -- The edge leaves a key that fewer than so many edges lead to.
  abbrev pub Within : String → ℕ → Edge → Type 0
  Within start n e = (m : ℕ) × (u : String) × (m < n) × Reach start m u × Has e (steps u)

  -- The edges of the key are found, and their other ends visited.
  abbrev IsExpanded : String → Search → Type 0
  IsExpanded v s =
      (e : Edge) → Has e (steps v) → Has e s.found × (contains (other e) s.visited ≡ true)

  -- The state before a round that looks at the keys at a distance of `n`.
  record IsLevel (start : String) (n : ℕ) (frontier : List String) (s : Search) : Type 0 where
    front : (v : String) → contains v frontier ≡ true → Reach start n v
    sound : (e : Edge) → Has e s.found → Within start n e
    seen : (m : ℕ) (v : String) → m ≤ n → Reach start m v → contains v s.visited ≡ true
    past : (m : ℕ) (v : String) → m < n → Reach start m v → IsExpanded v s
    closed :
        (v : String) → contains v s.visited ≡ true → (contains v frontier ≡ true) ⊎ IsExpanded v s

  Has-found_from :
      (u : String) (e : Edge) (frontier : List String)
      → Has u frontier
      → Has e (steps u)
      → Has e (found_from steps other frontier)
  Has-found_from u e [] m h = elim m [ ]
  Has-found_from u e (x ∷ frontier) (inl p) h =
      Has-left e (steps x) (found_from steps other frontier) (rw p h)
  Has-found_from u e (x ∷ frontier) (inr m) h =
      Has-right e (steps x) (found_from steps other frontier) (Has-found_from u e frontier m h)

  found_from_inv :
      (e : Edge) (frontier : List String)
      → Has e (found_from steps other frontier)
      → (u : String) × Has u frontier × Has e (steps u)
  found_from_inv e [] h = elim h [ ]
  found_from_inv e (u ∷ frontier) h =
      elim (Has-split e (steps u) (found_from steps other frontier) h) [
        | inl l ↦ (u, inl refl, l)
        | inr r ↦ let (x, m, k) = found_from_inv e frontier r in (x, inr m, k)
      ]

  leads_to_intro :
      (u : String) (e : Edge) (frontier : List String)
      → Has u frontier
      → Has e (steps u)
      → leads_to steps other frontier (other e) ≡ true
  leads_to_intro u e frontier m h =
      any_intro (λ x. ends_at steps other (other e) (steps x)) u frontier m
        (any_intro (λ edge. other e == other edge) e (steps u) h (==_refl (other e)))

  leads_to_elim :
      (start : String) (n : ℕ) (v : String) (frontier : List String)
      → ((u : String) → contains u frontier ≡ true → Reach start n u)
      → leads_to steps other frontier v ≡ true
      → Reach start (suc n) v
  leads_to_elim start n v frontier front h =
      let (u, m, k) = any_elim (λ x. ends_at steps other v (steps x)) frontier h in
      let (e, l, p) = any_elim (λ edge. v == other edge) (steps u) k in
      (u, e, front u (contains-Has u frontier m), l, sym ((eq_iff v (other e)).0 p))

  module _ (start : String) (n : ℕ) (frontier : List String) (s : Search)
      (h : IsLevel start n frontier s) where
    abbrev next : Search
    next = expand steps other frontier (record s { following = [] })

    visited_stays : (v : String) → contains v s.visited ≡ true → contains v next.visited ≡ true
    visited_stays v p =
        ground (arith, expand-visited steps other v frontier (record s { following = [] }))

    visited-IsExpanded : (v : String) → contains v s.visited ≡ true → IsExpanded v next
    visited-IsExpanded v p e k =
        let before = record s { following = [] } in
        let grown = expand-found steps other frontier before in
        let reached = expand-visited steps other (other e) frontier before in
        elim (h.closed v p) [
          | inl f ↦
              let m = Has-contains v frontier f in
              (
                rw grown (
                    Has-right e s.found (found_from steps other frontier)
                      (Has-found_from v e frontier m k)),
                ground (arith, reached, leads_to_intro v e frontier m k),
              )
          | inr ex ↦ (
            rw grown (Has-left e s.found (found_from steps other frontier) (ex e k).0),
            visited_stays (other e) (ex e k).1,
          )
        ]

    next_seen : (m : ℕ) (v : String) → m ≤ suc n → Reach start m v → contains v next.visited ≡ true
    next_seen zero v le r = visited_stays v (h.seen zero v (omega arith) r)
    next_seen (suc m) v le (u, e, r, k, p) =
        rw (sym p) (visited-IsExpanded u (h.seen m u (omega arith) r) e k).1

    next_past : (m : ℕ) (v : String) → m < suc n → Reach start m v → IsExpanded v next
    next_past m v lt r = visited-IsExpanded v (h.seen m v (omega arith) r)

    next_sound : (e : Edge) → Has e next.found → Within start (suc n) e
    next_sound e k =
        elim (Has-split e s.found (found_from steps other frontier)
          (rw (expand-found steps other frontier (record s { following = [] })) at k)) [
            | inl l ↦ let (m, u, lt, r, q) = h.sound e l in (m, u, omega arith, r, q)
            | inr l ↦
                let (u, m, q) = found_from_inv e frontier l in
                (n, u, omega arith, h.front u (contains-Has u frontier m), q)
          ]

    next-IsLevel : IsLevel start (suc n) next.following next
    next-IsLevel =
        let before = record s { following = [] } in
        record {
          front = λ v p.
              leads_to_elim start n v frontier h.front
                (ground (arith, expand-following steps other v frontier before));
          sound = next_sound;
          seen = next_seen;
          past = next_past;
          closed = λ v p. elim (Bool-cases (contains v s.visited)) [
            | inl q ↦ inr (visited-IsExpanded v q)
            | inr q ↦ inl (
                ground (
                  arith,
                  expand-following steps other v frontier before,
                  expand-visited steps other v frontier before,
                ))
          ];
        }

    -- Where nothing follows, all that can be reached is expanded.
    end_seen :
        next.following ≡ [] → (m : ℕ) (v : String) → Reach start m v → contains v s.visited ≡ true
    end_seen nothing zero v r = h.seen zero v (omega arith) r
    end_seen nothing (suc m) v (u, e, r, k, p) =
        let before = record s { following = [] } in
        let here = (visited-IsExpanded u (end_seen nothing m u r) e k).1 in
        let none_new = expand-following steps other v frontier before in
        ground (
          arith,
          expand-visited steps other v frontier before,
          none_new,
          ap (contains v) nothing,
          here,
          p,
        )

  Within-more : (start : String) (e : Edge) (n k : ℕ) → n ≤ k → Within start n e → Within start k e
  Within-more start e n k le (m, u, lt, r, h) = (m, u, omega arith, r, h)

  rounds_sound :
      (start : String) (e : Edge) (depth n : ℕ) (frontier : List String) (s : Search)
      → IsLevel start n frontier s
      → Has e (rounds steps other depth frontier s).found
      → Within start (n + depth) e
  unfolding rounds
  rounds_sound start e zero n frontier s h k =
      Within-more start e n (n + 0) (omega arith) (h.sound e k)
  rounds_sound start e (suc depth) n frontier s h k =
      let after = expand steps other frontier (record s { following = [] }) in
      elim (List-cases after.following) [
        | inl p ↦
            Within-more start e (suc n) (n + suc depth) (omega arith)
              (next_sound start n frontier s h e (rw (p, rounds) at k))
        | inr (key, keys, p) ↦ Within-more start e (suc n + depth) (n + suc depth) (omega arith) (
            rounds_sound start e depth (suc n) (key ∷ keys) after
              (rw (sym p) (next-IsLevel start n frontier s h)) (rw (p, rounds) at k))
      ]

  rounds_complete :
      (start : String) (e : Edge) (depth n : ℕ) (frontier : List String) (s : Search)
      → IsLevel start n frontier s
      → Within start (n + depth) e
      → Has e (rounds steps other depth frontier s).found
  unfolding rounds
  rounds_complete start e zero n frontier s h (m, u, lt, r, k) = (h.past m u (omega arith) r e k).0
  rounds_complete start e (suc depth) n frontier s h (m, u, lt, r, k) =
      let after = expand steps other frontier (record s { following = [] }) in
      elim (List-cases after.following) [
        | inl p ↦
            rw (p, rounds)
              (visited-IsExpanded start n frontier s h u (end_seen start n frontier s h p m u r) e
                k).0
        | inr (key, keys, p) ↦
            rw (p, rounds)
              (rounds_complete start e depth (suc n) (key ∷ keys) after
                (rw (sym p) (next-IsLevel start n frontier s h)) (m, u, omega arith, r, k))
      ]

  start_seen :
      (start : String) (m : ℕ) (v : String)
      → m ≤ 0
      → Reach start m v
      → contains v (start ∷ []) ≡ true
  start_seen start zero v le r = ground (arith, eq_iff v start, sym r)
  start_seen start (suc m) v le r = absurd (omega arith)

  start-IsLevel :
      (start : String)
      → IsLevel start 0 (start ∷ []) (record { found = []; visited = start ∷ []; following = [] })
  start-IsLevel start = record {
    front = λ v p. ground (arith, eq_iff v start);
    sound = λ e k. elim k [ ];
    seen = start_seen start;
    past = λ m v lt r. absurd (omega arith);
    closed = λ v p. inl p;
  }

  -- A walk of a depth finds an edge exactly if the edge leaves a key to which a path of fewer edges
  -- than the depth leads from the start.
  pub walk-Within :
      (start : String) (max_depth : ℕ) (e : Edge)
      → Has e (walk steps other start max_depth) ↔ Within start max_depth e
  unfolding walk
  walk-Within start max_depth e = (
    λ k.
        Within-more start e (0 + max_depth) max_depth (omega arith)
          (rounds_sound start e max_depth 0 (start ∷ []) _ (start-IsLevel start) k),
    λ k.
        rounds_complete start e max_depth 0 (start ∷ []) _ (start-IsLevel start)
          (Within-more start e max_depth (0 + max_depth) (omega arith) k),
  )
