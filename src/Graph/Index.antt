-- ===== src/Graph/Index.antt =====
-- The indexes of the graph agree with its list of edges, and no edge stands twice.
use ai_kubernetes_troublesho.Prelude.{
  ◌+◌, ◌≤◌, ◌≡◌, refl, sym, ap, ◌∙◌, String, Bool, false, ◌||◌, List, [], ◌∷◌, ◌++◌, ◌==◌,
  string_eq, eq_iff, contains, any, keep, count, arith, Bool-cases, inl, inr, if◌then◌else◌,
  append_nil,
}
use ai_kubernetes_troublesho.Prelude.Dict.{Dict, get, get-put}
use ai_kubernetes_troublesho.Graph.{
  Edge, edge_key, ClusterGraph, new_graph, or_none, append_at, add, add_all, source_key, target_key,
}

-- The edges of a list at one of whose ends the key stands.
abbrev pub edges_at : (Edge → String) → String → List Edge → List Edge
edges_at end_of key edges = keep (λ e. end_of e == key) edges

-- An index holds, under every key, the edges of the list with that key at their end.
abbrev Indexes : (Edge → String) → Dict String (List Edge) → List Edge → Type 0
Indexes end_of index edges = (key : String) → or_none (get key index) ≡ edges_at end_of key edges

pub record IsIndexed (graph : ClusterGraph) : Type 0 where
  pub forward : Indexes source_key graph.outgoing graph.edges
  pub backward : Indexes target_key graph.incoming graph.edges
  pub known : (key : String) → contains key graph.seen ≡ any (λ e. key == edge_key e) graph.edges
  pub single : (key : String) → count (λ e. key == edge_key e) graph.edges ≤ 1

keep-append : (p : Edge → Bool) (xs ys : List Edge) → keep p (xs ++ ys) ≡ keep p xs ++ keep p ys
keep-append p [] ys = refl
keep-append p (x ∷ xs) ys = elim (Bool-cases (p x)) [
  | inl q ↦ rw q (ap (λ l. x ∷ l) (keep-append p xs ys))
  | inr q ↦ rw q (keep-append p xs ys)
]

any-snoc : (p : Edge → Bool) (xs : List Edge) (e : Edge) → any p (xs ++ e ∷ []) ≡ (any p xs || p e)
any-snoc p [] e = ground arith
any-snoc p (x ∷ xs) e = ground (arith, any-snoc p xs e)

count-snoc :
    (p : Edge → Bool) (xs : List Edge) (e : Edge)
    → count p (xs ++ e ∷ []) ≡ count p xs + (if p e then 1 else 0)
count-snoc p [] e = ground arith
count-snoc p (x ∷ xs) e = ground (arith, count-snoc p xs e)

count_none : (p : Edge → Bool) (xs : List Edge) → any p xs ≡ false → count p xs ≡ 0
count_none p [] h = refl
count_none p (x ∷ xs) h = ground (arith, count_none p xs)

append_at-Indexes :
    (end_of : Edge → String) (edge : Edge) (index : Dict String (List Edge)) (edges : List Edge)
    → Indexes end_of index edges
    → Indexes end_of (append_at (end_of edge) edge index) (edges ++ edge ∷ [])
append_at-Indexes end_of edge index edges h key =
    let stored = get-put (end_of edge) key (or_none (get (end_of edge) index) ++ edge ∷ []) index in
    let split = keep-append (λ e. end_of e == key) edges (edge ∷ []) in
    elim (Bool-cases (end_of edge == key)) [
      | inl p ↦
          rw (stored, split, p)
            (ap (λ l. l ++ edge ∷ [])
              (h (end_of edge)
                ∙ ap (λ k. edges_at end_of k edges) ((eq_iff (end_of edge) key).0 p)))
      | inr p ↦ rw (stored, split, p) (h key ∙ sym (append_nil (edges_at end_of key edges)))
    ]

add_single :
    (edge : Edge) (graph : ClusterGraph)
    → IsIndexed graph
    → contains (edge_key edge) graph.seen ≡ false
    → (key : String) → count (λ e. key == edge_key e) (graph.edges ++ edge ∷ []) ≤ 1
add_single edge graph h p key =
    let grown = count-snoc (λ e. key == edge_key e) graph.edges edge in
    elim (Bool-cases (key == edge_key edge)) [
      | inl q ↦
          let fresh =
            sym (h.known key)
            ∙ ap (λ k. contains k graph.seen) ((eq_iff key (edge_key edge)).0 q)
            ∙ p in
          ground (arith, grown, count_none (λ e. key == edge_key e) graph.edges fresh)
      | inr q ↦ ground (arith, grown, h.single key)
    ]

add-IsIndexed : (edge : Edge) (graph : ClusterGraph) → IsIndexed graph → IsIndexed (add edge graph)
unfolding add
add-IsIndexed edge graph h = elim (Bool-cases (contains (edge_key edge) graph.seen)) [
  | inl p ↦ rw (p, add) h
  | inr p ↦
      rw (p, add)
        record {
          forward = append_at-Indexes source_key edge graph.outgoing graph.edges h.forward;
          backward = append_at-Indexes target_key edge graph.incoming graph.edges h.backward;
          known = λ key.
              ground (arith, h.known key, any-snoc (λ e. key == edge_key e) graph.edges edge);
          single = λ key. add_single edge graph h p key;
        }
]

pub add_all-IsIndexed :
    (edges : List Edge) (graph : ClusterGraph) → IsIndexed graph → IsIndexed (add_all edges graph)
unfolding add_all
add_all-IsIndexed [] graph h = h
add_all-IsIndexed (edge ∷ edges) graph h =
    add_all-IsIndexed edges (add edge graph) (add-IsIndexed edge graph h)

new_graph-IsIndexed : IsIndexed new_graph
unfolding get
new_graph-IsIndexed = record {
  forward = λ key. refl;
  backward = λ key. refl;
  known = λ key. refl;
  single = λ key. omega arith;
}

-- However a graph is built, its two indexes agree with its list of edges, the keys that it has seen
-- are those of its edges, and no two of its edges have the same key.
pub built-IsIndexed : (edges : List Edge) → IsIndexed (add_all edges new_graph)
built-IsIndexed edges = add_all-IsIndexed edges new_graph new_graph-IsIndexed
