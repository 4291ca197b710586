-- ===== src/Graph/Found.antt =====
-- The questions that are asked of a graph, however it was built.
use mathlib.Core.Path.{fun_ext}
use ai_kubernetes_troublesho.Prelude.{ℕ, ◌≤◌, ◌≡◌, ◌↔◌, String, List, length}
use ai_kubernetes_troublesho.Graph.{
  Edge, ClusterGraph, new_graph, add_all, out_edges, in_edges, source_key, target_key, depends_on,
  dependents,
}
use ai_kubernetes_troublesho.Graph.Walk.{Has}
use ai_kubernetes_troublesho.Graph.Reach.{Within, walk-Within}
use ai_kubernetes_troublesho.Graph.Bounds.{length-walk}
use ai_kubernetes_troublesho.Graph.Index.{edges_at, built-IsIndexed}

module _ (added : List Edge) where
  abbrev pub built : ClusterGraph
  built = add_all added new_graph

  out_edges-edges_at : out_edges built ≡ (λ u. edges_at source_key u built.edges)
  unfolding out_edges
  out_edges-edges_at = fun_ext (built-IsIndexed added).forward

  in_edges-edges_at : in_edges built ≡ (λ u. edges_at target_key u built.edges)
  unfolding in_edges
  in_edges-edges_at = fun_ext (built-IsIndexed added).backward

  -- What a key depends on, to a depth, is exactly the edges of the graph that leave a key to which
  -- a path of fewer edges than the depth leads from it; what depends on it is the same with every
  -- edge turned round. Paths are read off the graph's list of edges, not off its indexes.
  pub found_exactly :
      (key : String) (max_depth : ℕ) (e : Edge)
      → (Has e (depends_on built key max_depth)
          ↔ Within (λ u. edges_at source_key u built.edges) target_key key max_depth e)
        × (Has e (dependents built key max_depth)
            ↔ Within (λ u. edges_at target_key u built.edges) source_key key max_depth e)
  found_exactly key max_depth e = (
    rw out_edges-edges_at
        (walk-Within (λ u. edges_at source_key u built.edges) target_key key max_depth e),
    rw in_edges-edges_at
        (walk-Within (λ u. edges_at target_key u built.edges) source_key key max_depth e),
  )

  -- However deep a walk may go and whatever cycles there are, it returns at most as many edges as
  -- the graph holds.
  pub found_bounded :
      (key : String) (max_depth : ℕ)
      → (length (depends_on built key max_depth) ≤ length built.edges)
        × (length (dependents built key max_depth) ≤ length built.edges)
  found_bounded key max_depth = (
    rw out_edges-edges_at (length-walk source_key target_key built.edges key max_depth),
    rw in_edges-edges_at (length-walk target_key source_key built.edges key max_depth),
  )
