-- ===== src/Graph/Examples.antt =====
-- The cluster graph at concrete inputs: a pod, its node and a claim, and a cycle between the two
-- last.
use ai_kubernetes_troublesho.Prelude.{◌≤◌, ◌≡◌, ◌↔◌, refl, String, List, [], ◌∷◌, none, length}
use ai_kubernetes_troublesho.Evidence.{ResourceRef, key_of}
use ai_kubernetes_troublesho.Prelude.Dict.{get, put}
use ai_kubernetes_troublesho.Prelude.Text.{lower}
use ai_kubernetes_troublesho.Graph.{
  Edge, edge_key, add, add_all, out_edges, scan, expand, rounds, walk, depends_on, dependents,
  source_key, target_key,
}
use ai_kubernetes_troublesho.Graph.Walk.{Has}
use ai_kubernetes_troublesho.Graph.Reach.{Within}
use ai_kubernetes_troublesho.Graph.Index.{edges_at}
use ai_kubernetes_troublesho.Graph.Found.{built, found_exactly, found_bounded}

abbrev ref : String → String → ResourceRef
ref kind name = record { kind = kind; name = name; namespace = none; uid = none }

abbrev edge : ResourceRef → String → ResourceRef → Edge
edge source relation target = record {
  source = source;
  relation = relation;
  target = target;
  evidence_ids = "e1" ∷ [];
}

abbrev mounts : Edge
mounts = edge (ref "Pod" "web") "mounts" (ref "Claim" "disk")

abbrev placed : Edge
placed = edge (ref "Claim" "disk") "scheduled_on" (ref "Node" "n1")

abbrev back : Edge
back = edge (ref "Node" "n1") "binds" (ref "Claim" "disk")

abbrev added : List Edge
added = mounts ∷ placed ∷ mounts ∷ back ∷ []

found_exactly_example :
    (Has placed (depends_on (built added) "pod/_cluster/web" 2)
      ↔ Within
          (λ u. edges_at source_key u (built added).edges)
          target_key
          "pod/_cluster/web"
          2
          placed)
    × (Has placed (dependents (built added) "pod/_cluster/web" 2)
        ↔ Within
            (λ u. edges_at target_key u (built added).edges)
            source_key
            "pod/_cluster/web"
            2
            placed)
found_exactly_example = found_exactly added "pod/_cluster/web" 2 placed

found_bounded_example :
    (length (depends_on (built added) "pod/_cluster/web" 9) ≤ length (built added).edges)
    × (length (dependents (built added) "pod/_cluster/web" 9) ≤ length (built added).edges)
found_bounded_example = found_bounded added "pod/_cluster/web" 9

the_cycle_is_walked_once :
    depends_on (built added) "pod/_cluster/web" 9 ≡ mounts ∷ placed ∷ back ∷ []
unfolding out_edges walk rounds expand scan add_all add edge_key key_of get put lower
the_cycle_is_walked_once = refl
