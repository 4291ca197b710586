-- ===== src/Graph.antt =====
-- backend/app/graph/models.py: the cluster as a graph, which an investigation derives from its
-- evidence, and the walks over it.
pub mod Index
pub mod Walk
pub mod Reach
pub mod Bounds
pub mod Found
mod Examples
use Prim.Native.String.{◌++◌ as ◌<>◌}
use ai_kubernetes_troublesho.Prelude.{
  ℕ, zero, suc, String, Bool, true, false, ◌||◌, Option, none, some, List, [], ◌∷◌, ◌++◌, ◌==◌,
  string_eq, contains, keep, map, if◌then◌else◌,
}
use ai_kubernetes_troublesho.Prelude.Exec.{Result, ok, raised}
use ai_kubernetes_troublesho.Prelude.Dict.{Dict, get, put}
use ai_kubernetes_troublesho.Evidence.{ResourceRef, key_of}

pub record Edge : Type 0 where
  pub source : ResourceRef
  pub relation : String
  pub target : ResourceRef
  pub evidence_ids : List String

-- `Edge.key`
unfoldable pub edge_key : Edge → String
edge_key edge = key_of edge.source <> (" -" <> (edge.relation <> ("-> " <> key_of edge.target)))

-- `Edge.__post_init__`: an edge with no evidence is refused, by its key
abbrev checked : Edge → List String → Result String Edge
checked edge [] = raised (edge_key edge)
checked edge (id ∷ ids) = ok edge

unfoldable pub new_edge : ResourceRef → String → ResourceRef → List String → Result String Edge
new_edge source relation target evidence_ids =
    checked
      record { source = source; relation = relation; target = target; evidence_ids = evidence_ids }
      evidence_ids

pub record ClusterGraph : Type 0 where
  pub nodes : Dict String ResourceRef
  pub edges : List Edge
  pub outgoing : Dict String (List Edge)
  pub incoming : Dict String (List Edge)
  pub seen : List String

abbrev pub new_graph : ClusterGraph
new_graph = record { nodes = []; edges = []; outgoing = []; incoming = []; seen = [] }

abbrev pub or_none : Option (List Edge) → List Edge
or_none none = []
or_none (some edges) = edges

-- `nodes.setdefault(key, ref)`
abbrev keep_old : Option ResourceRef → ResourceRef → ResourceRef
keep_old none ref = ref
keep_old (some old) ref = old

abbrev set_default : ResourceRef → Dict String ResourceRef → Dict String ResourceRef
set_default ref nodes = put (key_of ref) (keep_old (get (key_of ref) nodes) ref) nodes

-- `index.setdefault(key, []).append(edge)`
abbrev pub append_at : String → Edge → Dict String (List Edge) → Dict String (List Edge)
append_at key edge index = put key (or_none (get key index) ++ edge ∷ []) index

-- `add`
unfoldable pub add : Edge → ClusterGraph → ClusterGraph
add edge graph = if contains (edge_key edge) graph.seen then graph else record {
  nodes = set_default edge.target (set_default edge.source graph.nodes);
  edges = graph.edges ++ edge ∷ [];
  outgoing = append_at (key_of edge.source) edge graph.outgoing;
  incoming = append_at (key_of edge.target) edge graph.incoming;
  seen = edge_key edge ∷ graph.seen;
}

unfoldable pub add_all : List Edge → ClusterGraph → ClusterGraph
add_all [] graph = graph
add_all (edge ∷ edges) graph = add_all edges (add edge graph)

unfoldable pub out_edges : ClusterGraph → String → List Edge
out_edges graph key = or_none (get key graph.outgoing)

unfoldable pub in_edges : ClusterGraph → String → List Edge
in_edges graph key = or_none (get key graph.incoming)

-- The state of `_walk`: the edges that were found, the keys that were visited, and the keys for the
-- round that follows.
pub record Search : Type 0 where
  pub found : List Edge
  pub visited : List String
  pub following : List String

module _ (steps : String → List Edge) (other : Edge → String) where
  -- one edge, and the loop over those of one key
  abbrev pub visit : Edge → Search → Search
  visit edge s =
      if contains (other edge) s.visited
      then record s { found = s.found ++ edge ∷ [] }
      else record {
        found = s.found ++ edge ∷ [];
        visited = other edge ∷ s.visited;
        following = s.following ++ other edge ∷ [];
      }

  unfoldable pub scan : List Edge → Search → Search
  scan [] s = s
  scan (edge ∷ edges) s = scan edges (visit edge s)

  -- the loop over the frontier
  unfoldable pub expand : List String → Search → Search
  expand [] s = s
  expand (current ∷ frontier) s = expand frontier (scan (steps current) s)

  -- the loop over the depth, which ends early where nothing follows
  unfoldable pub rounds : ℕ → List String → Search → Search
  rounds zero frontier s = s
  rounds (suc depth) frontier s =
      let next = expand frontier record s { following = [] } in
      elim next.following [ [] ↦ next | key ∷ keys ↦ rounds depth (key ∷ keys) next ]

  unfoldable pub walk : String → ℕ → List Edge
  walk key max_depth =
      (rounds max_depth (key ∷ []) record { found = []; visited = key ∷ []; following = [] }).found

abbrev pub target_key : Edge → String
target_key edge = key_of edge.target

abbrev pub source_key : Edge → String
source_key edge = key_of edge.source

-- `depends_on` and `dependents`
abbrev pub depends_on : ClusterGraph → String → ℕ → List Edge
depends_on graph key max_depth = walk (out_edges graph) target_key key max_depth

abbrev pub dependents : ClusterGraph → String → ℕ → List Edge
dependents graph key max_depth = walk (in_edges graph) source_key key max_depth

-- `neighbours` and `sources`: the relation "" stands for every one
abbrev related : String → List Edge → List Edge
related relation edges = keep (λ edge. relation == "" || edge.relation == relation) edges

unfoldable pub neighbours : ClusterGraph → String → String → List ResourceRef
neighbours graph key relation = map (λ edge. edge.target) (related relation (out_edges graph key))

unfoldable pub sources : ClusterGraph → String → String → List ResourceRef
sources graph key relation = map (λ edge. edge.source) (related relation (in_edges graph key))
