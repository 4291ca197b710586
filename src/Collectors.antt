-- ===== src/Collectors.antt =====
-- backend/app/collectors/registry.py: `CollectorRegistry`. A collector is its id and the kinds of
-- evidence it provides and requires; a set is a list without regard to order.
pub mod Waves
pub mod Scheduler
mod Examples
use ai_kubernetes_troublesho.Prelude.{
  ℕ, suc, String, Bool, true, false, not, ◌&&◌, ◌||◌, Option, none, some, List, [], ◌∷◌, ◌++◌, ◌==◌,
  string_eq, keep, map, contains, length, is_some, if◌then◌else◌,
}
use ai_kubernetes_troublesho.Prelude.Exec.{Result, ok, raised}

pub record Collector : Type 0 where
  pub id : String
  pub provides : List String
  pub requires : List String
  pub optional_requires : List String

-- what `CollectorGraphError` reports
pub data GraphError : Type 0 where
  no_id provides_nothing : GraphError
  duplicate_id : String → GraphError
  not_provided : String → String → GraphError
  cyclic : List String → GraphError

abbrev pub ids_of : List Collector → List String
ids_of collectors = map (λ c. c.id) collectors

-- `register`, of a registry that is its collectors in order
abbrev is_empty : List String → Bool
is_empty [] = true
is_empty (kind ∷ kinds) = false

unfoldable pub register : Collector → List Collector → Result GraphError (List Collector)
register c collectors =
    if c.id == ""
    then raised no_id
    else if contains c.id (ids_of collectors)
    then raised (duplicate_id c.id)
    else if is_empty c.provides
    then raised provides_nothing
    else ok (collectors ++ (c ∷ []))

-- `_providers`: the ids of the collectors that provide a kind
unfoldable pub providers_of : String → List Collector → List String
providers_of kind collectors = ids_of (keep (λ c. contains kind c.provides) collectors)

-- The ids that the required kinds bring in, or the kind that nobody provides.
abbrev add_ids :
    GraphError → List String → Result GraphError (List String) → Result GraphError (List String)
add_ids missing [] rest = raised missing
add_ids missing (id ∷ ids) (raised e) = raised e
add_ids missing (id ∷ ids) (ok found) = ok ((id ∷ ids) ++ found)

unfoldable pub required_ids :
    Collector → List String → List String → List Collector → Result GraphError (List String)
required_ids c available [] collectors = ok []
required_ids c available (kind ∷ kinds) collectors =
    let rest = required_ids c available kinds collectors in
    if contains kind available
    then rest
    else add_ids (not_provided c.id kind) (providers_of kind collectors) rest

unfoldable pub optional_ids : List String → List Collector → List String
optional_ids [] collectors = []
optional_ids (kind ∷ kinds) collectors =
    providers_of kind collectors ++ optional_ids kinds collectors

-- A collector with what it waits for: `dependencies[collector.id]`
pub record Pending : Type 0 where
  pub collector : Collector
  pub dependencies : List String

abbrev pub pending_of : Collector → List Collector → List String → Pending
pending_of c collectors required = record {
  collector = c;
  dependencies =
      keep (λ id. not (id == c.id)) (required ++ optional_ids c.optional_requires collectors);
}

abbrev pub add_pending :
    Collector
    → List Collector
    → Result GraphError (List String)
    → Result GraphError (List Pending)
    → Result GraphError (List Pending)
add_pending c collectors (raised e) rest = raised e
add_pending c collectors (ok required) (raised e) = raised e
add_pending c collectors (ok required) (ok pending) =
    ok (pending_of c collectors required ∷ pending)

unfoldable pub pending_all :
    List String → List Collector → List Collector → Result GraphError (List Pending)
pending_all available collectors [] = ok []
pending_all available collectors (c ∷ cs) =
    add_pending c collectors (required_ids c available c.requires collectors)
      (pending_all available collectors cs)

-- `dependencies <= satisfied`
abbrev pub subset : List String → List String → Bool
subset [] satisfied = true
subset (id ∷ ids) satisfied = contains id satisfied && subset ids satisfied

abbrev pub is_ready : List String → Pending → Bool
is_ready satisfied p = subset p.dependencies satisfied

abbrev pub names : List Pending → List String
names pending = map (λ p. p.collector.id) pending

-- One turn of the loop: its wave, what is pending, and what the later turns give.
abbrev pub Waves : Type 0
Waves = Option (Result GraphError (List (List Pending)))

abbrev pub add_wave : List Pending → List Pending → Waves → Waves
add_wave [] pending rest = some (raised (cyclic (names pending)))
add_wave (p ∷ wave) pending none = none
add_wave (p ∷ wave) pending (some (raised e)) = some (raised e)
add_wave (p ∷ wave) pending (some (ok waves)) = some (ok ((p ∷ wave) ∷ waves))

-- The `while` loop, on fuel: a wave is what is ready, and the rest waits. `none` is the loop that
-- has run out of fuel.
unfoldable pub waves_from : ℕ → List Pending → List String → Waves
waves_from fuel [] satisfied = some (ok [])
waves_from ℕ.zero (p ∷ pending) satisfied = none
waves_from (suc fuel) (p ∷ pending) satisfied =
    let wave = keep (is_ready satisfied) (p ∷ pending) in
    let waiting = keep (λ q. not (is_ready satisfied q)) (p ∷ pending) in
    add_wave wave (p ∷ pending) (waves_from fuel waiting (satisfied ++ names wave))

-- `resolve`: as much fuel as there are collectors
unfoldable pub resolve : List String → List Collector → Waves
resolve available collectors = elim (pending_all available collectors collectors) [
  | raised e ↦ some (raised e)
  | ok pending ↦ waves_from (length pending) pending []
]
