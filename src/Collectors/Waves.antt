-- ===== src/Collectors/Waves.antt =====
-- The waves of the collector registry: the loop ends, and every wave waits only for earlier ones.
use ai_kubernetes_troublesho.Prelude.{
  ℕ, suc, ◌+◌, ◌≤◌, ◌≡◌, ◌≢◌, refl, ap, String, Bool, true, false, not, none, some, List, [], ◌∷◌,
  ◌++◌, arith, string_eq, keep, length, count, map,
}
use ai_kubernetes_troublesho.Prelude.Exec.{Result, ok, raised}
use ai_kubernetes_troublesho.Collectors.{
  Collector, GraphError, cyclic, Pending, names, subset, is_ready, add_wave, Waves, waves_from,
  resolve, pending_all, add_pending, required_ids,
}

-- Every dependency of a wave lies in an earlier wave, or was satisfied at the start.
abbrev pub AllReady : List String → List Pending → Type 0
AllReady satisfied [] = Unit
AllReady satisfied (p ∷ wave) = (subset p.dependencies satisfied ≡ true) × AllReady satisfied wave

abbrev pub InOrder : List String → List (List Pending) → Type 0
InOrder satisfied [] = Unit
InOrder satisfied (wave ∷ waves) = AllReady satisfied wave × InOrder (satisfied ++ names wave) waves

-- how many collectors that pass a test the waves hold
abbrev pub occurrences : (Pending → Bool) → List Pending → ℕ
occurrences test pending = count test pending

abbrev pub in_waves : (Pending → Bool) → List (List Pending) → ℕ
in_waves test [] = 0
in_waves test (wave ∷ waves) = occurrences test wave + in_waves test waves

keep-AllReady :
    (satisfied : List String) (pending : List Pending)
    → AllReady satisfied (keep (is_ready satisfied) pending)
keep-AllReady satisfied [] = tt
keep-AllReady satisfied (p ∷ pending) = ground (arith, keep-AllReady satisfied pending)

keep_split :
    (test : Pending → Bool) (satisfied : List String) (pending : List Pending)
    → occurrences test (keep (is_ready satisfied) pending)
        + occurrences test (keep (λ q. not (is_ready satisfied q)) pending)
      ≡ occurrences test pending
keep_split test satisfied [] = omega arith
keep_split test satisfied (p ∷ pending) = ground (arith, keep_split test satisfied pending)

length_split :
    (satisfied : List String) (pending : List Pending)
    → length (keep (is_ready satisfied) pending)
        + length (keep (λ q. not (is_ready satisfied q)) pending)
      ≡ length pending
length_split satisfied [] = omega arith
length_split satisfied (p ∷ pending) = ground (arith, length_split satisfied pending)

-- Nobody who is pending is ready.
abbrev pub NoneReady : List String → List Pending → Type 0
NoneReady satisfied [] = Unit
NoneReady satisfied (p ∷ pending) =
    (subset p.dependencies satisfied ≡ false) × NoneReady satisfied pending

keep-NoneReady :
    (satisfied : List String) (pending : List Pending)
    → keep (is_ready satisfied) pending ≡ []
    → NoneReady satisfied pending
keep-NoneReady satisfied [] h = tt
keep-NoneReady satisfied (p ∷ pending) h = ground (arith, keep-NoneReady satisfied pending)

-- the ids that are satisfied after some waves
abbrev pub after_waves : List String → List (List Pending) → List String
after_waves satisfied [] = satisfied
after_waves satisfied (wave ∷ waves) = after_waves (satisfied ++ names wave) waves

-- Why a graph is refused: after the waves that could run, someone is left, and nobody who is left
-- is ready; the refusal names them.
abbrev pub IsStuck : List Pending → List String → GraphError → Type 0
IsStuck pending satisfied e =
    (waves : List (List Pending)) × (stuck : List Pending) × (e ≡ cyclic (names stuck))
    × (1 ≤ length stuck)
    × InOrder satisfied waves
    × NoneReady (after_waves satisfied waves) stuck
    × ((test : Pending → Bool)
        → in_waves test waves + occurrences test stuck ≡ occurrences test pending)

-- What a run of the loop from `pending` gives: waves that are in order and hold what was pending,
-- or a refusal of a graph that is stuck.
abbrev pub IsResolved : List Pending → List String → Waves → Type 0
IsResolved pending satisfied none = ⊥
IsResolved pending satisfied (some (raised e)) = IsStuck pending satisfied e
IsResolved pending satisfied (some (ok waves)) =
    InOrder satisfied waves
    × ((test : Pending → Bool) → in_waves test waves ≡ occurrences test pending)

module _ (satisfied : List String) (pending waiting : List Pending) where
  add_wave-IsResolved :
      (wave : List Pending) (rest : Waves)
      → AllReady satisfied wave
      → ((test : Pending → Bool)
          → occurrences test wave + occurrences test waiting ≡ occurrences test pending)
      → 1 ≤ length pending
      → (wave ≡ [] → NoneReady satisfied pending)
      → (1 ≤ length wave → IsResolved waiting (satisfied ++ names wave) rest)
      → IsResolved pending satisfied (add_wave wave pending rest)
  add_wave-IsResolved [] rest ready split some_left stuck h =
      ([], pending, refl, some_left, tt, stuck refl, λ test. omega arith)
  add_wave-IsResolved (p ∷ wave) none ready split some_left stuck h = h (omega arith)
  add_wave-IsResolved (p ∷ wave) (some (raised e)) ready split some_left stuck h =
      let (waves, left, named, some_stuck, order, none_ready, counted) = h (omega arith) in
      (
        (p ∷ wave) ∷ waves,
        left,
        named,
        some_stuck,
        (ready, order),
        none_ready,
        λ test. omega (arith, counted test, split test),
      )
  add_wave-IsResolved (p ∷ wave) (some (ok waves)) ready split some_left stuck h =
      let later = h (omega arith) in
      ((ready, later.0), λ test. omega (arith, later.1 test, split test))

waves_from-IsResolved :
    (fuel : ℕ) (pending : List Pending) (satisfied : List String)
    → length pending ≤ fuel
    → IsResolved pending satisfied (waves_from fuel pending satisfied)
unfolding waves_from
waves_from-IsResolved fuel [] satisfied le = (tt, λ test. refl)
waves_from-IsResolved ℕ.zero (p ∷ pending) satisfied le = omega arith
waves_from-IsResolved (suc fuel) (p ∷ pending) satisfied le =
    let wave = keep (is_ready satisfied) (p ∷ pending) in
    let waiting = keep (λ q. not (is_ready satisfied q)) (p ∷ pending) in
    add_wave-IsResolved satisfied (p ∷ pending) waiting wave
      (waves_from fuel waiting (satisfied ++ names wave)) (keep-AllReady satisfied (p ∷ pending))
      (λ test. keep_split test satisfied (p ∷ pending)) (omega arith)
      (keep-NoneReady satisfied (p ∷ pending))
      (λ some_ready.
        waves_from-IsResolved fuel waiting (satisfied ++ names wave)
          (omega (arith, length_split satisfied (p ∷ pending))))

waves-IsResolved :
    (pending : List Pending) → IsResolved pending [] (waves_from (length pending) pending [])
waves-IsResolved pending = waves_from-IsResolved (length pending) pending [] (omega arith)

abbrev pub CollectorsIn : Result GraphError (List Pending) → List Collector → Type 0
CollectorsIn (raised e) cs = Unit
CollectorsIn (ok pending) cs = map (λ p. p.collector) pending ≡ cs

add_pending-collectors :
    (c : Collector) (collectors cs : List Collector) (required : Result GraphError (List String))
    (rest : Result GraphError (List Pending))
    → CollectorsIn rest cs
    → CollectorsIn (add_pending c collectors required rest) (c ∷ cs)
add_pending-collectors c collectors cs (raised e) rest h = tt
add_pending-collectors c collectors cs (ok required) (raised e) h = tt
add_pending-collectors c collectors cs (ok required) (ok pending) h = ap (λ rest. c ∷ rest) h

pub pending_all-collectors :
    (available : List String) (collectors cs : List Collector)
    → CollectorsIn (pending_all available collectors cs) cs
unfolding pending_all
pending_all-collectors available collectors [] = refl
pending_all-collectors available collectors (c ∷ cs) =
    add_pending-collectors c collectors cs (required_ids c available c.requires collectors)
      (pending_all available collectors cs) (pending_all-collectors available collectors cs)

-- When every required kind has a provider or is available, resolving ends. It gives waves in which
-- every collector waits only for earlier waves and that hold the pending collectors, whatever the
-- test by which both are counted; or it refuses the graph, and then some collectors are left of
-- which none is ready after the waves that could run, and the refusal names them.
pub resolve-IsResolved :
    (available : List String) (collectors : List Collector) (pending : List Pending)
    → pending_all available collectors collectors ≡ ok pending
    → IsResolved pending [] (resolve available collectors)
unfolding resolve
resolve-IsResolved available collectors pending e = rw (e, resolve) (waves-IsResolved pending)

pub resolve-raised :
    (available : List String) (collectors : List Collector) (e : GraphError)
    → pending_all available collectors collectors ≡ raised e
    → resolve available collectors ≡ some (raised e)
unfolding resolve
resolve-raised available collectors e p = rw (p, resolve) refl

resolved_ends :
    (available : List String) (collectors : List Collector)
    (pending : Result GraphError (List Pending))
    → pending_all available collectors collectors ≡ pending
    → resolve available collectors ≢ none
resolved_ends available collectors (raised e) p h =
    ground (arith, resolve-raised available collectors e p, h)
resolved_ends available collectors (ok pending) p h =
    rw h at (resolve-IsResolved available collectors pending p)

pub resolve_ends :
    (available : List String) (collectors : List Collector) → resolve available collectors ≢ none
resolve_ends available collectors =
    resolved_ends available collectors (pending_all available collectors collectors) refl
