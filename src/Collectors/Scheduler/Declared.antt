-- ===== src/Collectors/Scheduler/Declared.antt =====
-- Which kinds the collectors of a run declare, counted in the list and over the waves.
use ai_kubernetes_troublesho.Prelude.{
  ℕ, ◌≡◌, refl, ◌∙◌, String, Bool, true, false, not, ◌||◌, Option, none, some, List, [], ◌∷◌, arith,
  string_eq, nat_eq, keep, any, map, count, ◌+◌, ◌==◌, ◌⊎◌, contains, leb,
}
use ai_kubernetes_troublesho.Prelude.Exec.{Result, ok, raised}
use ai_kubernetes_troublesho.Evidence.{Evidence, EvidenceStore, statuses}
use ai_kubernetes_troublesho.Evidence.Recorded.{is_recorded}
use ai_kubernetes_troublesho.Collectors.{Collector, Pending, resolve}
use ai_kubernetes_troublesho.Collectors.Waves.{in_waves, occurrences}
use ai_kubernetes_troublesho.Collectors.Scheduler.{
  Behaviour, RunError, graph, test_raised, collected, ids_with_status,
}
use ai_kubernetes_troublesho.Collectors.Scheduler.Items.{covers}

-- The collector provides the kind.
abbrev pub declares : String → Collector → Bool
declares kind c = contains kind c.provides

abbrev pub any_wave : (Collector → Bool) → List (List Pending) → Bool
any_wave p [] = false
any_wave p (wave ∷ waves) = any p (map (λ q. q.collector) wave) || any_wave p waves

module _ (behaviour : Collector → Behaviour) where
  -- A collector that declares the kind succeeded and returned no record of it.
  abbrev pub Omits : String → Type 0
  Omits kind =
      (c : Collector) × (seen : EvidenceStore) × (items : List Evidence) × ((behaviour c).collect
          seen
        ≡ collected items)
      × (contains kind c.provides ≡ true)
      × (covers kind items ≡ false)

  -- What a run comes to. It raises where the registry refuses the graph, or where the test of one of
  -- the collectors raises. Else the store that is left holds a record of the kind, if a collector
  -- declares it or if it was recorded before, or a collector that succeeded omitted the kind.
  abbrev pub IsDelivered :
      String → List Collector → EvidenceStore → Option (Result RunError EvidenceStore) → Type 0
  IsDelivered kind collectors store none = ⊥
  IsDelivered kind collectors store (some (raised (graph e))) =
      resolve (ids_with_status (statuses store)) collectors ≡ some (raised e)
  IsDelivered kind collectors store (some (raised (test_raised c))) =
      (any (λ x. x.id == c.id) collectors ≡ true)
      × ((seen : EvidenceStore) × ((behaviour c).applicable seen ≡ none))
  IsDelivered kind collectors store (some (ok final)) =
      ((not (any (declares kind) collectors || is_recorded kind store.items)
          || is_recorded kind final.items)
        ≡ true)
      ⊎ Omits kind

pub any-count {ℓ} : {A : Type ℓ} (p : A → Bool) (xs : List A) → any p xs ≡ leb 1 (count p xs)
any-count p [] = ground arith
any-count p (x ∷ xs) = ground (arith, any-count p xs)

pub leb_or : (m n : ℕ) → (leb 1 m || leb 1 n) ≡ leb 1 (m + n)
leb_or m n = ground arith

pub any-map :
    (p : Collector → Bool) (wave : List Pending)
    → any p (map (λ q. q.collector) wave) ≡ any (λ q. p q.collector) wave
any-map p [] = refl
any-map p (q ∷ wave) = rw (any-map p wave) refl

pub any-collectors :
    (p : Collector → Bool) (wave : List Pending)
    → any p (map (λ q. q.collector) wave) ≡ leb 1 (occurrences (λ q. p q.collector) wave)
any-collectors p wave = any-map p wave ∙ any-count (λ q. p q.collector) wave

pub any_wave-count :
    (p : Collector → Bool) (waves : List (List Pending))
    → any_wave p waves ≡ leb 1 (in_waves (λ q. p q.collector) waves)
any_wave-count p [] = ground arith
any_wave-count p (wave ∷ waves) =
    rw (any-collectors p wave, any_wave-count p waves)
      (leb_or (occurrences (λ q. p q.collector) wave) (in_waves (λ q. p q.collector) waves))

pub or_assoc : (a b c : Bool) → ((a || b) || c) ≡ (a || (b || c))
or_assoc a b c = ground arith

pub any_split :
    (p runs : Collector → Bool) (cs : List Collector)
    → (any p (keep (λ c. not (runs c)) cs) || any p (keep runs cs)) ≡ any p cs
any_split p runs [] = refl
any_split p runs (c ∷ cs) = ground (arith, any_split p runs cs)
