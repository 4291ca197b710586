-- ===== src/Playbooks/Fresh.antt =====
-- What a round plans is new, and a registry takes each collector once.
use ai_kubernetes_troublesho.Prelude.{
  ◌+◌, ◌≤◌, ◌≡◌, refl, sym, ap, ◌⊎◌, inl, inr, String, false, Option, none, some, List, [], ◌∷◌,
  ◌++◌, string_eq, nat_eq, eq_iff, contains, arith, Bool-cases, times, times-append, times_none,
  append_nil,
}
use ai_kubernetes_troublesho.Prelude.Exec.{Result, ok, raised}
use ai_kubernetes_troublesho.Evidence.{EvidenceStore}
use ai_kubernetes_troublesho.Collectors.{Collector, GraphError, ids_of, register}
use ai_kubernetes_troublesho.Playbooks.{
  Playbook, Planned, set_default, set_defaults, add_fresh, fresh_of, add_plan, plan_all, plan,
  register_all, select,
}

ids_of-append : (cs ds : List Collector) → ids_of (cs ++ ds) ≡ ids_of cs ++ ids_of ds
ids_of-append [] ds = refl
ids_of-append (c ∷ cs) ds = ap (λ l. c.id ∷ l) (ids_of-append cs ds)

-- The planned collectors are new, and each is planned once.
abbrev pub Disjoint : List String → List Collector → Type 0
Disjoint executed planned = (id : String) → times id executed + times id (ids_of planned) ≤ 1

abbrev AllFresh : List String → List Collector → Type 0
AllFresh executed [] = Unit
AllFresh executed (c ∷ cs) = (contains c.id executed ≡ false) × AllFresh executed cs

fresh_of-AllFresh :
    (executed : List String) (cs : List Collector) → AllFresh executed (fresh_of executed cs)
fresh_of-AllFresh executed [] = tt
fresh_of-AllFresh executed (c ∷ cs) = elim (Bool-cases (contains c.id executed)) [
  | inl p ↦ rw p (fresh_of-AllFresh executed cs)
  | inr p ↦ rw p (p, fresh_of-AllFresh executed cs)
]

set_default-Disjoint :
    (executed : List String) (c : Collector) (planned : List Collector)
    → contains c.id executed ≡ false
    → Disjoint executed planned
    → Disjoint executed (set_default c planned)
set_default-Disjoint executed c planned f h id =
    elim (Bool-cases (contains c.id (ids_of planned))) [
      | inl p ↦ rw p (h id)
      | inr p ↦
          rw (p, ids_of-append planned (c ∷ []))
            (ground (
              arith,
              h id,
              times-append id (ids_of planned) (c.id ∷ []),
              times_none c.id (ids_of planned) p,
              times_none c.id executed f,
              eq_iff id c.id,
            ))
    ]

set_defaults-Disjoint :
    (executed : List String) (cs planned : List Collector)
    → AllFresh executed cs
    → Disjoint executed planned
    → Disjoint executed (set_defaults cs planned)
unfolding set_defaults
set_defaults-Disjoint executed [] planned f h = h
set_defaults-Disjoint executed (c ∷ cs) planned f h =
    set_defaults-Disjoint executed cs (set_default c planned) f.1
      (set_default-Disjoint executed c planned f.0 h)

add_fresh-Disjoint :
    (id : String) (executed : List String) (cs : List Collector) (planned : Planned)
    → AllFresh executed cs
    → Disjoint executed planned.collectors
    → Disjoint executed (add_fresh id cs planned).collectors
add_fresh-Disjoint id executed [] planned f h = h
add_fresh-Disjoint id executed (c ∷ cs) planned f h =
    set_defaults-Disjoint executed (c ∷ cs) planned.collectors f h

add_plan-Disjoint :
    (id : String) (found : Option (List Collector)) (executed : List String) (planned : Planned)
    → Disjoint executed planned.collectors
    → Disjoint executed (add_plan id found executed planned).collectors
add_plan-Disjoint id none executed planned h = h
add_plan-Disjoint id (some cs) executed planned h =
    add_fresh-Disjoint id executed (fresh_of executed cs) planned (fresh_of-AllFresh executed cs) h

plan_all-Disjoint :
    {A : Type 0} (playbooks : List (Playbook A)) (analysis : A) (store : EvidenceStore)
    (executed : List String) (planned : Planned)
    → Disjoint executed planned.collectors
    → Disjoint executed (plan_all playbooks analysis store executed planned).collectors
unfolding plan_all
plan_all-Disjoint [] analysis store executed planned h = h
plan_all-Disjoint (p ∷ playbooks) analysis store executed planned h =
    plan_all-Disjoint playbooks analysis store executed
      (add_plan p.id (p.plan analysis store) executed planned)
      (add_plan-Disjoint p.id (p.plan analysis store) executed planned h)

pub plan-Disjoint :
    {A : Type 0} (playbooks : List (Playbook A)) (analysis : A) (store : EvidenceStore)
    (executed : List String)
    → ((id : String) → times id executed ≤ 1)
    → Disjoint executed (plan playbooks analysis store executed).collectors
unfolding plan
plan-Disjoint playbooks analysis store executed once =
    plan_all-Disjoint (select analysis store playbooks) analysis store executed
      (record { collectors = []; selected = [] }) (λ id. omega (arith, once id))

result_cases {ℓ} :
    {E : Type ℓ} {A : Type ℓ} (r : Result E A) → ((e : E) × (r ≡ raised e)) ⊎ ((a : A) × (r ≡ ok a))
result_cases (raised e) = inl (e, refl)
result_cases (ok a) = inr (a, refl)

ok_inj :
    (xs ys : List Collector)
    → (◌≡◌ {A = Result GraphError (List Collector)} (ok xs) (ok ys))
    → xs ≡ ys
ok_inj xs ys e = ap (λ r. elim r [ raised g ↦ xs | ok zs ↦ zs ]) e

register_ok :
    (c : Collector) (registry grown : List Collector)
    → register c registry ≡ ok grown
    → (grown ≡ registry ++ c ∷ []) × (contains c.id (ids_of registry) ≡ false)
unfolding register
register_ok c registry grown e = ground arith

snoc_assoc :
    (registry : List Collector) (c : Collector) (cs : List Collector)
    → (registry ++ c ∷ []) ++ cs ≡ registry ++ c ∷ cs
snoc_assoc [] c cs = refl
snoc_assoc (d ∷ registry) c cs = ap (λ l. d ∷ l) (snoc_assoc registry c cs)

snoc_once :
    (c : Collector) (registry : List Collector)
    → contains c.id (ids_of registry) ≡ false
    → ((id : String) → times id (ids_of registry) ≤ 1)
    → (id : String) → times id (ids_of (registry ++ c ∷ [])) ≤ 1
snoc_once c registry new h id = rw (ids_of-append registry (c ∷ [])) (
    ground (
      arith,
      h id,
      times-append id (ids_of registry) (c.id ∷ []),
      times_none c.id (ids_of registry) new,
      eq_iff id c.id,
    ))

-- A registry that takes all collectors has each id once.
pub register_all-once :
    (cs registry all : List Collector)
    → register_all cs registry ≡ ok all
    → ((id : String) → times id (ids_of registry) ≤ 1)
    → (id : String) → times id (ids_of (registry ++ cs)) ≤ 1
unfolding register_all
register_all-once [] registry all e h id = rw (append_nil registry) (h id)
register_all-once (c ∷ cs) registry all e h id = elim (result_cases (register c registry)) [
  | inl (g, p) ↦ absurd (ground (arith, rw (p, register_all) at e))
  | inr (grown, p) ↦
      let (same, new) = register_ok c registry grown p in
      let grown_once = snoc_once c registry new h in
      rw (sym (snoc_assoc registry c cs)) (
        register_all-once cs (registry ++ c ∷ []) all (rw same at (rw (p, register_all) at e))
          grown_once id)
]
