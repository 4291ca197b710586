-- ===== src/Collectors/Scheduler/Items.antt =====
-- What one collector of the scheduler returns: the ids and the kinds of its records.
use ai_kubernetes_troublesho.Prelude.{
  ℕ, ◌≡◌, refl, sym, ap, ◌∙◌, String, Bool, Option, none, some, List, [], ◌∷◌, arith, ◌==◌,
  string_eq, nat_eq, eq_iff, any, map, contains, if◌then◌else◌,
}
use ai_kubernetes_troublesho.Evidence.{Evidence, EvidenceStatus, bare, evidence_id}
use ai_kubernetes_troublesho.Evidence.Redactor.{PyText, Json}
use ai_kubernetes_troublesho.Evidence.Recorded.{AllNamed}
use ai_kubernetes_troublesho.Collectors.{Collector}
use ai_kubernetes_troublesho.Collectors.Scheduler.{Context, sanitize, clean, earlier}

-- The records cover a kind.
abbrev pub covers : String → List Evidence → Bool
covers kind items = any (λ e. e.kind == kind) items

module _ (named : String → String) (context : Context)
    (names_bare : (kind : String) → named (evidence_id kind context.cluster "") ≡ kind) where
  pub bare_list-AllNamed :
      (kinds : List String) (status : EvidenceStatus) (detail : String) (c : Collector)
      → AllNamed named
          (map (λ kind. bare kind status context.cluster detail c.id context.now) kinds)
  unfolding bare
  bare_list-AllNamed [] status detail c = tt
  bare_list-AllNamed (kind ∷ kinds) status detail c =
      (names_bare kind, bare_list-AllNamed kinds status detail c)

pub covers-bare :
    (kind : String) (kinds : List String) (status : EvidenceStatus) (detail : String)
    (c : Collector) (context : Context)
    → covers kind (map (λ k. bare k status context.cluster detail c.id context.now) kinds)
      ≡ contains kind kinds
unfolding bare
covers-bare kind [] status detail c context = refl
covers-bare kind (k ∷ kinds) status detail c context =
    ground (arith, eq_iff k kind, eq_iff kind k, covers-bare kind kinds status detail c context)

module _ (py : PyText) (duration : ℕ) (oldest : Option ℕ) where
  sanitize-keeps :
      (payload : Option Json) (e : Evidence)
      → ((clean py payload e).id ≡ e.id) × ((clean py payload e).kind ≡ e.kind)
  sanitize-keeps none e = (refl, refl)
  sanitize-keeps (some value) e = ground arith

  pub sanitize_lem :
      (e : Evidence)
      → ((sanitize py duration oldest e).id ≡ e.id)
        × ((sanitize py duration oldest e).kind ≡ e.kind)
  sanitize_lem e = sanitize-keeps e.payload record e {
    duration_ms = if e.duration_ms == 0 then duration else e.duration_ms;
    collected_at = earlier oldest e.collected_at;
  }

  pub sanitize-AllNamed :
      (named : String → String) (items : List Evidence)
      → AllNamed named items
      → AllNamed named (map (sanitize py duration oldest) items)
  sanitize-AllNamed named [] h = tt
  sanitize-AllNamed named (e ∷ items) h =
      let same = sanitize_lem e in
      (ap named same.0 ∙ h.0 ∙ sym same.1, sanitize-AllNamed named items h.1)

  pub covers-sanitize :
      (kind : String) (items : List Evidence)
      → covers kind (map (sanitize py duration oldest) items) ≡ covers kind items
  covers-sanitize kind [] = refl
  covers-sanitize kind (e ∷ items) = rw ((sanitize_lem e).1, covers-sanitize kind items) refl
