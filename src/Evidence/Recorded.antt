-- ===== src/Evidence/Recorded.antt =====
-- Which kinds the evidence store holds a record of, where an id names its kind.
use ai_kubernetes_troublesho.Prelude.{
  ◌≡◌, refl, sym, ap, ◌∙◌, String, Bool, true, ◌||◌, Option, none, some, List, [], ◌∷◌, arith, ◌==◌,
  string_eq, nat_eq, eq_iff, any, Option-cases, Bool-cases, inl, inr,
}
use ai_kubernetes_troublesho.Prelude.Dict.{Dict, get, put}
use ai_kubernetes_troublesho.Evidence.{Evidence, EvidenceStore, values_of, add, add_new, extend}

-- The store holds a record of the kind.
abbrev pub is_recorded : String → Dict String Evidence → Bool
is_recorded kind items = any (λ e. e.kind == kind) (values_of items)

-- `named` reads the kind off an id: every record of the list, or of the store, is named by its id.
abbrev pub AllNamed : (String → String) → List Evidence → Type 0
AllNamed named [] = Unit
AllNamed named (e ∷ items) = (named e.id ≡ e.kind) × AllNamed named items

abbrev pub IsNamedStore : (String → String) → Dict String Evidence → Type 0
IsNamedStore named [] = Unit
IsNamedStore named ((id, e) ∷ items) = (named id ≡ e.kind) × IsNamedStore named items

module _ (named : String → String) where
  recorded_of_get :
      (id : String) (e : Evidence) (items : Dict String Evidence)
      → IsNamedStore named items
      → get id items ≡ some e
      → is_recorded (named id) items ≡ true
  unfolding get
  recorded_of_get id e [] h g = ground arith
  recorded_of_get id e ((other, old) ∷ items) h g = elim (Bool-cases (other == id)) [
    | inl p ↦
        let same : old.kind ≡ named id = sym h.0 ∙ ap named ((eq_iff other id).0 p) in
        ground (arith, eq_iff old.kind (named id))
    | inr p ↦ let rest = recorded_of_get id e items h.1 (rw p at g) in ground (arith, rest)
  ]

  put-IsNamedStore :
      (e : Evidence) (items : Dict String Evidence)
      → named e.id ≡ e.kind
      → IsNamedStore named items
      → IsNamedStore named (put e.id e items)
  unfolding put
  put-IsNamedStore e [] n h = (n, tt)
  put-IsNamedStore e ((other, old) ∷ items) n h = elim (Bool-cases (other == e.id)) [
    | inl p ↦ rw p (ap named ((eq_iff other e.id).0 p) ∙ n, h.1)
    | inr p ↦ rw p (h.0, put-IsNamedStore e items n h.1)
  ]

  recorded-put :
      (kind : String) (e : Evidence) (items : Dict String Evidence)
      → get e.id items ≡ none
      → is_recorded kind (put e.id e items) ≡ (e.kind == kind || is_recorded kind items)
  unfolding get put
  recorded-put kind e [] h = refl
  recorded-put kind e ((other, old) ∷ items) h = ground (arith, recorded-put kind e items)

  add_new-IsNamedStore :
      (found : Option Evidence) (e : Evidence) (store : EvidenceStore)
      → named e.id ≡ e.kind
      → IsNamedStore named store.items
      → IsNamedStore named (add_new found e store).items
  add_new-IsNamedStore none e store n h = put-IsNamedStore e store.items n h
  add_new-IsNamedStore (some old) e store n h = h

  already :
      (kind : String) (e : Evidence) (items : Dict String Evidence)
      → named e.id ≡ e.kind
      → is_recorded (named e.id) items ≡ true
      → (e.kind == kind || is_recorded kind items) ≡ true
      → is_recorded kind items ≡ true
  already kind e items n own r = elim (Bool-cases (e.kind == kind)) [
    | inl p ↦ sym (ap (λ k. is_recorded k items) (n ∙ (eq_iff e.kind kind).0 p)) ∙ own
    | inr p ↦ rw p at r
  ]

  -- A record that is added leaves its kind recorded, and what was recorded stays so.
  recorded-add :
      (kind : String) (e : Evidence) (store : EvidenceStore)
      → named e.id ≡ e.kind
      → IsNamedStore named store.items
      → (e.kind == kind || is_recorded kind store.items) ≡ true
      → is_recorded kind (add e store).items ≡ true
  unfolding add
  recorded-add kind e store n h r = elim (Option-cases (get e.id store.items)) [
    | inl fresh ↦ rw (fresh, add) (recorded-put kind e store.items fresh ∙ r)
    | inr (old, stored) ↦
        let own = recorded_of_get e.id old store.items h stored in
        rw (stored, add) (already kind e store.items n own r)
  ]

  add-IsNamedStore :
      (e : Evidence) (store : EvidenceStore)
      → named e.id ≡ e.kind
      → IsNamedStore named store.items
      → IsNamedStore named (add e store).items
  unfolding add
  add-IsNamedStore e store n h = add_new-IsNamedStore (get e.id store.items) e store n h

  pub extend-IsNamedStore :
      (items : List Evidence) (store : EvidenceStore)
      → AllNamed named items
      → IsNamedStore named store.items
      → IsNamedStore named (extend items store).items
  unfolding extend
  extend-IsNamedStore [] store n h = h
  extend-IsNamedStore (e ∷ items) store n h =
      extend-IsNamedStore items (add e store) n.1 (add-IsNamedStore e store n.0 h)

  pub recorded-extend :
      (kind : String) (items : List Evidence) (store : EvidenceStore)
      → AllNamed named items
      → IsNamedStore named store.items
      → (any (λ e. e.kind == kind) items || is_recorded kind store.items) ≡ true
      → is_recorded kind (extend items store).items ≡ true
  unfolding extend
  recorded-extend kind [] store n h r = r
  recorded-extend kind (e ∷ items) store n h r =
      let rest = any (λ x. x.kind == kind) items in
      let added : (rest || is_recorded kind (add e store).items) ≡ true =
        ground (arith, recorded-add kind e store n.0 h) in
      recorded-extend kind items (add e store) n.1 (add-IsNamedStore e store n.0 h) added

  pub recorded-kept :
      (kind : String) (items : List Evidence) (store : EvidenceStore)
      → AllNamed named items
      → IsNamedStore named store.items
      → is_recorded kind store.items ≡ true
      → is_recorded kind (extend items store).items ≡ true
  recorded-kept kind items store n h r = recorded-extend kind items store n h (ground arith)
