-- ===== src/Evidence/Index.antt =====
-- The index of the evidence store against its items.
use ai_kubernetes_troublesho.Prelude.{
  ◌≡◌, refl, sym, ap, ◌∙◌, String, none, some, List, [], ◌∷◌, ◌++◌, arith, ◌==◌, string_eq, eq_iff,
  keep, map, append_nil, if◌then◌else◌, Option-cases, Bool-cases, inl, inr,
}
use ai_kubernetes_troublesho.Prelude.Dict.{Dict, get, put, get-put, get-put_self}
use ai_kubernetes_troublesho.Evidence.{
  Evidence, EvidenceStore, new_store, or_empty, values_of, add_new, add, extend, fetch_all, by_kind,
}

-- the items of a kind, found by looking at every item
abbrev pub of_kind : String → List Evidence → List Evidence
of_kind kind items = keep (λ e. e.kind == kind) items

abbrev pub ids : List Evidence → List String
ids items = map (λ e. e.id) items

-- Every item stands under its own id.
abbrev pub AllFound : Dict String Evidence → List Evidence → Type 0
AllFound items [] = Unit
AllFound items (e ∷ rest) = (get e.id items ≡ some e) × AllFound items rest

pub record IsIndexed (store : EvidenceStore) : Type 0 where
  pub found : AllFound store.items (values_of store.items)
  pub indexed :
      (kind : String) → or_empty (get kind store.kinds) ≡ ids (of_kind kind (values_of store.items))

values-put :
    (id : String) (e : Evidence) (items : Dict String Evidence)
    → get id items ≡ none
    → values_of (put id e items) ≡ values_of items ++ e ∷ []
unfolding get put
values-put id e [] h = refl
values-put id e ((other, old) ∷ items) h =
    ground (arith, ap (λ l. old ∷ l) (values-put id e items (ground arith)))

of_kind-append :
    (kind : String) (xs ys : List Evidence)
    → ids (of_kind kind (xs ++ ys)) ≡ ids (of_kind kind xs) ++ ids (of_kind kind ys)
of_kind-append kind [] ys = refl
of_kind-append kind (x ∷ xs) ys = ground (arith, of_kind-append kind xs ys)

AllFound-append :
    (items : Dict String Evidence) (xs : List Evidence) (e : Evidence)
    → AllFound items xs
    → get e.id items ≡ some e
    → AllFound items (xs ++ e ∷ [])
AllFound-append items [] e h k = (k, tt)
AllFound-append items (x ∷ xs) e h k = (h.0, AllFound-append items xs e h.1 k)

get-put_other :
    (items : Dict String Evidence) (x e : Evidence)
    → get e.id items ≡ none
    → get x.id items ≡ some x
    → get x.id (put e.id e items) ≡ some x
get-put_other items x e fresh h = elim (Bool-cases (e.id == x.id)) [
  | inl p ↦
      let same = ap (λ k. get k items) ((eq_iff e.id x.id).0 p) in
      let clash : none ≡ some x = sym fresh ∙ same ∙ h in absurd (ground arith)
  | inr p ↦ rw (get-put e.id x.id e items, p) h
]

AllFound-put :
    (items : Dict String Evidence) (xs : List Evidence) (e : Evidence)
    → get e.id items ≡ none
    → AllFound items xs
    → AllFound (put e.id e items) xs
AllFound-put items [] e fresh h = tt
AllFound-put items (x ∷ xs) e fresh h =
    (get-put_other items x e fresh h.0, AllFound-put items xs e fresh h.1)

fetch_ids :
    (kind : String) (items : Dict String Evidence) (xs : List Evidence)
    → AllFound items xs
    → fetch_all items (ids (of_kind kind xs)) ≡ some (of_kind kind xs)
fetch_ids kind items [] h = refl
fetch_ids kind items (x ∷ xs) h = elim (Bool-cases (x.kind == kind)) [
  | inl p ↦ rw (p, h.0, fetch_ids kind items xs h.1) refl
  | inr p ↦ rw p (fetch_ids kind items xs h.1)
]

indexed_at :
    (kind : String) (e : Evidence) (store : EvidenceStore) (old : List String)
    → or_empty (get kind store.kinds) ≡ ids (of_kind kind (values_of store.items))
    → old ≡ ids (of_kind e.kind (values_of store.items))
    → or_empty (if e.kind == kind then some (old ++ e.id ∷ []) else get kind store.kinds)
      ≡ ids (of_kind kind (values_of store.items)) ++ ids (of_kind kind (e ∷ []))
indexed_at kind e store old h own = elim (Bool-cases (e.kind == kind)) [
  | inl p ↦
      let same = ap (λ k. ids (of_kind k (values_of store.items))) ((eq_iff e.kind kind).0 p) in
      rw p (ap (λ l. l ++ e.id ∷ []) (own ∙ same))
  | inr p ↦ rw p (h ∙ sym (append_nil (ids (of_kind kind (values_of store.items)))))
]

add_new-IsIndexed :
    (e : Evidence) (store : EvidenceStore)
    → get e.id store.items ≡ none
    → IsIndexed store
    → IsIndexed (add_new none e store)
add_new-IsIndexed e store fresh h =
    let xs = values_of store.items in
    let grown = values-put e.id e store.items fresh in
    let old = or_empty (get e.kind store.kinds) in
    record {
      found = rw grown (
          AllFound-append (put e.id e store.items) xs e
            (AllFound-put store.items xs e fresh h.found) (get-put_self e.id e store.items));
      indexed = λ kind.
          rw
            (
              grown,
              of_kind-append kind xs (e ∷ []),
              get-put e.kind kind (old ++ e.id ∷ []) store.kinds,
            )
            (indexed_at kind e store old (h.indexed kind) (h.indexed e.kind));
    }

add-IsIndexed : (e : Evidence) (store : EvidenceStore) → IsIndexed store → IsIndexed (add e store)
unfolding add
add-IsIndexed e store h = elim (Option-cases (get e.id store.items)) [
  | inl fresh ↦ rw (fresh, add) (add_new-IsIndexed e store fresh h)
  | inr (old, stored) ↦ rw (stored, add) h
]

pub extend-IsIndexed :
    (items : List Evidence) (store : EvidenceStore)
    → IsIndexed store
    → IsIndexed (extend items store)
unfolding extend
extend-IsIndexed [] store h = h
extend-IsIndexed (e ∷ items) store h =
    extend-IsIndexed items (add e store) (add-IsIndexed e store h)

pub new_store-IsIndexed : IsIndexed new_store
unfolding get
new_store-IsIndexed = record { found = tt; indexed = λ kind. refl }

-- However a store is filled, its lookup by kind through the index finds every id, and gives the
-- items of the kind that a search through all items gives, in the order in which they were added.
pub by_kind-eq-of_kind :
    (batch : List Evidence) (kind : String)
    → by_kind kind (extend batch new_store)
      ≡ some (of_kind kind (values_of (extend batch new_store).items))
unfolding by_kind
by_kind-eq-of_kind batch kind =
    let store = extend batch new_store in
    let h = extend-IsIndexed batch new_store new_store-IsIndexed in
    rw (h.indexed kind) (fetch_ids kind store.items (values_of store.items) h.found)
