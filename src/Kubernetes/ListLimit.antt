-- ===== src/Kubernetes/ListLimit.antt =====
-- backend/app/kubernetes/list_limit.py: the cap on the items of one list response. A limit that is
-- not positive is 0. The keys of a JSON object are different from each other, as in a Python dict.
use ai_kubernetes_troublesho.Prelude.{
  ℕ, zero, suc, ◌<◌, ◌≡◌, refl, ap, inl, inr, String, true, false, ◌||◌, Option, none, some, ltb,
  leb, ◌==◌, string_eq, nat_eq, arith, Bool-cases, if◌then◌else◌,
}
use ai_kubernetes_troublesho.Evidence.Redactor.{
  Json, null, bool, num, text, arr, obj, Items, end, item, Fields, close, field,
}

abbrev pub item_count : Items → ℕ
item_count end = 0
item_count (item value items) = suc (item_count items)

-- `items[:limit]`
abbrev pub take_items : ℕ → Items → Items
take_items zero items = end
take_items (suc n) end = end
take_items (suc n) (item value items) = item value (take_items n items)

-- `data.get(key)`, and `{**data, key: value}` where the key is there
abbrev pub field_of : String → Fields → Option Json
field_of key close = none
field_of key (field k value fields) =
    let rest = field_of key fields in if k == key then some value else rest

abbrev pub set_field : String → Json → Fields → Fields
set_field key new close = close
set_field key new (field k value fields) =
    let rest = set_field key new fields in
    if k == key then field k new fields else field k value rest

-- the list under "items", where the data is a list response
abbrev pub list_of : Option Json → Option Items
list_of (some (arr items)) = some items
list_of _ = none

abbrev pub items_of : Json → Option Items
items_of (obj fields) = list_of (field_of "items" fields)
items_of _ = none

pub record Truncation : Type 0 where
  pub command : String
  pub returned : ℕ
  pub retained : ℕ

abbrev pub with_items : Items → Json → Json
with_items items (obj fields) = obj (set_field "items" (arr items) fields)
with_items items body = body

abbrev pub cap_list : Option Items → Json → String → ℕ → Json × Option Truncation × ℕ
cap_list none body command limit = (body, none, 0)
cap_list (some items) body command limit =
    let total = item_count items in
    if limit == 0 || leb total limit then (body, none, total) else (
      with_items (take_items limit items) body,
      some record { command = command; returned = total; retained = limit },
      total,
    )

unfoldable pub cap_items : Json → String → ℕ → Json × Option Truncation × ℕ
cap_items body command limit = cap_list (items_of body) body command limit

-- how many items a list response holds
abbrev pub counted : Option Items → ℕ
counted none = 0
counted (some items) = item_count items

take_items-count :
    (n : ℕ) (items : Items) → n < item_count items → item_count (take_items n items) ≡ n
take_items-count zero items h = refl
take_items-count (suc n) end h = absurd (omega arith)
take_items-count (suc n) (item value items) h = ap suc (take_items-count n items (omega arith))

set_field-read :
    (key : String) (new : Json) (fields : Fields) (old : Json)
    → field_of key fields ≡ some old
    → field_of key (set_field key new fields) ≡ some new
set_field-read key new close old h = absurd (ground arith)
set_field-read key new (field k value fields) old h = elim (Bool-cases (k == key)) [
  | inl p ↦ rw (p, p) refl
  | inr p ↦ rw (p, p) (set_field-read key new fields old (rw p at h))
]

list_found :
    (o : Option Json) (items : Items) → list_of o ≡ some items → (old : Json) × (o ≡ some old)
list_found none items h = absurd (ground arith)
list_found (some value) items h = (value, refl)

items_of-with_items :
    (body : Json) (items new : Items)
    → items_of body ≡ some items
    → items_of (with_items new body) ≡ some new
items_of-with_items null items new h = absurd (ground arith)
items_of-with_items (bool b) items new h = absurd (ground arith)
items_of-with_items (num n) items new h = absurd (ground arith)
items_of-with_items (text s) items new h = absurd (ground arith)
items_of-with_items (arr elements) items new h = absurd (ground arith)
items_of-with_items (obj fields) items new h =
    let (old, stored) = list_found (field_of "items" fields) items h in
    ap list_of (set_field-read "items" (arr new) fields old stored)

-- What a cap comes to, for data that holds so many items.
abbrev pub Capped : Json → String → ℕ → Json × Option Truncation × ℕ → Type 0
Capped body command limit (kept, truncation, total) =
    (total ≡ counted (items_of body))
    × (counted (items_of kept) ≡ (if ltb limit total then limit else total))
    × (truncation ≡ (
        if ltb limit total
        then some
            (record { command = command; returned = total; retained = counted (items_of kept) })
        else none))

cap_list-Capped :
    (found : Option Items) (body : Json) (command : String) (limit : ℕ)
    → 0 < limit
    → items_of body ≡ found
    → Capped body command limit (cap_list found body command limit)
cap_list-Capped none body command limit pos e = (rw e refl, rw e (ground arith), ground arith)
cap_list-Capped (some items) body command limit pos e =
    elim (Bool-cases (leb (item_count items) limit)) [
      | inl p ↦
          let off : (limit == 0 || leb (item_count items) limit) ≡ true = ground (arith, p) in
          let short : ltb limit (item_count items) ≡ false = ground (arith, p) in
          rw (off, short, e) (refl, refl, refl)
      | inr p ↦
          let on : (limit == 0 || leb (item_count items) limit) ≡ false = ground (arith, p) in
          let long : ltb limit (item_count items) ≡ true = ground (arith, p) in
          let kept = ap counted (items_of-with_items body items (take_items limit items) e) in
          let exact = take_items-count limit items (ground (arith, p)) in
          rw (on, long, e, kept, exact) (refl, refl, refl)
    ]

-- Under a positive limit, a list response keeps exactly as many items as the limit allows; the
-- number that is returned with it is the cluster's; and a truncation is recorded, with both
-- numbers, exactly if items were dropped. What is not a list response counts as no items.
pub cap_items-Capped :
    (body : Json) (command : String) (limit : ℕ)
    → 0 < limit
    → Capped body command limit (cap_items body command limit)
unfolding cap_items
cap_items-Capped body command limit pos =
    cap_list-Capped (items_of body) body command limit pos refl
