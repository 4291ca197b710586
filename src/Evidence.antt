-- ===== src/Evidence.antt =====
-- backend/app/evidence/models.py and store.py: what an investigation collects, addressable by id. A
-- payload is a JSON value. The time at which a record is made is an argument.
pub mod Redactor
pub mod Index
pub mod Recorded
pub mod Masked
mod Examples
use Prim.Native.String.{◌++◌ as ◌<>◌}
use ai_kubernetes_troublesho.Prelude.{
  ℕ, suc, String, Bool, true, false, not, Option, none, some, List, [], ◌∷◌, ◌++◌, ◌==◌, string_eq,
  nat_eq, keep, count, any, length, map, if◌then◌else◌,
}
use ai_kubernetes_troublesho.Prelude.Dict.{Dict, get, put}
use ai_kubernetes_troublesho.Prelude.Text.{lower}
use ai_kubernetes_troublesho.Evidence.Redactor.{Json}

pub data EvidenceStatus : Type 0 where
  ok empty unavailable forbidden timeout not_applicable failed : EvidenceStatus

-- `EvidenceStatus.usable`
abbrev pub is_usable : EvidenceStatus → Bool
is_usable ok = true
is_usable empty = true
is_usable _ = false

abbrev pub is_not_applicable : EvidenceStatus → Bool
is_not_applicable not_applicable = true
is_not_applicable _ = false

-- the values of the enumeration
abbrev pub status_name : EvidenceStatus → String
status_name ok = "ok"
status_name empty = "empty"
status_name unavailable = "unavailable"
status_name forbidden = "forbidden"
status_name timeout = "timeout"
status_name not_applicable = "not_applicable"
status_name failed = "failed"

pub data EvidenceSource : Type 0 where
  kubectl prometheus loki derived : EvidenceSource

pub record ResourceRef : Type 0 where
  pub kind : String
  pub name : String
  pub namespace : Option String
  pub uid : Option String

abbrev scope_of : Option String → String
scope_of none = "_cluster"
scope_of (some namespace) = if namespace == "" then "_cluster" else namespace

-- `ResourceRef.key`
unfoldable pub key_of : ResourceRef → String
key_of ref = lower ref.kind <> ("/" <> (scope_of ref.namespace <> ("/" <> ref.name)))

abbrev or_current : Option String → String
or_current none = "current-context"
or_current (some name) = if name == "" then "current-context" else name

-- `ResourceRef.cluster`
abbrev pub cluster_ref : Option String → ResourceRef
cluster_ref name = record { kind = "Cluster"; name = or_current name; namespace = none; uid = none }

pub record Evidence : Type 0 where
  pub id : String
  pub kind : String
  pub source : EvidenceSource
  pub status : EvidenceStatus
  pub target : ResourceRef
  pub payload : Option Json
  pub detail : String
  pub command : Option String
  pub collector_id : String
  pub duration_ms : ℕ
  pub redacted : Bool
  pub collected_at : ℕ

-- `Evidence.create`'s id
unfoldable pub evidence_id : String → ResourceRef → String → String
evidence_id kind target discriminator =
    let base = kind <> (":" <> key_of target) in
    if discriminator == "" then base else base <> ("#" <> discriminator)

-- `Evidence.create` of a record with no payload and no command
unfoldable pub bare : String → EvidenceStatus → ResourceRef → String → String → ℕ → Evidence
bare kind status target detail collector_id now = record {
  id = evidence_id kind target "";
  kind = kind;
  source = kubectl;
  status = status;
  target = target;
  payload = none;
  detail = detail;
  command = none;
  collector_id = collector_id;
  duration_ms = 0;
  redacted = false;
  collected_at = now;
}

pub record EvidenceStore : Type 0 where
  pub items : Dict String Evidence
  pub kinds : Dict String (List String)

abbrev pub new_store : EvidenceStore
new_store = record { items = []; kinds = [] }

abbrev pub or_empty : Option (List String) → List String
or_empty none = []
or_empty (some ids) = ids

-- `self._items.values()`
abbrev pub values_of : Dict String Evidence → List Evidence
values_of items = map (λ entry. entry.1) items

-- `add`: what stands under an id is never replaced
abbrev pub add_new : Option Evidence → Evidence → EvidenceStore → EvidenceStore
add_new (some old) evidence store = store
add_new none evidence store = record {
  items = put evidence.id evidence store.items;
  kinds =
      put evidence.kind (or_empty (get evidence.kind store.kinds) ++ evidence.id ∷ []) store.kinds;
}

unfoldable pub add : Evidence → EvidenceStore → EvidenceStore
add evidence store = add_new (get evidence.id store.items) evidence store

unfoldable pub extend : List Evidence → EvidenceStore → EvidenceStore
extend [] store = store
extend (evidence ∷ items) store = extend items (add evidence store)

-- `[self._items[item_id] for item_id in ids]`; none where an id is missing
abbrev prepend : Option Evidence → Option (List Evidence) → Option (List Evidence)
prepend none rest = none
prepend (some evidence) none = none
prepend (some evidence) (some rest) = some (evidence ∷ rest)

abbrev pub fetch_all : Dict String Evidence → List String → Option (List Evidence)
fetch_all items [] = some []
fetch_all items (id ∷ ids) = prepend (get id items) (fetch_all items ids)

unfoldable pub by_kind : String → EvidenceStore → Option (List Evidence)
by_kind kind store = fetch_all store.items (or_empty (get kind store.kinds))

unfoldable pub by_target : ResourceRef → EvidenceStore → List Evidence
by_target target store = keep (λ e. key_of e.target == key_of target) (values_of store.items)

abbrev head_of : Option (List Evidence) → Option Evidence
head_of none = none
head_of (some []) = none
head_of (some (evidence ∷ rest)) = some evidence

unfoldable pub first : String → EvidenceStore → Option Evidence
first kind store = head_of (by_kind kind store)

abbrev pub any_usable : Option (List Evidence) → Bool
any_usable none = false
any_usable (some items) = any (λ e. is_usable e.status) items

-- `has`
unfoldable pub has : String → EvidenceStore → Bool
has kind store = any_usable (by_kind kind store)

abbrev first_usable : List Evidence → Option Json
first_usable [] = none
first_usable (e ∷ items) =
    let rest = first_usable items in if is_usable e.status then e.payload else rest

abbrev usable_payload : Option (List Evidence) → Option Json
usable_payload none = none
usable_payload (some items) = first_usable items

-- `data`, where nothing stands for the default
unfoldable pub payload_of : String → EvidenceStore → Option Json
payload_of kind store = usable_payload (by_kind kind store)

-- `coverage`, without the percentage: how many items there are, how many apply and are usable, how
-- many stand at each status, and those that are not usable
abbrev or_zero : Option ℕ → ℕ
or_zero none = 0
or_zero (some n) = n

abbrev pub status_counts : List Evidence → Dict String ℕ → Dict String ℕ
status_counts [] counts = counts
status_counts (e ∷ items) counts =
    let name = status_name e.status in
    status_counts items (put name (suc (or_zero (get name counts))) counts)

pub record Coverage : Type 0 where
  pub total : ℕ
  pub applicable : ℕ
  pub usable : ℕ
  pub by_status : Dict String ℕ
  pub degraded : List Evidence

unfoldable pub coverage : EvidenceStore → Coverage
coverage store =
    let items = values_of store.items in
    let applicable = keep (λ e. not (is_not_applicable e.status)) items in
    record {
      total = length store.items;
      applicable = length applicable;
      usable = count (λ e. is_usable e.status) applicable;
      by_status = status_counts items [];
      degraded = keep (λ e. not (is_usable e.status)) items;
    }

-- `statuses`: a kind and the status of its last item
abbrev last_statuses : List Evidence → Dict String EvidenceStatus → Dict String EvidenceStatus
last_statuses [] found = found
last_statuses (e ∷ items) found = last_statuses items (put e.kind e.status found)

unfoldable pub statuses : EvidenceStore → Dict String EvidenceStatus
statuses store = last_statuses (values_of store.items) []
