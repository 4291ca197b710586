-- ===== src/Authz/Store.antt =====
-- backend/app/authz/store.py: `FileMemberStore`. The file is a value that each method takes and
-- returns; the current tenant and the time are arguments. JSON encoding and the atomic replace of
-- the file are not modelled: a file is missing, unreadable, or holds the tables.
pub mod View
use ai_kubernetes_troublesho.Prelude.{
  ℕ, suc, String, Bool, true, false, ◌&&◌, not, Option, none, some, List, [], ◌∷◌, ltb, ◌==◌,
  string_eq, nat_eq, count, if◌then◌else◌,
}
use text.Mathlib.Text.{is_le}
use Prim.Native.String.{compare}
use ai_kubernetes_troublesho.Prelude.Dict.{Dict, get, put, remove}
use ai_kubernetes_troublesho.Prelude.Sort.{sorted}
use ai_kubernetes_troublesho.Prelude.Exec.{Result, ok, raised, Exec, pure, ◌>>=◌, ◌>>◌}
use ai_kubernetes_troublesho.Authz.Models.{
  Role, viewer, operator, admin, owner, rank, role_eq, parse, Membership,
}

-- What the store and the service raise: `RuntimeError`, `AuthorizationModelError`, and
-- `MemberError` with its status code.
pub data Failure : Type 0 where
  unreadable_store : Failure
  bad_role : Failure
  member_error : ℕ → Failure

-- `str(role)`
unfoldable pub role_name : Role → String
role_name viewer = "viewer"
role_name operator = "operator"
role_name admin = "admin"
role_name owner = "owner"

-- One stored row. A key that the JSON lacks stands as the default that `_hydrate` gives it.
pub record Row : Type 0 where
  pub role : Option String
  pub email : String
  pub suspended : Bool
  pub granted_by : String
  pub created_at : ℕ
  pub updated_at : ℕ
  pub last_seen_at : Option ℕ

abbrev pub Members : Type 0
Members = Dict String Row

abbrev pub Tenants : Type 0
Tenants = Dict String Members

pub data File : Type 0 where
  missing unreadable : File
  readable : Tenants → File

-- `_read`
unfoldable pub read : Exec Failure File Tenants
read missing = (ok [], missing)
read unreadable = (raised unreadable_store, unreadable)
read (readable tenants) = (ok tenants, readable tenants)

-- `_members`
unfoldable pub members_of : String → Tenants → Members
members_of tenant tenants = elim (get tenant tenants) [ none ↦ [] | some members ↦ members ]

-- `_write`, after the members of one tenant were changed
unfoldable pub write : String → Members → Tenants → Exec Failure File Unit
write tenant members tenants file = (ok tt, readable (put tenant members tenants))

-- `Role.parse(row["role"]) if row.get("role") else None`
unfoldable pub stored_role : Option String → Result Failure (Option Role)
stored_role none = ok none
stored_role (some text) =
    if text == ""
    then ok none
    else elim (parse text) [ none ↦ raised bad_role | some role ↦ ok (some role) ]

abbrev pub membership_of : String → Row → Option Role → Membership
membership_of subject row role = record {
  subject = subject;
  role = role;
  email = row.email;
  suspended = row.suspended;
  granted_by = row.granted_by;
  created_at = row.created_at;
  updated_at = row.updated_at;
  last_seen_at = row.last_seen_at;
}

-- `_hydrate`
unfoldable pub hydrate : String → Row → Result Failure Membership
unfolding stored_role
hydrate subject row = elim (stored_role row.role) [
  | ok role ↦ ok (membership_of subject row role)
  | raised e ↦ raised e
]

-- `get`
unfoldable pub fetch : String → String → Exec Failure File (Option Membership)
fetch tenant subject = do
  tenants ← read
  λ file. elim (get subject (members_of tenant tenants)) [
    | none ↦ (ok none, file)
    | some row ↦ elim (hydrate subject row) [
      | ok member ↦ (ok (some member), file)
      | raised e ↦ (raised e, file)
    ]
  ]

-- The key `(-(rank or -1), subject)` of the listing: the strongest first, then by subject. A member
-- with no role has rank -1, so the ranks are counted from 1 here.
strength : Option Role → ℕ
strength none = 0
strength (some role) = suc (rank role)

unfoldable pub listed_before : Membership → Membership → Bool
unfolding strength
listed_before a b =
    if strength a.role == strength b.role
    then is_le (compare a.subject b.subject)
    else ltb (strength b.role) (strength a.role)

unfoldable pub hydrate_all : Members → Result Failure (List Membership)
hydrate_all [] = ok []
hydrate_all ((subject, row) ∷ rest) = elim (hydrate subject row) [
  | raised e ↦ raised e
  | ok member ↦ elim (hydrate_all rest) [ raised e ↦ raised e | ok members ↦ ok (member ∷ members) ]
]

-- `list`
unfoldable pub list_members : String → Exec Failure File (List Membership)
list_members tenant = do
  tenants ← read
  λ file. elim (hydrate_all (members_of tenant tenants)) [
    | ok members ↦ (ok (sorted listed_before members), file)
    | raised e ↦ (raised e, file)
  ]

abbrev pub new_row : ℕ → Row
new_row now = record {
  role = none;
  email = "";
  suspended = false;
  granted_by = "";
  created_at = now;
  updated_at = now;
  last_seen_at = none;
}

abbrev pub row_or_new : ℕ → Option Row → Row
row_or_new now none = new_row now
row_or_new now (some row) = row

-- the row that `upsert` stores
unfoldable pub granted_row : Role → String → String → ℕ → Row → Row
unfolding role_name
granted_row role email granted_by now row = record row {
  role = some (role_name role);
  updated_at = now;
  granted_by = granted_by;
  email = if email == "" then row.email else email;
}

-- `upsert`
unfoldable pub upsert : String → String → Role → String → String → ℕ → Exec Failure File Membership
upsert tenant subject role email granted_by now = do
  tenants ← read
  let members = members_of tenant tenants
  let row = granted_row role email granted_by now (row_or_new now (get subject members))
  write tenant (put subject row members) tenants
  λ file. (hydrate subject row, file)

-- `remove`
unfoldable pub remove_member : String → String → Exec Failure File Bool
remove_member tenant subject = do
  tenants ← read
  let members = members_of tenant tenants
  λ file. elim (get subject members) [
    | none ↦ (ok false, file)
    | some row ↦ (write tenant (remove subject members) tenants >> pure true) file
  ]

-- `set_suspended`
unfoldable pub store_suspended : String → String → Bool → ℕ → Exec Failure File (Option Membership)
store_suspended tenant subject suspended now = do
  tenants ← read
  let members = members_of tenant tenants
  λ file. elim (get subject members) [
    | none ↦ (ok none, file)
    | some row ↦
        let changed = record row { suspended = suspended; updated_at = now } in
        (write tenant (put subject changed members) tenants >> λ file'. (
          elim (hydrate subject changed) [ ok member ↦ ok (some member) | raised e ↦ raised e ],
          file',
        ))
          file
  ]

-- the row that `touch` stores
unfoldable pub seen_row : String → ℕ → Row → Row
seen_row email now row = record row {
  email = if email == "" then row.email else email;
  last_seen_at = some now;
}

-- `touch`
unfoldable pub touch : String → String → String → ℕ → Exec Failure File Unit
touch tenant subject email now = do
  tenants ← read
  let members = members_of tenant tenants
  let row = seen_row email now (row_or_new now (get subject members))
  write tenant (put subject row members) tenants

-- `member.role is Role.OWNER and not member.suspended`
abbrev pub active_owner : Membership → Bool
active_owner member = elim member.role [
  | none ↦ false
  | some role ↦ role == owner && not member.suspended
]

-- `count_owners`
unfoldable pub count_owners : String → Exec Failure File ℕ
count_owners tenant = do members ← list_members tenant; pure (count active_owner members)
