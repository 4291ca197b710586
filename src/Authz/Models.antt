-- ===== src/Authz/Models.antt =====
-- backend/app/authz/models.py: permissions, roles, memberships and grants. A time is a number of
-- seconds; the stored form of a membership keeps the same fields.
pub mod Ranks
use ai_kubernetes_troublesho.Prelude.{
  ℕ, ◌≡◌, String, Bool, true, false, Option, none, some, List, [], ◌∷◌, ◌++◌, arith, ltb, Key, ◌==◌,
  string_eq, nat_test, by_index, contains, is_some, if◌then◌else◌,
}
use ai_kubernetes_troublesho.Prelude.Text.{strip, lower}

pub data Permission : Type 0 where
  investigation_read investigation_read_all investigation_run : Permission
  cluster_read cluster_enrol cluster_revoke : Permission
  member_read member_manage member_manage_owner : Permission

abbrev pub permission_index : Permission → ℕ
permission_index investigation_read = 0
permission_index investigation_read_all = 1
permission_index investigation_run = 2
permission_index cluster_read = 3
permission_index cluster_enrol = 4
permission_index cluster_revoke = 5
permission_index member_read = 6
permission_index member_manage = 7
permission_index member_manage_owner = 8

pub permission_index_injective :
    (a b : Permission) → permission_index a ≡ permission_index b → a ≡ b
permission_index_injective a b h = ground arith

instance abbrev pub permission_eq : Key Permission
permission_eq = record {
  test = λ a b. nat_test (permission_index a) (permission_index b);
  test_iff = by_index permission_index permission_index_injective;
}

pub data Role : Type 0 where
  viewer operator admin owner : Role

-- `_RANKS`
abbrev pub rank : Role → ℕ
rank viewer = 0
rank operator = 1
rank admin = 2
rank owner = 3

pub rank_injective : (a b : Role) → rank a ≡ rank b → a ≡ b
rank_injective a b h = ground arith

instance abbrev pub role_eq : Key Role
role_eq = record {
  test = λ a b. nat_test (rank a) (rank b);
  test_iff = by_index rank rank_injective;
}

abbrev viewer_permissions : List Permission
viewer_permissions = investigation_read ∷ cluster_read ∷ []

abbrev operator_permissions : List Permission
operator_permissions = viewer_permissions ++ investigation_run ∷ []

abbrev admin_permissions : List Permission
admin_permissions =
    operator_permissions ++ cluster_enrol ∷ cluster_revoke ∷ member_read ∷ member_manage ∷ []

abbrev owner_permissions : List Permission
owner_permissions = admin_permissions ++ member_manage_owner ∷ investigation_read_all ∷ []

abbrev pub role_permissions : Role → List Permission
role_permissions viewer = viewer_permissions
role_permissions operator = operator_permissions
role_permissions admin = admin_permissions
role_permissions owner = owner_permissions

-- `Role.permits`
unfoldable pub permits : Role → Permission → Bool
permits role permission = contains permission (role_permissions role)

-- `Role.parse`; `none` stands for `AuthorizationModelError`
unfoldable pub parse : String → Option Role
unfolding strip lower
parse value =
    let name = lower (strip value) in
    if name == "viewer"
    then some viewer
    else if name == "operator"
    then some operator
    else if name == "admin"
    then some admin
    else if name == "owner"
    then some owner
    else none

-- `max(present, key=lambda role: role.rank)`: the first of the strongest
abbrev pub max_role : Role → List (Option Role) → Role
max_role best [] = best
max_role best (none ∷ rest) = max_role best rest
max_role best (some role ∷ rest) =
    max_role (if ltb (rank best) (rank role) then role else best) rest

unfoldable pub highest : List (Option Role) → Option Role
highest [] = none
highest (none ∷ rest) = highest rest
highest (some role ∷ rest) = some (max_role role rest)

pub record Membership : Type 0 where
  pub subject : String
  pub role : Option Role
  pub email : String
  pub suspended : Bool
  pub granted_by : String
  pub created_at : ℕ
  pub updated_at : ℕ
  pub last_seen_at : Option ℕ

-- `Membership.assigned`
abbrev pub assigned : Membership → Bool
assigned member = is_some member.role

pub record Grant : Type 0 where
  pub role : Option Role
  pub source : String

unfoldable pub grant_permissions : Grant → List Permission
grant_permissions grant = elim grant.role [ none ↦ [] | some role ↦ role_permissions role ]

-- `Grant.permits`
unfoldable pub grant_permits : Grant → Permission → Bool
unfolding permits
grant_permits grant permission = elim grant.role [
  | none ↦ false
  | some role ↦ permits role permission
]

abbrev pub denied : Grant
denied = record { role = none; source = "none" }

abbrev pub suspended_grant : Grant
suspended_grant = record { role = none; source = "suspended" }
