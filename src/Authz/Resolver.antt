-- ===== src/Authz/Resolver.antt =====
-- backend/app/authz/resolver.py: turning an authenticated caller into a role. A reading of the
-- monotonic clock is a number of milliseconds.
pub mod Grants
use ai_kubernetes_troublesho.Prelude.{
  ℕ, ◌-◌, String, Bool, true, false, ◌&&◌, ◌||◌, not, Option, none, some, List, [], ◌∷◌, ltb, ◌==◌,
  string_eq, length, map, is_some, if◌then◌else◌, nat_eq,
}
use ai_kubernetes_troublesho.Prelude.Text.{strip, lower, split, partition}
use ai_kubernetes_troublesho.Prelude.Dict.{Dict, get, put}
use ai_kubernetes_troublesho.Prelude.Exec.{Result, ok, raised, Exec, pure, ◌>>=◌}
use ai_kubernetes_troublesho.Authz.Models.{
  Role, owner, parse, highest, Membership, Grant, denied, suspended_grant,
}
use ai_kubernetes_troublesho.Authz.Routes.{Route, route_eq}
use ai_kubernetes_troublesho.Authz.Store.{Failure, File, fetch, touch}

-- backend/app/auth/models.py: `Principal`
pub record Principal : Type 0 where
  pub subject : String
  pub groups : List String
  pub email : String
  pub auth_method : String
  pub tenant : String

abbrev pub anonymous : Principal → Bool
anonymous principal = principal.subject == "anonymous"

-- the settings that the resolver reads
pub record Settings : Type 0 where
  pub auth_mode : String
  pub rbac_default_role : String
  pub oidc_role_mappings : String

-- one entry of `parse_role_mappings`; `none` stands for `AuthorizationModelError`
unfoldable pub add_mapping : String → Dict String Role → Option (Dict String Role)
add_mapping raw mappings =
    let entry = strip raw in
    if entry == ""
    then some mappings
    else (let (group, separator, role) = partition b'=' entry in
        if not separator || strip group == "" || strip role == "" then none else elim (parse role) [
          | none ↦ none
          | some found ↦ some (put (strip group) found mappings)
        ])

unfoldable pub add_mappings : List String → Dict String Role → Option (Dict String Role)
unfolding add_mapping
add_mappings [] mappings = some mappings
add_mappings (entry ∷ rest) mappings = elim (add_mapping entry mappings) [
  | none ↦ none
  | some more ↦ add_mappings rest more
]

-- `parse_role_mappings`
unfoldable pub parse_role_mappings : String → Option (Dict String Role)
unfolding add_mappings split strip partition parse
parse_role_mappings raw = add_mappings (split b',' raw) []

-- `role_from_groups`
unfoldable pub role_from_groups : List String → Dict String Role → Option Role
role_from_groups groups mappings = highest (map (λ group. get group mappings) groups)

-- `default_role`: the outer `none` is `AuthorizationModelError`, the inner one a denial
unfoldable pub default_role : Settings → Option (Option Role)
default_role settings =
    let raw = lower (strip settings.rbac_default_role) in
    if raw == "" || raw == "none"
    then some none
    else elim (parse raw) [ none ↦ none | some role ↦ some (some role) ]

-- `RoleResolver`
pub record Resolver : Type 0 where
  pub mappings : Dict String Role
  pub fallback : Option Role
  pub open_deployment : Bool

-- `RoleResolver.__init__` from the settings alone
unfoldable pub resolver_of : Settings → Option Resolver
resolver_of settings = elim (parse_role_mappings settings.oidc_role_mappings) [
  | none ↦ none
  | some mappings ↦ elim (default_role settings) [
    | none ↦ none
    | some fallback ↦ some (record {
      mappings = mappings;
      fallback = fallback;
      open_deployment = lower (strip settings.auth_mode) == "disabled";
    })
  ]
]

abbrev pub is_suspended : Option Membership → Bool
is_suspended none = false
is_suspended (some member) = member.suspended

abbrev pub binding_of : Option Membership → Option Role
binding_of none = none
binding_of (some member) = member.role

-- Where a combined grant came from. `granted` is one of the two roles, so a role that stands alone
-- is the one that was granted.
unfoldable pub source_of : Option Role → Option Role → String
source_of from_groups from_binding =
    if is_some from_binding && not (is_some from_groups)
    then "assigned"
    else if is_some from_groups && not (is_some from_binding)
    then "group"
    else "assigned+group"

unfoldable pub or_default : Option Role → Grant
or_default none = denied
or_default (some role) = record { role = some role; source = "default" }

-- The grants of a caller who is not suspended, combined.
unfoldable pub combine : Option Role → Option Role → Option Role → Grant
unfolding source_of or_default
combine from_groups from_binding fallback = elim (highest (from_groups ∷ from_binding ∷ [])) [
  | some granted ↦ record { role = some granted; source = source_of from_groups from_binding }
  | none ↦ or_default fallback
]

-- `resolve` after the membership was read
unfoldable pub grant_of : Resolver → Principal → Option Membership → Grant
unfolding combine
grant_of resolver principal membership =
    if is_suspended membership
    then suspended_grant
    else combine (role_from_groups principal.groups resolver.mappings) (binding_of membership)
        resolver.fallback

-- `resolve`
unfoldable pub resolve : Resolver → String → Principal → Exec Failure File Grant
resolve resolver tenant principal file =
    if resolver.open_deployment
    then (ok (record { role = some owner; source = "open-deployment" }), file)
    else (do
      membership ← fetch tenant principal.subject
      pure (grant_of resolver principal membership))
        file

-- `_SIGHTINGS`, by tenant and subject
abbrev pub Sightings : Type 0
Sightings = Dict Route ℕ

abbrev pub sighting_interval : ℕ
sighting_interval = 300000

abbrev pub sighting_limit : ℕ
sighting_limit = 10000

abbrev pub seen_at : Option ℕ → ℕ
seen_at none = 0
seen_at (some at) = at

-- `note_seen`: an exception of the store is logged and dropped, so the file is what `touch` left
unfoldable pub note_seen :
    Resolver → String → Principal → ℕ → ℕ → Sightings → File → Sightings × File
note_seen resolver tenant principal monotonic now sightings file =
    if anonymous principal || resolver.open_deployment
    then (sightings, file)
    else if ltb (monotonic - seen_at (get (tenant, principal.subject) sightings)) sighting_interval
    then (sightings, file)
    else (let kept = if ltb sighting_limit (length sightings) then [] else sightings in
        (
          put (tenant, principal.subject) monotonic kept,
          (touch tenant principal.subject principal.email now file).1,
        ))
