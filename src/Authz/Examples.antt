-- ===== src/Authz/Examples.antt =====
-- The theorems on authorisation at concrete inputs, and tests of the definitions.
use ai_kubernetes_troublesho.Prelude.{
  ℕ, ◌≤◌, ◌≡◌, ◌≢◌, refl, String, Bool, true, false, Option, none, some, List, [], ◌∷◌, arith,
  is_some, string_eq, inr, if◌then◌else◌,
}
use ai_kubernetes_troublesho.Prelude.Dict.{get, put, remove}
use ai_kubernetes_troublesho.Prelude.Text.{strip, upper}
use ai_kubernetes_troublesho.Prelude.Sort.{sorted}
use ai_kubernetes_troublesho.Prelude.Exec.{ok, raised, ◌>>=◌, when, unless, raise_if}
use ai_kubernetes_troublesho.RateLimit.{evaluate, evaluate_tenant, hit, remaining_of}
use ai_kubernetes_troublesho.RateLimit.Window.{fresh}
use ai_kubernetes_troublesho.Authz.Models.{
  Permission, Grant, cluster_read, viewer, operator, admin, owner, permits, Membership,
  grant_permits, parse, highest,
}
use ai_kubernetes_troublesho.Authz.Store.{
  unreadable_store, Row, Members, File, unreadable, readable, fetch, count_owners, members_of, read,
  stored_role, hydrate, remove_member, hydrate_all, list_members, listed_before, upsert, touch,
  write, granted_row,
}
use ai_kubernetes_troublesho.Authz.Store.View.{role_of}
use ai_kubernetes_troublesho.Authz.Service.{
  assign_role, remove_role, set_suspended, held_role, refuse_escalation, refuse_last_owner,
  refuse_last, refuse_stronger,
}
use ai_kubernetes_troublesho.Authz.Service.Governed.{IsGovernedFile}
use ai_kubernetes_troublesho.Authz.Service.Floor.{
  Turn, writes, assign, remove as remove_turn, suspend, run, run-keeps_owner,
}
use ai_kubernetes_troublesho.Authz.Service.Overlap.{Gaps, sight, promote, restore}
use ai_kubernetes_troublesho.Authz.Service.Escalation.{
  Outranks, OutranksHeld, assign_role-Outranks, removal-OutranksHeld,
}
use ai_kubernetes_troublesho.Authz.Service.Effect.{assign_role_effect}
use ai_kubernetes_troublesho.Authz.Routes.{Need, required_permission, is_costed}
use ai_kubernetes_troublesho.Authz.Resolver.{
  Principal, Resolver, grant_of, resolve, note_seen, Settings, resolver_of, default_role,
  role_from_groups, parse_role_mappings,
}
use ai_kubernetes_troublesho.Authz.Resolver.Grants.{allowed, grant_permits-resolve}
use ai_kubernetes_troublesho.Authz.Gate.{
  Platform, Limits, Moment, Verdict, admitted, refused, require_permission, check_grant,
}
use ai_kubernetes_troublesho.Authz.Gate.Soundness.{
  Granted, admitted-Granted, counted-Costed, fails_closed, suspended_refused, Costed,
}

abbrev row_with : Option String → Bool → Row
row_with role suspended = record {
  role = role;
  email = "";
  suspended = suspended;
  granted_by = "";
  created_at = 1;
  updated_at = 1;
  last_seen_at = none;
}

-- two owners and a suspended operator
abbrev members : Members
members =
    ("ann", row_with (some "owner") false)
    ∷ ("bob", row_with (some "owner") false)
    ∷ ("eve", row_with (some "operator") true)
    ∷ []

abbrev file : File
file = readable (("acme", members) ∷ [])

file-IsGoverned : IsGovernedFile "acme" file
unfolding members_of get role_of stored_role parse
file-IsGoverned = record {
  unique = (refl, (refl, (refl, tt)));
  reads = (refl, (refl, (refl, tt)));
  owned = omega arith;
}

abbrev alone : Gaps
alone = record { after_read = []; in_check = []; before_write = [] }

-- what others write meanwhile: a sighting, a grant of `owner`, and a restoration
abbrev busy : Gaps
busy = record {
  after_read = sight "dan" "dan@acme" 5 ∷ [];
  in_check = promote "fay" "bob" "" 6 ∷ [];
  before_write = restore "eve" 7 ∷ [];
}

-- An admin demotes one owner, while another is made; then every owner is removed, suspended or
-- demoted from the shell.
abbrev turns : List Turn
turns =
    assign busy "ann" viewer (some admin) "eve" "" true 8
    ∷ writes (sight "ann" "" 9)
    ∷ remove_turn alone "bob" none false
    ∷ suspend alone "fay" true none false 10
    ∷ assign alone "fay" admin none "" "" false 11
    ∷ []

run-keeps_owner_example :
    (n : ℕ) × (count_owners "acme" (run "acme" turns file) ≡ (ok n, run "acme" turns file))
    × (1 ≤ n)
run-keeps_owner_example = run-keeps_owner "acme" turns file file-IsGoverned

-- The removal of `bob` is at its write, past its checks, when that of `ann` begins: none of the two
-- owners is left.
both_removed :
    ((remove_role "acme" "bob" none false file).0 ≡ ok true)
    × ((count_owners "acme"
          (remove_member "acme" "bob" (remove_role "acme" "ann" none false file).1).1).0
        ≡ ok 0)
unfolding remove_role refuse_stronger refuse_last_owner refuse_last remove_member fetch read write
    members_of get put remove hydrate hydrate_all list_members stored_role parse when raise_if
    count_owners sorted listed_before ◌>>=◌
both_removed = (refl, refl)

assigned_is_changed : (assign_role "acme" "dan" operator (some admin) "ann" "" true 9 file).1 ≢ file
unfolding assign_role refuse_escalation refuse_last_owner refuse_last upsert fetch read write
    members_of get put hydrate stored_role parse when unless raise_if granted_row strip ◌>>=◌
assigned_is_changed = λ e. cc e

assign_role-Outranks_example : Outranks (some admin) operator
assign_role-Outranks_example =
    assign_role-Outranks "acme" (some admin) file "dan" operator "ann" "" 9 assigned_is_changed

-- what the removal of `bob` finds
abbrev bob : Membership
bob = record {
  subject = "bob";
  role = some owner;
  email = "";
  suspended = false;
  granted_by = "";
  created_at = 1;
  updated_at = 1;
  last_seen_at = none;
}

bob_found : fetch "acme" "bob" file ≡ (ok (some bob), file)
unfolding fetch read members_of get hydrate stored_role parse ◌>>=◌
bob_found = refl

removal-OutranksHeld_example :
    ((remove_role "acme" "bob" (some owner) true file).1 ≢ file
      → OutranksHeld (some owner) (held_role (some bob)))
    × ((suspended : Bool) (now : ℕ)
        → (set_suspended "acme" "bob" suspended (some owner) true now file).1 ≢ file
        → OutranksHeld (some owner) (held_role (some bob)))
removal-OutranksHeld_example =
    removal-OutranksHeld "acme" (some owner) file "bob" (some bob) bob_found

-- An admin takes the role of owner from `bob`, who outranks them.
assign_role_effect_example :
    let (result, file') = assign_role "acme" " bob " viewer (some admin) "eve" "" true 9 file in
    (member : Membership) × (member.role ≡ some viewer)
    × (result ≡ ok member)
    × (fetch "acme" "bob" file' ≡ (ok (some member), file'))
unfolding members_of get role_of stored_role parse strip
assign_role_effect_example =
    assign_role_effect "acme" (("acme", members) ∷ []) (refl, (refl, (refl, tt))) " bob " viewer
      (some admin) "eve" "" 9 refl (omega arith) (omega arith)

-- The settings of a deployment, and what the resolver makes of them.
abbrev settings : Settings
settings = record {
  auth_mode = "oidc";
  rbac_default_role = " Viewer ";
  oidc_role_mappings = "sre=operator, acme-admins = Admin,";
}

abbrev resolver : Resolver
resolver = record {
  mappings = ("sre", operator) ∷ ("acme-admins", admin) ∷ [];
  fallback = some viewer;
  open_deployment = false;
}

settings_resolve : resolver_of settings ≡ some resolver
unfolding resolver_of parse_role_mappings default_role put
settings_resolve = refl

abbrev caller : String → List String → Principal
caller subject groups = record {
  subject = subject;
  groups = groups;
  email = "";
  auth_method = "oidc";
  tenant = "acme";
}

dan_found : fetch "acme" "dan" file ≡ (ok none, file)
unfolding fetch read members_of get ◌>>=◌
dan_found = refl

grant_permits-resolve_example :
    (grant : Grant) × (resolve resolver "acme" (caller "dan" ("staff" ∷ "sre" ∷ [])) file
      ≡ (ok grant, file))
    × ((p : Permission)
        → grant_permits grant p ≡ allowed resolver (caller "dan" ("staff" ∷ "sre" ∷ [])) none p)
grant_permits-resolve_example =
    grant_permits-resolve resolver "acme" (caller "dan" ("staff" ∷ "sre" ∷ [])) file none dan_found

abbrev platform : Platform
platform = record { file = file; sightings = []; limiter = fresh 60 }

abbrev limits : Limits
limits = record { per_subject = 2; per_tenant = 5 }

abbrev at : Moment
at = record { wall = 61000; monotonic = 400000; stamp = 61 }

abbrev request : Principal → String → String → Verdict × Platform
request principal method path =
    require_permission resolver "acme" principal limits at method path platform

dan_admitted : (request (caller "dan" ("sre" ∷ [])) "post" "/investigate").0 ≡ admitted
unfolding require_permission required_permission resolve fetch read members_of get note_seen touch
    write put grant_of check_grant grant_permits permits evaluate evaluate_tenant hit remaining_of
    highest role_from_groups is_costed upper ◌>>=◌
dan_admitted = refl

admitted-Granted_example :
    (need : Need) × (required_permission "post" "/investigate" ≡ some need)
    × Granted resolver "acme"
        (caller "dan" ("sre" ∷ []))
        limits
        at
        need
        (resolve resolver "acme" (caller "dan" ("sre" ∷ [])) file).0
admitted-Granted_example =
    admitted-Granted resolver "acme" (caller "dan" ("sre" ∷ [])) limits at "post" "/investigate"
      platform dan_admitted

dan_counted :
    (request (caller "dan" ("sre" ∷ [])) "POST" "/investigate").1.limiter ≢ platform.limiter
unfolding require_permission required_permission resolve fetch read members_of get note_seen touch
    write put grant_of check_grant grant_permits permits evaluate evaluate_tenant hit remaining_of
    highest role_from_groups is_costed upper ◌>>=◌
dan_counted = λ e. cc e

counted-Costed_example :
    (need : Need) × (required_permission "POST" "/investigate" ≡ some need)
    × Costed resolver "acme"
        (caller "dan" ("sre" ∷ []))
        limits
        at
        need
        (resolve resolver "acme" (caller "dan" ("sre" ∷ [])) file).0
counted-Costed_example =
    counted-Costed resolver "acme" (caller "dan" ("sre" ∷ [])) limits at "POST" "/investigate"
      platform dan_counted

abbrev broken : Platform
broken = record { file = unreadable; sightings = []; limiter = fresh 60 }

dan_is_unresolved :
    (resolve resolver "acme" (caller "dan" []) broken.file).0 ≡ raised unreadable_store
unfolding resolve fetch read ◌>>=◌
dan_is_unresolved = refl

fails_closed_example :
    require_permission resolver "acme" (caller "dan" []) limits at "GET" "/agents" broken
    ≡ (refused (if is_some (required_permission "GET" "/agents") then 503 else 403), broken)
fails_closed_example =
    fails_closed resolver "acme" (caller "dan" []) limits at "GET" "/agents" broken
      (inr (unreadable_store, dan_is_unresolved))

agents_are_mapped : is_some (required_permission "GET" "/agents") ≡ true
unfolding required_permission get upper
agents_are_mapped = refl

abbrev eve : Membership
eve = record {
  subject = "eve";
  role = some operator;
  email = "";
  suspended = true;
  granted_by = "";
  created_at = 1;
  updated_at = 1;
  last_seen_at = none;
}

suspended_refused_example :
    (request (caller "eve" ("acme-admins" ∷ [])) "GET" "/agents").0 ≡ refused 403
unfolding required_permission fetch read members_of get hydrate stored_role parse upper ◌>>=◌
suspended_refused_example =
    suspended_refused resolver "acme" (caller "eve" ("acme-admins" ∷ [])) limits at "GET" "/agents"
      platform eve cluster_read refl refl refl refl
