-- ===== src/Authz/Routes.antt =====
-- backend/app/authz/routes.py: what each endpoint requires.
use ai_kubernetes_troublesho.Prelude.{
  ◌≡◌, ◌↔◌, String, Bool, true, ◌&&◌, Option, [], ◌∷◌, arith, Key, ◌==◌, string_eq, eq_iff,
  contains,
}
use ai_kubernetes_troublesho.Prelude.Text.{upper}
use ai_kubernetes_troublesho.Prelude.Dict.{Dict, get}
use ai_kubernetes_troublesho.Authz.Models.{
  Permission, permission_eq, investigation_read, investigation_run, cluster_read, cluster_enrol,
  member_read, member_manage,
}

-- a method and a path template
abbrev pub Route : Type 0
Route = String × String

pub route_test_iff : (a b : Route) → ((a.0 == b.0 && a.1 == b.1) ≡ true) ↔ (a ≡ b)
route_test_iff (a, m) (b, n) = ground (arith, eq_iff a b, eq_iff m n)

instance abbrev pub route_eq : Key Route
route_eq = record { test = λ a b. a.0 == b.0 && a.1 == b.1; test_iff = route_test_iff }

-- `AUTHENTICATED`, or a permission
pub data Need : Type 0 where
  authenticated : Need
  permission : Permission → Need

-- `ROUTE_PERMISSIONS`
unfoldable pub route_permissions : Dict Route Need
route_permissions =
    (("GET", "/me"), authenticated)
    ∷ (("POST", "/mcp"), authenticated)
    ∷ (("GET", "/clusters"), permission cluster_read)
    ∷ (("GET", "/agents"), permission cluster_read)
    ∷ (("GET", "/agents/ca"), permission cluster_read)
    ∷ (("POST", "/agents/enrolment"), permission cluster_enrol)
    ∷ (("POST", "/investigate"), permission investigation_run)
    ∷ (("POST", "/investigations"), permission investigation_run)
    ∷ (("POST", "/investigations/{investigation_id}/cancel"), permission investigation_run)
    ∷ (("POST", "/investigations/{investigation_id}/regenerate"), permission investigation_run)
    ∷ (("GET", "/investigations"), permission investigation_read)
    ∷ (("GET", "/investigation-jobs"), permission investigation_read)
    ∷ (("GET", "/investigations/{investigation_id}"), permission investigation_read)
    ∷ (("GET", "/investigations/{investigation_id}/status"), permission investigation_read)
    ∷ (("GET", "/investigations/{investigation_id}/events"), permission investigation_read)
    ∷ (("GET", "/investigations/{investigation_id}/report"), permission investigation_read)
    ∷ (("GET", "/investigations/{investigation_id}/pdf"), permission investigation_read)
    ∷ (("GET", "/investigations/{investigation_id}/json"), permission investigation_read)
    ∷ (("GET", "/investigations/{investigation_id}/markdown"), permission investigation_read)
    ∷ (("GET", "/members"), permission member_read)
    ∷ (("PUT", "/members/{subject}"), permission member_manage)
    ∷ (("DELETE", "/members/{subject}"), permission member_manage)
    ∷ (("POST", "/members/{subject}/suspend"), permission member_manage)
    ∷ (("DELETE", "/members/{subject}/suspend"), permission member_manage)
    ∷ []

-- `COSTED_PERMISSIONS` and `is_costed`
unfoldable pub is_costed : Permission → Bool
is_costed needed = contains needed (investigation_run ∷ [])

-- `required_permission`: `none` is a route that is not in the table
unfoldable pub required_permission : String → String → Option Need
unfolding route_permissions
required_permission method path = get (upper method, path) route_permissions
