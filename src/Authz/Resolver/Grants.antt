-- ===== src/Authz/Resolver/Grants.antt =====
-- What a resolved caller may do.
use ai_kubernetes_troublesho.Prelude.{
  string_eq, ◌≡◌, refl, sym, ap, ◌∙◌, String, Bool, true, false, some, inl, inr, Bool-cases, ◌||◌,
  Option, List, [], ◌∷◌, arith, any, map, if◌then◌else◌, is_some,
}
use ai_kubernetes_troublesho.Prelude.Dict.{get}
use ai_kubernetes_troublesho.Prelude.Exec.{ok, bind-ok}
use ai_kubernetes_troublesho.Authz.Store.{File, fetch}
use ai_kubernetes_troublesho.Authz.Models.{
  Permission, Role, highest, Membership, Grant, owner, grant_permits,
}
use ai_kubernetes_troublesho.Authz.Models.Ranks.{
  role_permits, role_permits-highest, is_some-highest,
}
use ai_kubernetes_troublesho.Authz.Resolver.{
  Principal, Resolver, grant_of, resolve, role_from_groups, is_suspended, binding_of,
}

-- the roles that the groups of a caller map to
abbrev pub group_roles : Resolver → Principal → List (Option Role)
group_roles resolver principal = map (λ group. get group resolver.mappings) principal.groups

-- What a caller may do by their groups, their binding and the fallback.
abbrev pub permitted : Resolver → Principal → Option Membership → Permission → Bool
permitted resolver principal membership p =
    if is_suspended membership
    then false
    else if any is_some (group_roles resolver principal) || is_some (binding_of membership)
    then any (role_permits p) (group_roles resolver principal)
      || role_permits p (binding_of membership)
    else role_permits p resolver.fallback

grant_permits-grant_of :
    (resolver : Resolver) (principal : Principal) (membership : Option Membership) (p : Permission)
    → grant_permits (grant_of resolver principal membership) p
      ≡ permitted resolver principal membership p
unfolding grant_of grant_permits role_from_groups
grant_permits-grant_of resolver principal membership p =
    let groups = group_roles resolver principal in
    let both = highest groups ∷ binding_of membership ∷ [] in
    ground (
      arith,
      role_permits-highest p groups,
      is_some-highest groups,
      role_permits-highest p both,
      is_some-highest both,
    )

resolve-open :
    (resolver : Resolver) (tenant : String) (principal : Principal) (file : File)
    → resolver.open_deployment ≡ true
    → resolve resolver tenant principal file
      ≡ (ok (record { role = some owner; source = "open-deployment" }), file)
unfolding resolve
resolve-open resolver tenant principal file e = rw e refl

resolve-closed :
    (resolver : Resolver) (tenant : String) (principal : Principal) (file : File)
    (membership : Option Membership)
    → fetch tenant principal.subject file ≡ (ok membership, file)
    → resolver.open_deployment ≡ false
    → resolve resolver tenant principal file ≡ (ok (grant_of resolver principal membership), file)
unfolding resolve
resolve-closed resolver tenant principal file membership found e =
    rw e (bind-ok _ _ _ _ membership found)

-- What a caller may do where the deployment is open, and where it is not.
abbrev pub allowed : Resolver → Principal → Option Membership → Permission → Bool
allowed resolver principal membership p =
    if resolver.open_deployment
    then role_permits p (some owner)
    else permitted resolver principal membership p

-- Where the caller's membership can be read, `resolve` answers with a grant and leaves the file as
-- it is. In an open deployment the grant permits what an owner may do, to a suspended caller too.
-- In any other, it permits a suspended caller nothing, and another caller what one of the roles of
-- their groups or their binding permits, or, where they hold no such role, what the fallback
-- permits.
pub grant_permits-resolve :
    (resolver : Resolver) (tenant : String) (principal : Principal) (file : File)
    (membership : Option Membership)
    → fetch tenant principal.subject file ≡ (ok membership, file)
    → (grant : Grant) × (resolve resolver tenant principal file ≡ (ok grant, file))
      × ((p : Permission) → grant_permits grant p ≡ allowed resolver principal membership p)
unfolding grant_permits
grant_permits-resolve resolver tenant principal file membership found =
    elim (Bool-cases resolver.open_deployment) [
      | inl e ↦ (
        record { role = some owner; source = "open-deployment" },
        resolve-open resolver tenant principal file e,
        λ p. sym (
            ap
              (λ is_open.
                if is_open
                then role_permits p (some owner)
                else permitted resolver principal membership p)
              e),
      )
      | inr e ↦ (
        grant_of resolver principal membership,
        resolve-closed resolver tenant principal file membership found e,
        λ p.
            grant_permits-grant_of resolver principal membership p
            ∙ sym (
                ap
                  (λ is_open.
                    if is_open
                    then role_permits p (some owner)
                    else permitted resolver principal membership p)
                  e),
      )
    ]
