-- ===== src/Authz/Store/View.antt =====
-- The members of one tenant as the methods of the file store show them, for a file whose roles can
-- all be read.
use ai_kubernetes_troublesho.Prelude.{
  ◌≡◌, refl, ap, String, Bool, Option, none, some, List, [], ◌∷◌, arith, string_eq, count,
  Option-cases, inl, inr,
}
use ai_kubernetes_troublesho.Prelude.Dict.{get, tally}
use ai_kubernetes_troublesho.Prelude.Sort.{count-sorted}
use ai_kubernetes_troublesho.Prelude.Exec.{Result, ok, raised, ◌>>=◌}
use ai_kubernetes_troublesho.Authz.Models.{
  Role, viewer, operator, admin, owner, role_eq, parse, Membership,
}
use ai_kubernetes_troublesho.Authz.Store.{
  Failure, role_name, Row, Members, Tenants, readable, read, members_of, stored_role, membership_of,
  hydrate, fetch, listed_before, hydrate_all, list_members, active_owner, count_owners,
}

-- Every role name that the store writes is read back as the role.
pub stored_role-role_name : (role : Role) → stored_role (some (role_name role)) ≡ ok (some role)
unfolding stored_role role_name parse
stored_role-role_name viewer = refl
stored_role-role_name operator = refl
stored_role-role_name admin = refl
stored_role-role_name owner = refl

abbrev ok_or_none : Result Failure (Option Role) → Option Role
ok_or_none (ok role) = role
ok_or_none (raised e) = none

unfoldable pub role_of : Row → Option Role
role_of row = ok_or_none (stored_role row.role)

pub role_of_lem :
    (row : Row) (role : Option Role) → stored_role row.role ≡ ok role → role_of row ≡ role
unfolding role_of
role_of_lem row role h = ap ok_or_none h

-- The role of the row can be read.
abbrev pub RoleReads : Row → Type 0
RoleReads row = stored_role row.role ≡ ok (role_of row)

abbrev pub Reads : Members → Type 0
Reads [] = Unit
Reads ((subject, row) ∷ rest) = RoleReads row × Reads rest

abbrev pub member_of : String → Row → Membership
member_of subject row = membership_of subject row (role_of row)

abbrev pub member_at : String → Option Row → Option Membership
member_at subject none = none
member_at subject (some row) = some (member_of subject row)

-- the row of an owner who is not suspended
abbrev pub owner_row : Row → Bool
owner_row row = active_owner (member_of "" row)

pub hydrate_lem :
    (subject : String) (row : Row)
    → RoleReads row
    → hydrate subject row ≡ ok (member_of subject row)
unfolding hydrate
hydrate_lem subject row h = rw (h, hydrate)

pub Reads-get :
    (subject : String) (members : Members) (row : Row)
    → Reads members
    → get subject members ≡ some row
    → RoleReads row
unfolding get
Reads-get subject [] row h e = cc
Reads-get subject ((key, first) ∷ rest) row h e = ground (arith, Reads-get subject rest row h.1)

hydrate_all_lem :
    (members : Members)
    → Reads members
    → (list : List Membership) × (hydrate_all members ≡ ok list)
      × (count active_owner list ≡ tally owner_row members)
unfolding hydrate_all
hydrate_all_lem [] h = ([], refl, refl)
hydrate_all_lem ((subject, row) ∷ rest) h =
    let (list, e, n) = hydrate_all_lem rest h.1 in
    (
      member_of subject row ∷ list,
      ground (arith, hydrate_lem subject row h.0, e),
      ground (arith, n),
    )

module _ (tenant : String) (tenants : Tenants) (h : Reads (members_of tenant tenants)) where
  pub fetch_lem :
      (subject : String)
      → fetch tenant subject (readable tenants)
        ≡ (ok (member_at subject (get subject (members_of tenant tenants))), readable tenants)
  unfolding fetch read ◌>>=◌
  fetch_lem subject = elim (Option-cases (get subject (members_of tenant tenants))) [
    | inl e ↦ ground (arith, e)
    | inr (row, e) ↦
        ground (
          arith,
          e,
          hydrate_lem subject row (Reads-get subject (members_of tenant tenants) row h e),
        )
  ]

  pub count_owners_lem :
      count_owners tenant (readable tenants)
      ≡ (ok (tally owner_row (members_of tenant tenants)), readable tenants)
  unfolding count_owners list_members read ◌>>=◌
  count_owners_lem =
      let (list, e, n) = hydrate_all_lem (members_of tenant tenants) h in
      ground (arith, e, n, count-sorted listed_before active_owner list)
