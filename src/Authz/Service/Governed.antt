-- ===== src/Authz/Service/Governed.antt =====
-- The members of a tenant that has an owner, under the updates of the store.
use ai_kubernetes_troublesho.Prelude.{
  ℕ, ◌+◌, ◌≤◌, ◌≡◌, ◌⊎◌, ap, sym, ◌∙◌, String, true, Option, some, [], ◌∷◌, arith, string_eq,
}
use ai_kubernetes_troublesho.Prelude.Dict.{
  get, put, remove, tally, hits, Unique, get-put_self, put-Unique, remove-Unique, tally-put,
  tally-remove,
}
use ai_kubernetes_troublesho.Prelude.Exec.{ok}
use ai_kubernetes_troublesho.Authz.Models.{Role, owner, role_eq}
use ai_kubernetes_troublesho.Authz.Store.{
  Row, Members, Tenants, File, missing, unreadable, readable, members_of, row_or_new, granted_row,
}
use ai_kubernetes_troublesho.Authz.Store.View.{
  role_of, role_of_lem, RoleReads, Reads, owner_row, stored_role-role_name,
}

pub record IsGoverned (members : Members) : Type 0 where
  pub unique : Unique members
  pub reads : Reads members
  pub owned : 1 ≤ tally owner_row members

pub Reads-put :
    (subject : String) (row : Row) (members : Members)
    → RoleReads row
    → Reads members
    → Reads (put subject row members)
unfolding put
Reads-put subject row [] r h = (r, tt)
Reads-put subject row ((key, first) ∷ rest) r h = ground (arith, Reads-put subject row rest r h.1)

pub Reads-remove :
    (subject : String) (members : Members) → Reads members → Reads (remove subject members)
unfolding remove
Reads-remove subject [] h = tt
Reads-remove subject ((key, first) ∷ rest) h = ground (arith, Reads-remove subject rest h.1)

-- Without the row of `subject` there still is an owner.
abbrev pub Spare : String → Members → Type 0
Spare subject members = hits owner_row (get subject members) + 1 ≤ tally owner_row members

pub put-IsGoverned :
    (subject : String) (row : Row) (members : Members)
    → IsGoverned members
    → RoleReads row
    → (owner_row row ≡ true)
      ⊎ Spare subject members
      ⊎ (hits owner_row (get subject members) ≤ hits owner_row (some row))
    → IsGoverned (put subject row members)
put-IsGoverned subject row members g r h = record {
  unique = put-Unique subject row members g.unique;
  reads = Reads-put subject row members r g.reads;
  owned = ground (arith, tally-put owner_row subject row members, g.owned);
}

pub remove-IsGoverned :
    (subject : String) (members : Members)
    → IsGoverned members
    → Spare subject members
    → IsGoverned (remove subject members)
remove-IsGoverned subject members g h = record {
  unique = remove-Unique subject members g.unique;
  reads = Reads-remove subject members g.reads;
  owned = omega (arith, tally-remove owner_row subject members g.unique);
}

pub members_of-put :
    (tenant : String) (members : Members) (tenants : Tenants)
    → members_of tenant (put tenant members tenants) ≡ members
unfolding members_of
members_of-put tenant members tenants = ground (arith, get-put_self tenant members tenants)

abbrev pub IsGovernedFile : String → File → Type 0
IsGovernedFile tenant missing = ⊥
IsGovernedFile tenant unreadable = ⊥
IsGovernedFile tenant (readable tenants) = IsGoverned (members_of tenant tenants)

-- A grant of a role that is read back; a grant of `owner` takes no owner away.
module _ (role : Role) (email granted_by : String) (now : ℕ) (old : Option Row) where
  abbrev pub granted : Row
  granted = granted_row role email granted_by now (row_or_new now old)

  pub role_of-granted_row : role_of granted ≡ some role
  unfolding granted_row
  role_of-granted_row = role_of_lem granted (some role) (stored_role-role_name role)

  pub granted_row-RoleReads : RoleReads granted
  unfolding granted_row
  granted_row-RoleReads = stored_role-role_name role ∙ ap ok (sym role_of-granted_row)

  pub granted_owner : role ≡ owner → hits owner_row old ≤ hits owner_row (some granted)
  unfolding granted_row
  granted_owner e = ground (arith, role_of-granted_row)
