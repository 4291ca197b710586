-- ===== src/Authz/Service/Keeps.antt =====
-- The writes of the store on a tenant that has an owner, and keeps one.
use ai_kubernetes_troublesho.Prelude.{
  ℕ, ◌≡◌, ◌⊎◌, String, Bool, false, arith, string_eq, inl, inr, Option-cases,
}
use ai_kubernetes_troublesho.Prelude.Dict.{get, put}
use ai_kubernetes_troublesho.Prelude.Exec.{◌>>=◌, Ends}
use ai_kubernetes_troublesho.Authz.Models.{Role, owner, role_eq}
use ai_kubernetes_troublesho.Authz.Store.{
  Members, Tenants, readable, read, members_of, write, row_or_new, granted_row, upsert,
  remove_member, store_suspended,
}
use ai_kubernetes_troublesho.Authz.Store.View.{role_of, Reads-get}
use ai_kubernetes_troublesho.Authz.Service.Governed.{
  IsGoverned, IsGovernedFile, Spare, put-IsGoverned, remove-IsGoverned, members_of-put,
  granted_row-RoleReads, granted_owner,
}

module _ (tenant : String) (tenants : Tenants) (g : IsGoverned (members_of tenant tenants)) where
  governed_by_put :
      {members : Members}
      → IsGoverned members
      → IsGovernedFile tenant (readable (put tenant members tenants))
  governed_by_put h = rw members_of-put h

  pub upsert-IsGoverned :
      (subject : String) (role : Role) (email granted_by : String) (now : ℕ)
      → (role ≡ owner) ⊎ Spare subject (members_of tenant tenants)
      → Ends
          (IsGovernedFile tenant)
          (upsert tenant subject role email granted_by now)
          (readable tenants)
  unfolding upsert read write ◌>>=◌
  upsert-IsGoverned subject role email granted_by now why =
      let old = get subject (members_of tenant tenants) in
      let row = granted_row role email granted_by now (row_or_new now old) in
      record {
        holds = governed_by_put (
            put-IsGoverned subject row (members_of tenant tenants) g
              (granted_row-RoleReads role email granted_by now old)
              (elim why [
                | inl e ↦ inr (inr (granted_owner role email granted_by now old e))
                | inr spare ↦ inr (inl spare)
              ]));
      }

  pub remove_member-IsGoverned :
      (subject : String)
      → Spare subject (members_of tenant tenants)
      → Ends (IsGovernedFile tenant) (remove_member tenant subject) (readable tenants)
  unfolding remove_member read write ◌>>=◌
  remove_member-IsGoverned subject spare =
      elim (Option-cases (get subject (members_of tenant tenants))) [
        | inl e ↦ record { holds = rw (e, IsGovernedFile) g }
        | inr (row, e) ↦ record {
          holds =
              rw (e, IsGovernedFile)
                (governed_by_put (remove-IsGoverned subject (members_of tenant tenants) g spare));
        }
      ]

  pub store_suspended-IsGoverned :
      (subject : String) (suspended : Bool) (now : ℕ)
      → (suspended ≡ false) ⊎ Spare subject (members_of tenant tenants)
      → Ends
          (IsGovernedFile tenant)
          (store_suspended tenant subject suspended now)
          (readable tenants)
  unfolding store_suspended read write role_of ◌>>=◌
  store_suspended-IsGoverned subject suspended now why =
      elim (Option-cases (get subject (members_of tenant tenants))) [
        | inl e ↦ record { holds = rw (e, IsGovernedFile) g }
        | inr (row, e) ↦ record {
          holds =
              rw (e, IsGovernedFile)
                (governed_by_put (
                  put-IsGoverned subject (record row { suspended = suspended; updated_at = now })
                    (members_of tenant tenants) g
                    (Reads-get subject (members_of tenant tenants) row g.reads e)
                    (elim why [
                      | inl back ↦ inr (inr (rw e (ground (arith, back))))
                      | inr spare ↦ inr (inl spare)
                    ])));
        }
      ]
