-- ===== src/Authz/Service/Amid.antt =====
-- The steps of a service call where others write meanwhile.
use std.Path.{subst}
use ai_kubernetes_troublesho.Prelude.{
  ℕ, ◌≡◌, refl, sym, ◌⊎◌, inl, inr, String, Bool, false, Option, List, arith, string_eq,
  Option-cases, Bool-cases,
}
use ai_kubernetes_troublesho.Prelude.Dict.{get, hits}
use ai_kubernetes_troublesho.Prelude.Steps.{Ended, Leaves, then_leaves, Checks-leaves, Ends-leaves}
use ai_kubernetes_troublesho.Authz.Models.{Role, owner, Membership}
use ai_kubernetes_troublesho.Authz.Store.{
  Row, File, missing, unreadable, readable, members_of, fetch, upsert, remove_member,
  store_suspended,
}
use ai_kubernetes_troublesho.Authz.Store.View.{owner_row, member_at, fetch_lem}
use ai_kubernetes_troublesho.Authz.Service.{refuse_last}
use ai_kubernetes_troublesho.Authz.Service.Overlap.{Write, meanwhile, refuse_last_owner_amid}
use ai_kubernetes_troublesho.Authz.Service.Governed.{IsGovernedFile, Spare}
use ai_kubernetes_troublesho.Authz.Service.Guards.{
  refuse_last_lem, refuse_last-Checks, Spare-of_last,
}
use ai_kubernetes_troublesho.Authz.Service.Writes.{
  SpareFile, write_all-IsGoverned, write_all-SpareFile,
}
use ai_kubernetes_troublesho.Authz.Service.Keeps.{
  upsert-IsGoverned, remove_member-IsGoverned, store_suspended-IsGoverned,
}

-- The last write of each call, where an owner besides the subject is there, or no owner is taken
-- away.
module _ (tenant subject : String) where
  pub upsert-leaves :
      (role : Role) (actor email : String) (now : ℕ) (file : File)
      → IsGovernedFile tenant file
      → (role ≡ owner) ⊎ SpareFile tenant subject file
      → Leaves
          (IsGovernedFile tenant)
          (λ _ f. IsGovernedFile tenant f)
          (upsert tenant subject role email actor now)
          file
  upsert-leaves role actor email now missing g why = absurd g
  upsert-leaves role actor email now unreadable g why = absurd g
  upsert-leaves role actor email now (readable tenants) g why =
      Ends-leaves (upsert-IsGoverned tenant tenants g subject role email actor now why)

  pub remove_member-leaves :
      (file : File)
      → IsGovernedFile tenant file
      → SpareFile tenant subject file
      → Leaves
          (IsGovernedFile tenant)
          (λ _ f. IsGovernedFile tenant f)
          (remove_member tenant subject)
          file
  remove_member-leaves missing g spare = absurd g
  remove_member-leaves unreadable g spare = absurd g
  remove_member-leaves (readable tenants) g spare =
      Ends-leaves (remove_member-IsGoverned tenant tenants g subject spare)

  pub store_suspended-leaves :
      (suspended : Bool) (now : ℕ) (file : File)
      → IsGovernedFile tenant file
      → (suspended ≡ false) ⊎ SpareFile tenant subject file
      → Leaves
          (IsGovernedFile tenant)
          (λ _ f. IsGovernedFile tenant f)
          (store_suspended tenant subject suspended now)
          file
  store_suspended-leaves suspended now missing g why = absurd g
  store_suspended-leaves suspended now unreadable g why = absurd g
  store_suspended-leaves suspended now (readable tenants) g why =
      Ends-leaves (store_suspended-IsGoverned tenant tenants g subject suspended now why)

  pub meanwhile-leaves :
      (writes : List Write) (file : File)
      → IsGovernedFile tenant file
      → Leaves
          (IsGovernedFile tenant)
          (λ _ f. IsGovernedFile tenant f)
          (meanwhile tenant writes)
          file
  unfolding meanwhile
  meanwhile-leaves writes file g = record { holds = write_all-IsGoverned tenant writes file g }

  -- Before the write, with `Free` telling that no owner is taken away.
  pub meanwhile_spare :
      (Free : Type 0) (writes : List Write) (file : File)
      → IsGovernedFile tenant file
      → Free ⊎ SpareFile tenant subject file
      → Leaves
          (IsGovernedFile tenant)
          (λ _ f. IsGovernedFile tenant f × (Free ⊎ SpareFile tenant subject f))
          (meanwhile tenant writes)
          file
  unfolding meanwhile
  meanwhile_spare Free writes file g (inl free) = record {
    holds = (write_all-IsGoverned tenant writes file g, inl free);
  }
  meanwhile_spare Free writes file g (inr spare) = record {
    holds = (
      write_all-IsGoverned tenant writes file g,
      inr (write_all-SpareFile tenant subject writes file g spare),
    );
  }

  -- What the first read of the guard found: an owner, or a member without whom there is an owner.
  abbrev Found : Option Membership → File → Type 0
  Found existing file =
      (row : Option Row) × (existing ≡ member_at subject row)
      × ((hits owner_row row ≡ 1) ⊎ SpareFile tenant subject file)

  pub fetch-leaves :
      (file : File)
      → IsGovernedFile tenant file
      → Leaves
          (IsGovernedFile tenant)
          (λ m f. IsGovernedFile tenant f × Found m f)
          (fetch tenant subject)
          file
  fetch-leaves missing g = absurd g
  fetch-leaves unreadable g = absurd g
  fetch-leaves (readable tenants) g =
      let row = get subject (members_of tenant tenants) in
      let why : (hits owner_row row ≡ 1) ⊎ Spare subject (members_of tenant tenants) =
        elim (Option-cases row) [
          | inl e ↦ inr (rw e (ground (arith, g.owned)))
          | inr (r, e) ↦ elim (Bool-cases (owner_row r)) [
            | inl o ↦ inl (rw e (ground (arith, o)))
            | inr o ↦ inr (rw e (ground (arith, o, g.owned)))
          ]
        ] in
      record {
        holds =
            subst (Ended (IsGovernedFile tenant) (λ m f. IsGovernedFile tenant f × Found m f))
              (sym (fetch_lem tenant tenants g.reads subject)) (g, (row, refl, why));
      }

  meanwhile-Found :
      (existing : Option Membership) (writes : List Write) (file : File)
      → IsGovernedFile tenant file
      → Found existing file
      → Leaves
          (IsGovernedFile tenant)
          (λ _ f. IsGovernedFile tenant f × Found existing f)
          (meanwhile tenant writes)
          file
  unfolding meanwhile
  meanwhile-Found existing writes file g (row, e, why) = record {
    holds = (
      write_all-IsGoverned tenant writes file g,
      (
        row,
        e,
        elim why [
          | inl o ↦ inl o
          | inr spare ↦ inr (write_all-SpareFile tenant subject writes file g spare)
        ],
      ),
    );
  }

  refuse_last-leaves :
      (existing : Option Membership) (file : File)
      → IsGovernedFile tenant file
      → Found existing file
      → Leaves
          (IsGovernedFile tenant)
          (λ _ f. IsGovernedFile tenant f × SpareFile tenant subject f)
          (refuse_last tenant existing)
          file
  refuse_last-leaves existing missing g found = absurd g
  refuse_last-leaves existing unreadable g found = absurd g
  refuse_last-leaves existing (readable tenants) g (row, e, why) =
      let found = refuse_last_lem tenant tenants g.reads subject row in
      rw e (
        Checks-leaves _ (refuse_last-Checks tenant tenants g.reads subject row) g
          λ _ pass. (g, Spare-of_last tenant tenants g.reads subject row why pass))

  pub refuse_last_owner-leaves :
      (writes : List Write) (file : File)
      → IsGovernedFile tenant file
      → Leaves
          (IsGovernedFile tenant)
          (λ _ f. IsGovernedFile tenant f × SpareFile tenant subject f)
          (refuse_last_owner_amid writes tenant subject)
          file
  unfolding refuse_last_owner_amid
  refuse_last_owner-leaves writes file g = then_leaves _ (fetch-leaves file g) λ existing f h.
      then_leaves _ (meanwhile-Found existing writes f h.0 h.1)
        λ _ f' h'. refuse_last-leaves existing f' h'.0 h'.1
