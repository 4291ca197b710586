-- ===== src/Authz/Service/Guards.antt =====
-- The checks of the service: what they decide, and that they write nothing.
use ai_kubernetes_troublesho.Prelude.{
  ◌≤◌, ◌≡◌, ◌⊎◌, ◌∙◌, refl, String, Bool, true, false, ◌&&◌, Option, none, some, arith, leb,
  string_eq, if◌then◌else◌, inl, inr, Bool-cases,
}
use ai_kubernetes_troublesho.Prelude.Dict.{get, tally, hits}
use ai_kubernetes_troublesho.Prelude.Exec.{
  ok, raised, bind-ok, ◌>>=◌, when, raise_if, Checks, raise_if-Checks, Ends,
}
use ai_kubernetes_troublesho.Authz.Models.{Role, Membership, role_eq}
use ai_kubernetes_troublesho.Authz.Store.{
  member_error, Row, Members, Tenants, File, readable, members_of,
}
use ai_kubernetes_troublesho.Authz.Store.View.{
  Reads, owner_row, member_at, fetch_lem, count_owners_lem,
}
use ai_kubernetes_troublesho.Authz.Service.{
  refuse_escalation, refuse_last, refuse_last_owner, refuse_stronger, or_not_found,
}
use ai_kubernetes_troublesho.Authz.Service.Governed.{Spare}

module _ (tenant : String) (tenants : Tenants) (h : Reads (members_of tenant tenants)) where
  abbrev pub here : Members
  here = members_of tenant tenants

  -- The guard on a member who was read before, as the rows are now.
  pub refuse_last_lem :
      (subject : String) (found : Option Row)
      → refuse_last tenant (member_at subject found) (readable tenants) ≡ (
        if leb 1 (hits owner_row found) && leb (tally owner_row here) 1
            then raised (member_error 409)
            else ok tt,
        readable tenants,
      )
  unfolding refuse_last when raise_if ◌>>=◌
  refuse_last_lem subject none = refl
  refuse_last_lem subject (some row) = ground (arith, count_owners_lem tenant tenants h)

  -- The guard passes exactly where the target is not the last owner, and never writes.
  pub refuse_last_owner_lem :
      (subject : String)
      → refuse_last_owner tenant subject (readable tenants) ≡ (
        if leb 1 (hits owner_row (get subject here)) && leb (tally owner_row here) 1
            then raised (member_error 409)
            else ok tt,
        readable tenants,
      )
  unfolding refuse_last_owner
  refuse_last_owner_lem subject =
      bind-ok _ _ _ _ _ (fetch_lem tenant tenants h subject)
      ∙ refuse_last_lem subject (get subject here)

  pub refuse_last-Checks :
      (subject : String) (found : Option Row)
      → Checks (refuse_last tenant (member_at subject found)) (readable tenants)
  refuse_last-Checks subject found = record {
    outcome = elim (Bool-cases (leb 1 (hits owner_row found) && leb (tally owner_row here) 1)) [
      | inl last ↦ inr (member_error 409, ground (arith, last, refuse_last_lem subject found))
      | inr free ↦ inl (tt, ground (arith, free, refuse_last_lem subject found))
    ];
  }

  hits_le : (found : Option Row) → hits owner_row found ≤ 1
  hits_le none = omega arith
  hits_le (some row) = ground arith

  -- Where the guard passes, the tenant has an owner besides `subject`: there was one when the
  -- member was read, or the member was an owner and more than one is counted now.
  pub Spare-of_last :
      (subject : String) (found : Option Row)
      → (hits owner_row found ≡ 1) ⊎ Spare subject here
      → refuse_last tenant (member_at subject found) (readable tenants) ≡ (ok tt, readable tenants)
      → Spare subject here
  Spare-of_last subject found (inr spare) pass = spare
  Spare-of_last subject found (inl was) pass =
      ground (arith, refuse_last_lem subject found, hits_le (get subject here))

pub refuse_escalation-Checks :
    (actor_role : Option Role) (role : Role) (file : File)
    → Checks (refuse_escalation actor_role role) file
unfolding refuse_escalation
refuse_escalation-Checks none role file = record { outcome = inr (member_error 403, refl) }
refuse_escalation-Checks (some actor_role) role file = raise_if-Checks _ (member_error 403) file

pub refuse_stronger-Checks :
    (enforce : Bool) (actor_role held : Option Role) (file : File)
    → Checks (refuse_stronger enforce actor_role held) file
unfolding refuse_stronger
refuse_stronger-Checks false actor_role held file = record { outcome = inl (tt, refl) }
refuse_stronger-Checks true actor_role none file = record { outcome = inl (tt, refl) }
refuse_stronger-Checks true actor_role (some role) file =
    refuse_escalation-Checks actor_role role file

pub or_not_found-Checks :
    (found : Option Membership) (file : File) → Checks (or_not_found found) file
unfolding or_not_found
or_not_found-Checks none file = record { outcome = inr (member_error 404, refl) }
or_not_found-Checks (some member) file = record { outcome = inl (member, refl) }

pub or_not_found-Ends :
    {P : File → Type 0} (found : Option Membership) (file : File)
    → P file
    → Ends P (or_not_found found) file
unfolding or_not_found
or_not_found-Ends none file h = record { holds = h }
or_not_found-Ends (some member) file h = record { holds = h }
