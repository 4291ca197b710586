-- ===== src/Authz/Service/Effect.antt =====
-- What a grant does where no check refuses it.
use ai_kubernetes_troublesho.Prelude.{
  ℕ, ◌≡◌, ap, ◌∙◌, String, Bool, true, false, Option, none, some, arith, ◌==◌, string_eq,
}
use ai_kubernetes_troublesho.Prelude.Text.{strip}
use ai_kubernetes_troublesho.Prelude.Dict.{get, put, get-put_self}
use ai_kubernetes_troublesho.Prelude.Exec.{ok, ◌>>=◌, raise_if, unless, bind-ok, when-true}
use ai_kubernetes_troublesho.Authz.Models.{Role, owner, role_eq, Membership}
use ai_kubernetes_troublesho.Authz.Store.{
  Row, Tenants, File, readable, read, write, fetch, member_error, members_of, upsert, granted_row,
  row_or_new,
}
use ai_kubernetes_troublesho.Authz.Store.View.{Reads, fetch_lem, member_of, hydrate_lem}
use ai_kubernetes_troublesho.Authz.Service.{refuse_escalation, refuse_last_owner, assign_role}
use ai_kubernetes_troublesho.Authz.Service.Governed.{
  Spare, Reads-put, members_of-put, granted_row-RoleReads, role_of-granted_row,
}
use ai_kubernetes_troublesho.Authz.Service.Guards.{refuse_last_owner_lem}
use ai_kubernetes_troublesho.Authz.Service.Escalation.{Outranks}

raise_if-false : {E S : Type 0} (b : Bool) (e : E) (s : S) → b ≡ false → raise_if b e s ≡ (ok tt, s)
unfolding raise_if
raise_if-false b e s h = rw (h, raise_if)

escalation_passes :
    (actor_role : Option Role) (role : Role) (file : File)
    → Outranks actor_role role
    → refuse_escalation actor_role role file ≡ (ok tt, file)
unfolding refuse_escalation raise_if
escalation_passes none role file h = absurd h
escalation_passes (some actor_role) role file h = ground arith

module _ (tenant : String) (tenants : Tenants) (reads : Reads (members_of tenant tenants)) where
  floor_passes :
      (role : Role) (subject : String)
      → Spare subject (members_of tenant tenants)
      → unless (role == owner) (refuse_last_owner tenant subject) (readable tenants)
        ≡ (ok tt, readable tenants)
  unfolding unless
  floor_passes role subject spare =
      ground (arith, refuse_last_owner_lem tenant tenants reads subject)

  module _ (raw_subject : String) (role : Role) (actor_role : Option Role) (actor email : String)
      (now : ℕ) where
    abbrev subject : String
    subject = strip raw_subject

    granted_file :
        (subject == "") ≡ false
        → Outranks actor_role role
        → Spare subject (members_of tenant tenants)
        → assign_role tenant raw_subject role actor_role actor email true now (readable tenants)
          ≡ upsert tenant subject role email actor now (readable tenants)
    unfolding assign_role
    granted_file named outranks spare =
        bind-ok _ _ _ _ tt
          (raise_if-false (subject == "") (member_error 422) (readable tenants) named)
        ∙ bind-ok _ _ _ _ tt
            (when-true _ _ ∙ escalation_passes actor_role role (readable tenants) outranks)
        ∙ bind-ok _ _ _ _ tt (floor_passes role subject spare)

    abbrev row : Row
    row =
        granted_row role email actor now (row_or_new now (get subject (members_of tenant tenants)))

    upsert_effect : upsert tenant subject role email actor now (readable tenants) ≡ (
      ok (member_of subject row),
      readable (put tenant (put subject row (members_of tenant tenants)) tenants),
    )
    unfolding upsert read write ◌>>=◌
    upsert_effect =
        ap (λ r. (r, readable (put tenant (put subject row (members_of tenant tenants)) tenants)))
          (hydrate_lem subject row
            (granted_row-RoleReads role email actor now (get subject (members_of tenant tenants))))

    fetch_effect :
        fetch tenant subject
          (readable (put tenant (put subject row (members_of tenant tenants)) tenants))
        ≡ (
          ok (some (member_of subject row)),
          readable (put tenant (put subject row (members_of tenant tenants)) tenants),
        )
    fetch_effect =
        let members = put subject row (members_of tenant tenants) in
        let e = members_of-put tenant members tenants in
        fetch_lem tenant (put tenant members tenants)
          (rw e (
            Reads-put subject row (members_of tenant tenants)
              (granted_row-RoleReads role email actor now (get subject (members_of tenant tenants)))
              reads))
          subject
        ∙ rw (e, get-put_self subject row (members_of tenant tenants))

    -- Where the file is readable and every role that is stored for a member of the tenant is the
    -- name of a role, the subject is not blank, the actor holds a role of at least the rank of the
    -- one granted, and the tenant has an active owner besides the subject, a grant whose store
    -- calls no other write comes between takes effect whatever role the subject held before, a
    -- stronger one than the actor's included: the call returns a member with the role granted, and
    -- the store then shows that member.
    pub assign_role_effect :
        (subject == "") ≡ false
        → Outranks actor_role role
        → Spare subject (members_of tenant tenants)
        → let (result, file) =
            assign_role tenant raw_subject role actor_role actor email true now
              (readable tenants) in
          (member : Membership) × (member.role ≡ some role)
          × (result ≡ ok member)
          × (fetch tenant subject file ≡ (ok (some member), file))
    assign_role_effect named outranks spare =
        let e = granted_file named outranks spare ∙ upsert_effect in
        (
          member_of subject row,
          role_of-granted_row role email actor now (get subject (members_of tenant tenants)),
          ap (λ r. r.0) e,
          rw e fetch_effect,
        )
