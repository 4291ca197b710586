-- ===== src/Authz/Service/Escalation.antt =====
-- Who may change whom: the escalation check of the service.
use ai_kubernetes_troublesho.Prelude.{
  ℕ, ◌≤◌, ◌≡◌, ◌≢◌, refl, ◌⊎◌, inl, inr, String, Bool, true, false, Option, none, some, arith, ◌==◌,
  string_eq,
}
use ai_kubernetes_troublesho.Prelude.Text.{strip}
use ai_kubernetes_troublesho.Prelude.Exec.{
  ok, Exec, ◌>>=◌, raise_if, Checks, Ends, after_check, after_read, Checks-of_same, raise_if-Checks,
  when-Checks, when-pass,
}
use ai_kubernetes_troublesho.Authz.Models.{Role, rank, role_eq, Membership}
use ai_kubernetes_troublesho.Authz.Store.{
  Failure, File, missing, unreadable, readable, read, fetch, member_error,
}
use ai_kubernetes_troublesho.Authz.Service.{
  refuse_escalation, assign_role, refuse_stronger, held_role, remove_role, set_suspended,
}
use ai_kubernetes_troublesho.Authz.Service.Guards.{
  refuse_escalation-Checks, refuse_stronger-Checks, or_not_found-Checks,
}

-- The actor holds a role of at least the rank of `role`.
abbrev pub Outranks : Option Role → Role → Type 0
Outranks none role = ⊥
Outranks (some actor_role) role = rank role ≤ rank actor_role

abbrev pub OutranksHeld : Option Role → Option Role → Type 0
OutranksHeld actor_role none = Unit
OutranksHeld actor_role (some role) = Outranks actor_role role

refuse_escalation-pass :
    (actor_role : Option Role) (role : Role) (file : File)
    → refuse_escalation actor_role role file ≡ (ok tt, file)
    → Outranks actor_role role
unfolding refuse_escalation raise_if
refuse_escalation-pass none role file h = cc
refuse_escalation-pass (some actor_role) role file h = ground arith

refuse_stronger-pass :
    (actor_role held : Option Role) (file : File)
    → refuse_stronger true actor_role held file ≡ (ok tt, file)
    → OutranksHeld actor_role held
unfolding refuse_stronger
refuse_stronger-pass actor_role none file h = tt
refuse_stronger-pass actor_role (some role) file h = refuse_escalation-pass actor_role role file h

fetch-same : (tenant subject : String) (file : File) → (fetch tenant subject file).1 ≡ file
unfolding fetch read ◌>>=◌
fetch-same tenant subject missing = ground arith
fetch-same tenant subject unreadable = refl
fetch-same tenant subject (readable tenants) = ground arith

-- Reading a member writes nothing.
fetch-Checks : (tenant subject : String) (file : File) → Checks (fetch tenant subject) file
fetch-Checks tenant subject file =
    Checks-of_same (fetch tenant subject) file (fetch-same tenant subject file)

-- The file is unchanged, or the change was allowed.
abbrev Unless : Type 0 → File → File → Type 0
Unless Allowed before file = (file ≡ before) ⊎ Allowed

allowed_by :
    {A Allowed : Type 0} {before : File} (m : Exec Failure File A) (file : File)
    → Allowed
    → Ends (Unless Allowed before) m file
allowed_by m file h = record { holds = inr h }

allowed_of_change :
    {Allowed : Type 0} {before file : File} → Unless Allowed before file → file ≢ before → Allowed
allowed_of_change (inl same) changed = absurd (changed same)
allowed_of_change (inr h) changed = h

passed : {Q : Type 0} → ◌≡◌ {A = Bool} true false ⊎ Q → Q
passed (inl h) = cc
passed (inr q) = q

module _ (tenant : String) (actor_role : Option Role) (file : File) where
  assign_role-Ends :
      (subject : String) (role : Role) (actor email : String) (now : ℕ)
      → Ends
          (Unless (Outranks actor_role role) file)
          (assign_role tenant subject role actor_role actor email true now)
          file
  unfolding assign_role
  assign_role-Ends subject role actor email now =
      after_check _ (inl refl) (raise_if-Checks (strip subject == "") (member_error 422) file)
        λ _ _.
          after_check _ (inl refl)
            (when-Checks true (refuse_escalation-Checks actor_role role file))
            λ _ pass.
              allowed_by _ file
                (refuse_escalation-pass actor_role role file (passed (when-pass true _ file pass)))

  remove_role-Ends :
      (subject : String) (member : Option Membership)
      → fetch tenant subject file ≡ (ok member, file)
      → Ends
          (Unless (OutranksHeld actor_role (held_role member)) file)
          (remove_role tenant subject actor_role true)
          file
  unfolding remove_role
  remove_role-Ends subject member found = after_read _ _ member found (
      after_check _ (inl refl) (refuse_stronger-Checks true actor_role (held_role member) file)
        λ _ pass. allowed_by _ file (refuse_stronger-pass actor_role (held_role member) file pass))

  set_suspended-Ends :
      (subject : String) (suspended : Bool) (now : ℕ) (member : Option Membership)
      → fetch tenant subject file ≡ (ok member, file)
      → Ends
          (Unless (OutranksHeld actor_role (held_role member)) file)
          (set_suspended tenant subject suspended actor_role true now)
          file
  unfolding set_suspended
  set_suspended-Ends subject suspended now member found = after_read _ _ member found (
      after_check _ (inl refl) (or_not_found-Checks member file) λ _ _.
        after_check _ (inl refl) (refuse_stronger-Checks true actor_role (held_role member) file)
          λ _ pass.
            allowed_by _ file (refuse_stronger-pass actor_role (held_role member) file pass))

  -- A grant under the escalation check changes the file only where the actor holds a role of at
  -- least the rank of the role that is granted.
  pub assign_role-Outranks :
      (subject : String) (role : Role) (actor email : String) (now : ℕ)
      → (assign_role tenant subject role actor_role actor email true now file).1 ≢ file
      → Outranks actor_role role
  assign_role-Outranks subject role actor email now =
      allowed_of_change (assign_role-Ends subject role actor email now).holds

  -- A removal under the escalation check, and a suspension or a restoration under it, each with no
  -- other write between its store calls, change the file only where the actor holds a role of at
  -- least the rank of the role that the target was assigned, if it was assigned one.
  pub removal-OutranksHeld :
      (subject : String) (member : Option Membership)
      → fetch tenant subject file ≡ (ok member, file)
      → ((remove_role tenant subject actor_role true file).1 ≢ file
          → OutranksHeld actor_role (held_role member))
        × ((suspended : Bool) (now : ℕ)
            → (set_suspended tenant subject suspended actor_role true now file).1 ≢ file
            → OutranksHeld actor_role (held_role member))
  removal-OutranksHeld subject member found = (
    allowed_of_change (remove_role-Ends subject member found).holds,
    λ suspended now.
        allowed_of_change (set_suspended-Ends subject suspended now member found).holds,
  )
