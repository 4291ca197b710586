-- ===== src/Authz/Service/Floor.antt =====
-- The floor of a tenant: a tenant that has an owner keeps one, where calls of the service that can
-- take an owner away do not overlap one another.
use ai_kubernetes_troublesho.Prelude.{
  ℕ, ◌≤◌, ◌≡◌, ◌⊎◌, inl, inr, String, Bool, false, Option, List, [], ◌∷◌, ◌==◌, string_eq,
}
use ai_kubernetes_troublesho.Prelude.Text.{strip}
use ai_kubernetes_troublesho.Prelude.Dict.{tally}
use ai_kubernetes_troublesho.Prelude.Exec.{ok, Exec, unless, Checks, raise_if-Checks, when-Checks}
use ai_kubernetes_troublesho.Prelude.Steps.{
  Leaves, then_leaves, Checks-leaves, weaken_leaves, when_leaves, unless_leaves, at_end,
}
use ai_kubernetes_troublesho.Authz.Models.{Role, owner, role_eq}
use ai_kubernetes_troublesho.Authz.Store.{
  Failure, member_error, File, missing, unreadable, readable, members_of, count_owners,
}
use ai_kubernetes_troublesho.Authz.Store.View.{owner_row, count_owners_lem}
use ai_kubernetes_troublesho.Authz.Service.{held_role}
use ai_kubernetes_troublesho.Authz.Service.Overlap.{
  Write, write_one, Gaps, refuse_last_owner_amid, assign_role_amid, remove_role_amid,
  set_suspended_amid,
}
use ai_kubernetes_troublesho.Authz.Service.Governed.{IsGovernedFile}
use ai_kubernetes_troublesho.Authz.Service.Guards.{
  refuse_escalation-Checks, refuse_stronger-Checks, or_not_found-Checks,
}
use ai_kubernetes_troublesho.Authz.Service.Writes.{SpareFile, write_one-IsGoverned}
use ai_kubernetes_troublesho.Authz.Service.Amid.{
  upsert-leaves, remove_member-leaves, store_suspended-leaves, meanwhile-leaves, meanwhile_spare,
  refuse_last_owner-leaves, fetch-leaves,
}

surely : {Q : Type 0} → ⊥ ⊎ Q → Q
surely (inl h) = absurd h
surely (inr q) = q

module _ (tenant : String) where
  abbrev Governs : {A : Type 0} → A → File → Type 0
  Governs a file = IsGovernedFile tenant file

  checked :
      {A : Type 0} {m : Exec Failure File A} {file : File}
      → Checks m file
      → IsGovernedFile tenant file
      → Leaves (IsGovernedFile tenant) Governs m file
  checked c g = Checks-leaves Governs c g λ _ _. g

  or_spare :
      {Free : Type 0} (subject : String) {m : Exec Failure File Unit} {file : File}
      → Leaves
          (IsGovernedFile tenant)
          (λ _ f. IsGovernedFile tenant f × SpareFile tenant subject f)
          m
          file
      → Leaves
          (IsGovernedFile tenant)
          (λ _ f. IsGovernedFile tenant f × (Free ⊎ SpareFile tenant subject f))
          m
          file
  or_spare subject h = weaken_leaves h λ _ f k. (k.0, inr k.1)

  guarded :
      (subject : String) (role : Role) (writes : List Write) (file : File)
      → IsGovernedFile tenant file
      → Leaves
          (IsGovernedFile tenant)
          (λ _ f. IsGovernedFile tenant f × ((role ≡ owner) ⊎ SpareFile tenant subject f))
          (unless (role == owner) (refuse_last_owner_amid writes tenant subject))
          file
  guarded subject role writes file g =
      unless_leaves (role == owner) (λ e. (g, inl ((role_eq.test_iff role owner).0 e)))
        (or_spare subject (refuse_last_owner-leaves tenant subject writes file g))

  assign_role-leaves :
      (gaps : Gaps) (raw_subject : String) (role : Role) (actor_role : Option Role)
      (actor email : String) (enforce : Bool) (now : ℕ) (file : File)
      → IsGovernedFile tenant file
      → Leaves
          (IsGovernedFile tenant)
          Governs
          (assign_role_amid gaps tenant raw_subject role actor_role actor email enforce now)
          file
  unfolding assign_role_amid
  assign_role-leaves gaps raw_subject role actor_role actor email enforce now file g =
      let subject = strip raw_subject in
      then_leaves _ (checked (raise_if-Checks (subject == "") (member_error 422) file) g) λ _ f g'.
        then_leaves _
          (checked (when-Checks enforce (refuse_escalation-Checks actor_role role f)) g')
          λ _ f' g''. then_leaves _ (guarded subject role gaps.in_check f' g'') λ _ u h.
            then_leaves _
              (meanwhile_spare tenant subject (role ≡ owner) gaps.before_write u h.0 h.1)
              λ _ v k. upsert-leaves tenant subject role actor email now v k.0 k.1

  remove_role-leaves :
      (gaps : Gaps) (subject : String) (actor_role : Option Role) (enforce : Bool) (file : File)
      → IsGovernedFile tenant file
      → Leaves
          (IsGovernedFile tenant)
          Governs
          (remove_role_amid gaps tenant subject actor_role enforce)
          file
  unfolding remove_role_amid
  remove_role-leaves gaps subject actor_role enforce file g =
      then_leaves _ (fetch-leaves tenant subject file g) λ existing f h.
        then_leaves _
          (checked (refuse_stronger-Checks enforce actor_role (held_role existing) f) h.0)
          λ _ f' g'. then_leaves _ (meanwhile-leaves tenant subject gaps.after_read f' g') λ _ u k.
            then_leaves _ (refuse_last_owner-leaves tenant subject gaps.in_check u k) λ _ v s.
              then_leaves _ (meanwhile_spare tenant subject ⊥ gaps.before_write v s.0 (inr s.1))
                λ _ w t. remove_member-leaves tenant subject w t.0 (surely t.1)

  set_suspended-leaves :
      (gaps : Gaps) (subject : String) (suspended : Bool) (actor_role : Option Role)
      (enforce : Bool) (now : ℕ) (file : File)
      → IsGovernedFile tenant file
      → Leaves
          (IsGovernedFile tenant)
          Governs
          (set_suspended_amid gaps tenant subject suspended actor_role enforce now)
          file
  unfolding set_suspended_amid
  set_suspended-leaves gaps subject suspended actor_role enforce now file g =
      then_leaves _ (fetch-leaves tenant subject file g) λ existing f h.
        then_leaves _ (checked (or_not_found-Checks existing f) h.0) λ _ f' g'.
          then_leaves _
            (checked (refuse_stronger-Checks enforce actor_role (held_role existing) f') g')
            λ _ f'' g''.
              then_leaves _ (meanwhile-leaves tenant subject gaps.after_read f'' g'') λ _ u k.
                then_leaves _
                  (when_leaves suspended (λ e. (k, inl e))
                    (or_spare subject (refuse_last_owner-leaves tenant subject gaps.in_check u k)))
                  λ _ v s.
                    then_leaves _
                      (meanwhile_spare tenant subject (suspended ≡ false) gaps.before_write v s.0
                        s.1)
                      λ _ w t.
                        then_leaves _
                          (store_suspended-leaves tenant subject suspended now w t.0 t.1)
                          λ updated x y. checked (or_not_found-Checks updated x) y

-- What happens to the members of a tenant, in order: a write that takes no owner away, or a call of
-- the service, by anybody, with what is written meanwhile.
pub data Turn : Type 0 where
  writes : Write → Turn
  assign : Gaps → String → Role → Option Role → String → String → Bool → ℕ → Turn
  remove : Gaps → String → Option Role → Bool → Turn
  suspend : Gaps → String → Bool → Option Role → Bool → ℕ → Turn

-- The file after a turn, whether the call was refused or not.
unfoldable pub after : String → Turn → File → File
after tenant (writes w) file = write_one tenant w file
after tenant (assign gaps subject role actor_role actor email enforce now) file =
    (assign_role_amid gaps tenant subject role actor_role actor email enforce now file).1
after tenant (remove gaps subject actor_role enforce) file =
    (remove_role_amid gaps tenant subject actor_role enforce file).1
after tenant (suspend gaps subject suspended actor_role enforce now) file =
    (set_suspended_amid gaps tenant subject suspended actor_role enforce now file).1

unfoldable pub run : String → List Turn → File → File
unfolding after
run tenant [] file = file
run tenant (turn ∷ turns) file = run tenant turns (after tenant turn file)

after-IsGoverned :
    (tenant : String) (turn : Turn) (file : File)
    → IsGovernedFile tenant file
    → IsGovernedFile tenant (after tenant turn file)
unfolding after
after-IsGoverned tenant (writes w) file g = write_one-IsGoverned tenant w file g
after-IsGoverned tenant (assign gaps subject role actor_role actor email enforce now) file g =
    at_end (assign_role-leaves tenant gaps subject role actor_role actor email enforce now file g)
after-IsGoverned tenant (remove gaps subject actor_role enforce) file g =
    at_end (remove_role-leaves tenant gaps subject actor_role enforce file g)
after-IsGoverned tenant (suspend gaps subject suspended actor_role enforce now) file g =
    at_end (set_suspended-leaves tenant gaps subject suspended actor_role enforce now file g)

run-IsGoverned :
    (tenant : String) (turns : List Turn) (file : File)
    → IsGovernedFile tenant file
    → IsGovernedFile tenant (run tenant turns file)
unfolding run
run-IsGoverned tenant [] file g = g
run-IsGoverned tenant (turn ∷ turns) file g =
    run-IsGoverned tenant turns (after tenant turn file) (after-IsGoverned tenant turn file g)

counted :
    (tenant : String) (file : File)
    → IsGovernedFile tenant file
    → (n : ℕ) × (count_owners tenant file ≡ (ok n, file)) × (1 ≤ n)
counted tenant missing g = absurd g
counted tenant unreadable g = absurd g
counted tenant (readable tenants) g =
    (tally owner_row (members_of tenant tenants), count_owners_lem tenant tenants g.reads, g.owned)

-- From a file in which every role of the tenant can be parsed and the tenant has an owner who is
-- not suspended, calls of `assign_role`, `remove_role` and `set_suspended` follow, by any actor and
-- with or without the escalation check. Then the file stays readable and `count_owners` still
-- counts at least one owner. It is assumed that the calls do not overlap one another; between the
-- store calls of each, and between the calls, any number of sightings, grants of `owner` and
-- restorations may be written, of the subject too.
pub run-keeps_owner :
    (tenant : String) (turns : List Turn) (file : File)
    → IsGovernedFile tenant file
    → (n : ℕ) × (count_owners tenant (run tenant turns file) ≡ (ok n, run tenant turns file))
      × (1 ≤ n)
run-keeps_owner tenant turns file g =
    counted tenant (run tenant turns file) (run-IsGoverned tenant turns file g)
