-- ===== src/Authz/Service/Alone.antt =====
-- Where nobody writes meanwhile, a service call with gaps is the service call.
use ai_kubernetes_troublesho.Prelude.{ℕ, ◌≡◌, refl, String, Bool, Option, []}
use ai_kubernetes_troublesho.Prelude.Exec.{◌>>=◌}
use ai_kubernetes_troublesho.Authz.Models.{Role, role_eq}
use ai_kubernetes_troublesho.Authz.Store.{File}
use ai_kubernetes_troublesho.Authz.Service.{
  assign_role, remove_role, set_suspended, refuse_last_owner,
}
use ai_kubernetes_troublesho.Authz.Service.Overlap.{
  Gaps, meanwhile, write_all, refuse_last_owner_amid, assign_role_amid, remove_role_amid,
  set_suspended_amid,
}

abbrev no_gaps : Gaps
no_gaps = record { after_read = []; in_check = []; before_write = [] }

module _ (tenant subject : String) (actor_role : Option Role) (enforce : Bool) (file : File) where
  remove_role_alone :
      remove_role_amid no_gaps tenant subject actor_role enforce file
      ≡ remove_role tenant subject actor_role enforce file
  unfolding remove_role_amid remove_role refuse_last_owner_amid refuse_last_owner meanwhile
      write_all ◌>>=◌
  remove_role_alone = refl

  assign_role_alone :
      (role : Role) (actor email : String) (now : ℕ)
      → assign_role_amid no_gaps tenant subject role actor_role actor email enforce now file
        ≡ assign_role tenant subject role actor_role actor email enforce now file
  unfolding assign_role_amid assign_role refuse_last_owner_amid refuse_last_owner meanwhile
      write_all ◌>>=◌
  assign_role_alone role actor email now = refl

  set_suspended_alone :
      (suspended : Bool) (now : ℕ)
      → set_suspended_amid no_gaps tenant subject suspended actor_role enforce now file
        ≡ set_suspended tenant subject suspended actor_role enforce now file
  unfolding set_suspended_amid set_suspended refuse_last_owner_amid refuse_last_owner meanwhile
      write_all ◌>>=◌
  set_suspended_alone suspended now = refl
