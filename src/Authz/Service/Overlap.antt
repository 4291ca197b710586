-- ===== src/Authz/Service/Overlap.antt =====
-- backend/app/authz/service.py where others write to the store meanwhile. The handlers of
-- backend/app/api/members.py run in threads, and each call of the store takes the store's lock for
-- itself: between two store calls of one service call, others may write.
use ai_kubernetes_troublesho.Prelude.{
  ℕ, String, Bool, false, Option, List, [], ◌∷◌, ◌==◌, string_eq,
}
use ai_kubernetes_troublesho.Prelude.Text.{strip}
use ai_kubernetes_troublesho.Prelude.Exec.{ok, Exec, raise_if, when, unless, ◌>>=◌, ◌>>◌}
use ai_kubernetes_troublesho.Authz.Models.{Role, owner, role_eq, Membership}
use ai_kubernetes_troublesho.Authz.Store.{
  Failure, member_error, File, fetch, upsert, remove_member, store_suspended, touch,
}
use ai_kubernetes_troublesho.Authz.Service.{
  refuse_escalation, refuse_last, refuse_stronger, held_role, or_not_found,
}

-- The writes of the store that take no owner away: the sighting of a caller, the one write of
-- `assign_role` when it grants `owner`, and that of `set_suspended` when it restores.
pub data Write : Type 0 where
  sight : String → String → ℕ → Write
  promote : String → String → String → ℕ → Write
  restore : String → ℕ → Write

unfoldable pub write_one : String → Write → File → File
write_one tenant (sight subject email now) file = (touch tenant subject email now file).1
write_one tenant (promote subject actor email now) file =
    (upsert tenant subject owner email actor now file).1
write_one tenant (restore subject now) file = (store_suspended tenant subject false now file).1

unfoldable pub write_all : String → List Write → File → File
write_all tenant [] file = file
write_all tenant (w ∷ ws) file = write_all tenant ws (write_one tenant w file)

-- what others write while a call stands between two of its store calls
unfoldable pub meanwhile : String → List Write → Exec Failure File Unit
meanwhile tenant writes file = (ok tt, write_all tenant writes file)

-- What others write during one call: after its first read, between the two reads of
-- `_refuse_last_owner`, and before its write.
pub record Gaps : Type 0 where
  pub after_read : List Write
  pub in_check : List Write
  pub before_write : List Write

-- `_refuse_last_owner`
unfoldable pub refuse_last_owner_amid : List Write → String → String → Exec Failure File Unit
refuse_last_owner_amid writes tenant subject = do
  existing ← fetch tenant subject
  meanwhile tenant writes
  refuse_last tenant existing

-- `assign_role`
unfoldable pub assign_role_amid :
    Gaps
    → String
    → String
    → Role
    → Option Role
    → String
    → String
    → Bool
    → ℕ
    → Exec Failure File Membership
assign_role_amid gaps tenant raw_subject role actor_role actor_subject email enforce_escalation
      now =
    do
      let subject = strip raw_subject
      raise_if (subject == "") (member_error 422)
      when enforce_escalation (refuse_escalation actor_role role)
      unless (role == owner) (refuse_last_owner_amid gaps.in_check tenant subject)
      meanwhile tenant gaps.before_write
      upsert tenant subject role email actor_subject now

-- `remove_role`
unfoldable pub remove_role_amid :
    Gaps → String → String → Option Role → Bool → Exec Failure File Bool
remove_role_amid gaps tenant subject actor_role enforce_escalation = do
  existing ← fetch tenant subject
  refuse_stronger enforce_escalation actor_role (held_role existing)
  meanwhile tenant gaps.after_read
  refuse_last_owner_amid gaps.in_check tenant subject
  meanwhile tenant gaps.before_write
  remove_member tenant subject

-- `set_suspended`
unfoldable pub set_suspended_amid :
    Gaps → String → String → Bool → Option Role → Bool → ℕ → Exec Failure File Membership
set_suspended_amid gaps tenant subject suspended actor_role enforce_escalation now = do
  existing ← fetch tenant subject
  or_not_found existing
  refuse_stronger enforce_escalation actor_role (held_role existing)
  meanwhile tenant gaps.after_read
  when suspended (refuse_last_owner_amid gaps.in_check tenant subject)
  meanwhile tenant gaps.before_write
  updated ← store_suspended tenant subject suspended now
  or_not_found updated
