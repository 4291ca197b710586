-- ===== src/Authz/Service.antt =====
-- backend/app/authz/service.py over the file store: granting, removing and suspending. The texts of
-- the refusals are not modelled; their status codes are. Each call of the store takes the store's
-- lock for itself, so what other callers write can fall between two of them. The functions here run
-- with nothing between their store calls; Overlap has them with what is written meanwhile.
pub mod Overlap
pub mod Escalation
pub mod Effect
pub mod Governed
pub mod Guards
pub mod Writes
pub mod Keeps
pub mod Amid
mod Alone
pub mod Floor
use ai_kubernetes_troublesho.Prelude.{
  ℕ, String, Bool, true, false, ◌&&◌, not, Option, none, some, ltb, leb, ◌==◌, string_eq,
  if◌then◌else◌,
}
use ai_kubernetes_troublesho.Prelude.Text.{strip}
use ai_kubernetes_troublesho.Prelude.Exec.{
  ok, raised, Exec, pure, raise_if, when, unless, ◌>>=◌, ◌>>◌,
}
use ai_kubernetes_troublesho.Authz.Models.{Role, owner, rank, role_eq, Membership}
use ai_kubernetes_troublesho.Authz.Store.{
  Failure, member_error, File, fetch, upsert, remove_member, store_suspended, active_owner,
  count_owners,
}

-- `_refuse_escalation`
unfoldable pub refuse_escalation : Option Role → Role → Exec Failure File Unit
refuse_escalation none target_role file = (raised (member_error 403), file)
refuse_escalation (some actor_role) target_role file =
    raise_if (ltb (rank actor_role) (rank target_role)) (member_error 403) file

-- `_refuse_last_owner` after the member was read, and `_refuse_last_owner`
unfoldable pub refuse_last : String → Option Membership → Exec Failure File Unit
refuse_last tenant none file = (ok tt, file)
refuse_last tenant (some member) file =
    when (active_owner member)
      (do owners ← count_owners tenant; raise_if (leb owners 1) (member_error 409)) file

unfoldable pub refuse_last_owner : String → String → Exec Failure File Unit
refuse_last_owner tenant subject = do existing ← fetch tenant subject; refuse_last tenant existing

-- `assign_role`
unfoldable pub assign_role :
    String → String → Role → Option Role → String → String → Bool → ℕ → Exec Failure File Membership
assign_role tenant raw_subject role actor_role actor_subject email enforce_escalation now = do
  let subject = strip raw_subject
  raise_if (subject == "") (member_error 422)
  when enforce_escalation (refuse_escalation actor_role role)
  unless (role == owner) (refuse_last_owner tenant subject)
  upsert tenant subject role email actor_subject now

-- the check of `remove_role` and `set_suspended` on the role that the target holds
unfoldable pub refuse_stronger : Bool → Option Role → Option Role → Exec Failure File Unit
refuse_stronger false actor_role held file = (ok tt, file)
refuse_stronger true actor_role none file = (ok tt, file)
refuse_stronger true actor_role (some role) file = refuse_escalation actor_role role file

unfoldable pub held_role : Option Membership → Option Role
held_role none = none
held_role (some member) = member.role

-- `remove_role`
unfoldable pub remove_role : String → String → Option Role → Bool → Exec Failure File Bool
remove_role tenant subject actor_role enforce_escalation = do
  existing ← fetch tenant subject
  refuse_stronger enforce_escalation actor_role (held_role existing)
  refuse_last_owner tenant subject
  remove_member tenant subject

unfoldable pub or_not_found : Option Membership → Exec Failure File Membership
or_not_found none file = (raised (member_error 404), file)
or_not_found (some member) file = (ok member, file)

-- `set_suspended`
unfoldable pub set_suspended :
    String → String → Bool → Option Role → Bool → ℕ → Exec Failure File Membership
set_suspended tenant subject suspended actor_role enforce_escalation now = do
  existing ← fetch tenant subject
  or_not_found existing
  refuse_stronger enforce_escalation actor_role (held_role existing)
  when suspended (refuse_last_owner tenant subject)
  updated ← store_suspended tenant subject suspended now
  or_not_found updated
