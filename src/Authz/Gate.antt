-- ===== src/Authz/Gate.antt =====
-- backend/app/authz/dependencies.py: `require_permission`, the one place a permission is checked.
pub mod Soundness
use ai_kubernetes_troublesho.Prelude.{
  ℕ, String, Bool, true, false, Option, none, some, if◌then◌else◌,
}
use ai_kubernetes_troublesho.Prelude.Exec.{Result, ok, raised}
use ai_kubernetes_troublesho.RateLimit.{Limiter, evaluate, Decision}
use ai_kubernetes_troublesho.Authz.Models.{Permission, Grant, grant_permits}
use ai_kubernetes_troublesho.Authz.Routes.{
  Need, authenticated, permission, is_costed, required_permission,
}
use ai_kubernetes_troublesho.Authz.Store.{Failure, File}
use ai_kubernetes_troublesho.Authz.Resolver.{Principal, Resolver, resolve, Sightings, note_seen}

-- The state that a request meets, and what the settings say.
pub record Platform : Type 0 where
  pub file : File
  pub sightings : Sightings
  pub limiter : Limiter

pub record Limits : Type 0 where
  pub per_subject : ℕ
  pub per_tenant : ℕ

-- the wall clock in milliseconds, the monotonic clock, and the time that the store writes
pub record Moment : Type 0 where
  pub wall : ℕ
  pub monotonic : ℕ
  pub stamp : ℕ

-- The principal is returned, or an `HTTPException` with its status code.
pub data Verdict : Type 0 where
  admitted : Verdict
  refused : ℕ → Verdict

-- `_enforce_rate_limit`
unfoldable pub enforce_rate_limit :
    Permission → Principal → Limits → ℕ → Limiter → Verdict × Limiter
enforce_rate_limit needed principal limits now limiter =
    if is_costed needed
    then (let (decision, limiter') =
          evaluate principal.subject principal.tenant limits.per_subject limits.per_tenant now
            limiter in
        (if decision.allowed then admitted else refused 429, limiter'))
    else (admitted, limiter)

-- the checks once the grant is known
unfoldable pub check_grant : Need → Grant → Principal → Limits → ℕ → Limiter → Verdict × Limiter
unfolding enforce_rate_limit
check_grant authenticated grant principal limits now limiter = (admitted, limiter)
check_grant (permission needed) grant principal limits now limiter =
    if grant_permits grant needed
    then enforce_rate_limit needed principal limits now limiter
    else (refused 403, limiter)

-- the rest once the store was asked for the grant
unfoldable pub with_grant :
    Resolver
    → String
    → Principal
    → Limits
    → Moment
    → Need
    → Result Failure Grant
    → Platform
    → Verdict × Platform
with_grant resolver tenant principal limits at need (raised failure) platform =
    (refused 503, platform)
with_grant resolver tenant principal limits at need (ok grant) platform =
    let seen =
      note_seen resolver tenant principal at.monotonic at.stamp platform.sightings platform.file in
    let checked = check_grant need grant principal limits at.wall platform.limiter in
    (checked.0, record { sightings = seen.0; file = seen.1; limiter = checked.1 })

-- `require_permission`, with what `required_permission` says of the route
unfoldable pub check_need :
    Resolver → String → Principal → Limits → Moment → Option Need → Platform → Verdict × Platform
check_need resolver tenant principal limits at none platform = (refused 403, platform)
check_need resolver tenant principal limits at (some need) platform =
    with_grant resolver tenant principal limits at need
      (resolve resolver tenant principal platform.file).0 platform

-- `require_permission`
unfoldable pub require_permission :
    Resolver
    → String
    → Principal
    → Limits
    → Moment
    → String
    → String
    → Platform
    → Verdict × Platform
unfolding check_need with_grant
require_permission resolver tenant principal limits at method path =
    check_need resolver tenant principal limits at (required_permission method path)
