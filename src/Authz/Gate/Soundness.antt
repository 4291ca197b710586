-- ===== src/Authz/Gate/Soundness.antt =====
-- What the gate lets through, what it refuses, and what a refusal costs.
use ai_kubernetes_troublesho.Prelude.{
  ℕ, ◌≡◌, ◌≢◌, ◌⊎◌, inl, inr, refl, String, true, false, Option, none, some, arith, is_some,
  if◌then◌else◌, Option-cases,
}
use ai_kubernetes_troublesho.Prelude.Exec.{Result, ok, raised, ◌>>=◌}
use ai_kubernetes_troublesho.RateLimit.{Limiter}
use ai_kubernetes_troublesho.Authz.Models.{Permission, Grant, Membership, grant_permits}
use ai_kubernetes_troublesho.Authz.Routes.{
  Need, authenticated, permission, is_costed, required_permission,
}
use ai_kubernetes_troublesho.Authz.Store.{Failure, fetch}
use ai_kubernetes_troublesho.Authz.Resolver.{Principal, Resolver, resolve, grant_of}
use ai_kubernetes_troublesho.Authz.Gate.{
  Platform, Limits, Moment, admitted, refused, check_grant, with_grant, check_need,
  require_permission,
}

abbrev pub Suffices : Grant → Need → Type 0
Suffices grant authenticated = Unit
Suffices grant (permission p) = grant_permits grant p ≡ true

module _ (resolver : Resolver) (tenant : String) (principal : Principal) (limits : Limits)
    (at : Moment) where
  check_grant-admitted :
      (need : Need) (grant : Grant) (now : ℕ) (limiter : Limiter)
      → (check_grant need grant principal limits now limiter).0 ≡ admitted
      → Suffices grant need
  unfolding check_grant
  check_grant-admitted authenticated grant now limiter h = tt
  check_grant-admitted (permission p) grant now limiter h = ground arith

  -- The grant was resolved and suffices.
  abbrev pub Granted : Need → Result Failure Grant → Type 0
  Granted need result = (grant : Grant) × (result ≡ ok grant) × Suffices grant need

  with_grant-admitted :
      (need : Need) (result : Result Failure Grant) (platform : Platform)
      → (with_grant resolver tenant principal limits at need result platform).0 ≡ admitted
      → Granted need result
  unfolding with_grant
  with_grant-admitted need (raised failure) platform h = cc
  with_grant-admitted need (ok grant) platform h =
      (grant, refl, check_grant-admitted need grant at.wall platform.limiter h)

  check_need-admitted :
      (route : Option Need) (platform : Platform)
      → (check_need resolver tenant principal limits at route platform).0 ≡ admitted
      → (need : Need) × (route ≡ some need)
        × Granted need (resolve resolver tenant principal platform.file).0
  unfolding check_need
  check_need-admitted none platform h = cc
  check_need-admitted (some need) platform h = (
    need,
    refl,
    with_grant-admitted need (resolve resolver tenant principal platform.file).0 platform h,
  )

  -- A request is admitted only where its route stands in the table, the caller's grant could be
  -- resolved, and the grant holds the permission that the route needs, if it needs one.
  pub admitted-Granted :
      (method path : String) (platform : Platform)
      → (require_permission resolver tenant principal limits at method path platform).0 ≡ admitted
      → (need : Need) × (required_permission method path ≡ some need)
        × Granted need (resolve resolver tenant principal platform.file).0
  unfolding require_permission
  admitted-Granted method path platform h =
      check_need-admitted (required_permission method path) platform h

  -- The need is a costed permission that the grant holds.
  abbrev pub Costed : Need → Result Failure Grant → Type 0
  Costed authenticated result = ⊥
  Costed (permission p) result = (is_costed p ≡ true) × Granted (permission p) result

  with_grant-limiter :
      (need : Need) (result : Result Failure Grant) (platform : Platform)
      → (with_grant resolver tenant principal limits at need result platform).1.limiter
        ≢ platform.limiter
      → Costed need result
  unfolding with_grant check_grant
  with_grant-limiter need (raised failure) platform h = absurd (h refl)
  with_grant-limiter authenticated (ok grant) platform h = absurd (h refl)
  with_grant-limiter (permission p) (ok grant) platform h =
      (ground arith, (grant, refl, ground arith))

  check_need-limiter :
      (route : Option Need) (platform : Platform)
      → (check_need resolver tenant principal limits at route platform).1.limiter ≢ platform.limiter
      → (need : Need) × (route ≡ some need)
        × Costed need (resolve resolver tenant principal platform.file).0
  unfolding check_need
  check_need-limiter none platform h = absurd (h refl)
  check_need-limiter (some need) platform h = (
    need,
    refl,
    with_grant-limiter need (resolve resolver tenant principal platform.file).0 platform h,
  )

  -- Only a request for a costed permission that the caller's grant holds is counted by the rate
  -- limiter: whatever is refused for another reason leaves the limiter as it was.
  pub counted-Costed :
      (method path : String) (platform : Platform)
      → (require_permission resolver tenant principal limits at method path platform).1.limiter
        ≢ platform.limiter
      → (need : Need) × (required_permission method path ≡ some need)
        × Costed need (resolve resolver tenant principal platform.file).0
  unfolding require_permission
  counted-Costed method path platform h =
      check_need-limiter (required_permission method path) platform h

  -- The gate fails closed. A request is refused, with 403 if its route is not in the table and with
  -- 503 otherwise, when the route is not in the table or its grant cannot be resolved, and neither
  -- the member file nor the sightings nor the limiter are changed.
  pub fails_closed :
      (method path : String) (platform : Platform)
      → (required_permission method path ≡ none)
        ⊎ ((failure : Failure) × ((resolve resolver tenant principal platform.file).0
              ≡ raised failure))
      → require_permission resolver tenant principal limits at method path platform
        ≡ (refused (if is_some (required_permission method path) then 503 else 403), platform)
  unfolding require_permission
  fails_closed method path platform (inl e) = rw (e, check_need) refl
  fails_closed method path platform (inr (failure, f)) =
      elim (Option-cases (required_permission method path)) [
        | inl e ↦ rw (e, check_need) refl
        | inr (need, e) ↦ rw (e, check_need) (rw (f, with_grant) refl)
      ]

  -- A suspended member of a deployment that is not open is refused with 403 wherever a permission
  -- is needed, whatever roles their groups, their binding and the fallback give.
  pub suspended_refused :
      (method path : String) (platform : Platform) (member : Membership) (p : Permission)
      → resolver.open_deployment ≡ false
      → fetch tenant principal.subject platform.file ≡ (ok (some member), platform.file)
      → member.suspended ≡ true
      → required_permission method path ≡ some (permission p)
      → (require_permission resolver tenant principal limits at method path platform).0
        ≡ refused 403
  unfolding require_permission resolve grant_of check_grant grant_permits ◌>>=◌
  suspended_refused method path platform member p closed found suspended needed =
      ground (arith, closed, found, suspended, needed)
