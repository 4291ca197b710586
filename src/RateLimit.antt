-- ===== src/RateLimit.antt =====
-- backend/app/ratelimit/limiter.py: the fixed-window limiter of a single process, and `evaluate`.
-- A time is a number of milliseconds. The lock makes each method one step. The Redis limiter asks
-- the bus, which is not modelled.
pub mod Window
mod Examples
use ai_kubernetes_troublesho.Prelude.{
  ℕ, suc, ◌+◌, ◌-◌, ◌*◌, ◌/◌, ◌%◌, ◌≡◌, ◌↔◌, ap, String, Bool, true, false, ◌&&◌, not, Option, none,
  some, List, [], ◌∷◌, arith, ltb, leb, Key, ◌==◌, string_eq, nat_eq, eq_iff, nat_test_iff, keep,
  length, if◌then◌else◌,
}
use Prim.Native.String.{◌++◌}
use ai_kubernetes_troublesho.Prelude.Dict.{Dict, get, put}

-- A caller's key, and the number of the window.
abbrev pub Bucket : Type 0
Bucket = String × ℕ

pub bucket_test_iff : (a b : Bucket) → ((a.0 == b.0 && a.1 == b.1) ≡ true) ↔ (a ≡ b)
bucket_test_iff (a, m) (b, n) = ground (arith, eq_iff a b)

instance abbrev pub bucket_eq : Key Bucket
bucket_eq = record { test = λ a b. a.0 == b.0 && a.1 == b.1; test_iff = bucket_test_iff }

pub record Decision : Type 0 where
  pub allowed : Bool
  pub scope : String
  pub limit : ℕ
  pub retry_after_seconds : ℕ

-- `InMemoryRateLimiter`
pub record Limiter : Type 0 where
  pub window_seconds : ℕ
  pub counts : Dict Bucket ℕ

abbrev pub max_buckets : ℕ
max_buckets = 10000

-- `int(now // self._window)`
abbrev pub window_of : ℕ → ℕ → ℕ
window_of window_seconds now = now / (window_seconds * 1000)

-- `int(self._window - (now % self._window)) or 1`
unfoldable pub remaining_of : ℕ → ℕ → ℕ
remaining_of window_seconds now =
    let left = (window_seconds * 1000 - now % (window_seconds * 1000)) / 1000 in
    if left == 0 then 1 else left

unfoldable pub purge : ℕ → Dict Bucket ℕ → Dict Bucket ℕ
purge window counts =
    if ltb max_buckets (length counts) then keep (λ entry. leb window entry.0.1) counts else counts

abbrev pub count_or_zero : Option ℕ → ℕ
count_or_zero none = 0
count_or_zero (some count) = count

-- `hit`: whether the caller is allowed, the seconds until the window rolls, and the limiter after
unfoldable pub hit : String → ℕ → ℕ → Limiter → Bool × ℕ × Limiter
unfolding purge
hit key limit now limiter =
    let window = window_of limiter.window_seconds now in
    let counts = purge window limiter.counts in
    let used = count_or_zero (get (key, window) counts) + 1 in
    (
      leb used limit,
      remaining_of limiter.window_seconds now,
      record limiter { counts = put (key, window) used counts },
    )

abbrev pub subject_key : String → String → String
subject_key tenant subject = "subject:" ++ (tenant ++ (":" ++ subject))

abbrev pub tenant_key : String → String
tenant_key tenant = "tenant:" ++ tenant

abbrev pub pass : Decision
pass = record { allowed = true; scope = ""; limit = 0; retry_after_seconds = 0 }

-- `evaluate`, its first bucket and its second. A limit of 0 is not enforced.
unfoldable pub evaluate_tenant : String → ℕ → ℕ → Limiter → Decision × Limiter
evaluate_tenant tenant tenant_limit now limiter =
    if ltb 0 tenant_limit
    then (let (allowed, retry, limiter') = hit (tenant_key tenant) tenant_limit now limiter in
        if allowed then (pass, limiter') else (
          record {
            allowed = false;
            scope = "tenant";
            limit = tenant_limit;
            retry_after_seconds = retry;
          },
          limiter',
        ))
    else (pass, limiter)

unfoldable pub evaluate : String → String → ℕ → ℕ → ℕ → Limiter → Decision × Limiter
evaluate subject tenant subject_limit tenant_limit now limiter =
    if ltb 0 subject_limit && not (subject == "")
    then (let (allowed, retry, limiter') =
          hit (subject_key tenant subject) subject_limit now limiter in
        if allowed then evaluate_tenant tenant tenant_limit now limiter' else (
          record {
            allowed = false;
            scope = "subject";
            limit = subject_limit;
            retry_after_seconds = retry;
          },
          limiter',
        ))
    else evaluate_tenant tenant tenant_limit now limiter
