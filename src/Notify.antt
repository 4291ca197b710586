-- ===== src/Notify.antt =====
-- backend/app/notify/dispatcher.py and destinations.py: where a finished investigation is
-- announced, and how often. What a destination answers to each post is an argument (`answers`), a
-- time is in milliseconds, and the body, the signature and the HTTP client are not modelled.
pub mod Retries
mod Examples
use ai_kubernetes_troublesho.Prelude.{
  ℕ, zero, suc, ◌+◌, String, Bool, true, false, not, ◌&&◌, ◌||◌, Option, none, some, List, [], ◌∷◌,
  ◌==◌, string_eq, contains, keep, map, ltb, leb, if◌then◌else◌,
}
use ai_kubernetes_troublesho.Prelude.Text.{lower}

-- `SEVERITY_ORDER`, worst first
abbrev pub severity_order : List String
severity_order = "critical" ∷ "high" ∷ "medium" ∷ "low" ∷ "info" ∷ []

pub record Destination : Type 0 where
  pub name : String
  pub url : String
  pub secret : String
  pub tenant : String
  pub min_severity : String
  pub outcomes : List String

-- `SEVERITY_ORDER.index(...)`; none is the `ValueError`
abbrev one_more : Option ℕ → Option ℕ
one_more none = none
one_more (some n) = some (suc n)

abbrev pub index_of : String → List String → Option ℕ
index_of s [] = none
index_of s (x ∷ xs) = let rest = index_of s xs in if x == s then some 0 else one_more rest

abbrev pub at_or_above : Option ℕ → Option ℕ → Bool
at_or_above (some floor) (some actual) = leb actual floor
at_or_above (some floor) none = true
at_or_above none actual = true

-- `Destination.accepts`
unfoldable pub accepts : String → String → Destination → Bool
accepts outcome severity destination =
    contains outcome destination.outcomes
    && at_or_above (index_of destination.min_severity severity_order)
        (index_of (lower (if severity == "" then "info" else severity)) severity_order)

-- The destinations for which `_announce` starts a delivery, in order.
unfoldable pub announced_to : String → String → String → List Destination → List Destination
announced_to tenant outcome severity destinations =
    keep (λ d. d.tenant == tenant && accepts outcome severity d) destinations

-- `MAX_ATTEMPTS` and `BACKOFF_SECONDS`
abbrev pub max_attempts : ℕ
max_attempts = 3

abbrev pub backoff : ℕ → ℕ
backoff zero = 500
backoff (suc zero) = 2000
backoff (suc (suc n)) = 0

pub data Answer : Type 0 where
  answered : ℕ → Answer
  unreachable : Answer

-- What comes of a delivery: what the caller is told, the answers it got, and how long it slept.
pub record Delivery : Type 0 where
  pub is_delivered : Bool
  pub metric : String
  pub seen : List Answer
  pub slept : ℕ

abbrev pub again : ℕ → Answer → Delivery → Delivery
again attempt answer rest = record rest {
  seen = answer ∷ rest.seen;
  slept = backoff attempt + rest.slept;
}

abbrev stop : Bool → String → Answer → Delivery
stop is_delivered metric answer = record {
  is_delivered = is_delivered;
  metric = metric;
  seen = answer ∷ [];
  slept = 0;
}

-- one turn of the loop, with what the later turns give
unfoldable pub after_answer : ℕ → Answer → Delivery → Delivery
after_answer attempt unreachable rest = again attempt unreachable rest
after_answer attempt (answered status) rest =
    if ltb status 400
    then stop true "delivered" (answered status)
    else if ltb status 500
    then stop false "rejected" (answered status)
    else again attempt (answered status) rest

unfoldable pub attempts : ℕ → ℕ → (ℕ → Answer) → Delivery
attempts zero attempt answers = record {
  is_delivered = false;
  metric = "failed";
  seen = [];
  slept = 0;
}
attempts (suc left) attempt answers =
    after_answer attempt (answers attempt) (attempts left (suc attempt) answers)

-- `deliver`
unfoldable pub deliver : (ℕ → Answer) → Delivery
deliver answers = attempts max_attempts 0 answers
