-- ===== src/Notify/Examples.antt =====
-- Announcements at concrete inputs.
use ai_kubernetes_troublesho.Prelude.{
  ℕ, zero, suc, ◌≤◌, ◌≡◌, refl, String, true, ◌||◌, [], ◌∷◌, any, length, nat_eq, ◌==◌,
}
use ai_kubernetes_troublesho.Prelude.Text.{lower}
use ai_kubernetes_troublesho.Notify.{
  Answer, answered, unreachable, after_answer, attempts, deliver, Destination, accepts,
  announced_to,
}
use ai_kubernetes_troublesho.Notify.Retries.{Stops, is_final, deliver-Stops}

-- no connection, then a server error, then an answer that all is well
abbrev recovering : ℕ → Answer
recovering zero = unreachable
recovering (suc zero) = answered 503
recovering (suc (suc n)) = answered 204

deliver-Stops_example :
    Stops (deliver recovering).seen (deliver recovering).is_delivered
    × (length (deliver recovering).seen ≤ 3)
    × ((any is_final (deliver recovering).seen || length (deliver recovering).seen == 3) ≡ true)
    × ((deliver recovering).slept ≤ 2500)
deliver-Stops_example = deliver-Stops recovering

the_third_post_succeeds : deliver recovering ≡ record {
  is_delivered = true;
  metric = "delivered";
  seen = unreachable ∷ answered 503 ∷ answered 204 ∷ [];
  slept = 2500;
}
unfolding deliver attempts after_answer
the_third_post_succeeds = refl

abbrev oncall : String → Destination
oncall tenant = record {
  name = "oncall";
  url = "https://hooks.example.com";
  secret = "";
  tenant = tenant;
  min_severity = "high";
  outcomes = "succeeded" ∷ [];
}

only_the_own_tenant_hears :
    announced_to "acme" "succeeded" "Critical" (oncall "acme" ∷ oncall "globex" ∷ [])
    ≡ oncall "acme" ∷ []
unfolding announced_to accepts lower
only_the_own_tenant_hears = refl

low_is_not_announced : announced_to "acme" "succeeded" "low" (oncall "acme" ∷ []) ≡ []
unfolding announced_to accepts lower
low_is_not_announced = refl
