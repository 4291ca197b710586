-- ===== src/Alerts/Examples.antt =====
-- Alerts at concrete inputs.
use ai_kubernetes_troublesho.Prelude.{
  ◌≡◌, ◌≢◌, refl, String, true, false, none, some, [], ◌∷◌, ℕ, arith, string_eq, eq_iff,
}
use ai_kubernetes_troublesho.Prelude.Dict.{Dict, get, put}
use ai_kubernetes_troublesho.Prelude.Text.{strip}
use ai_kubernetes_troublesho.Alerts.{
  Payload, Labels, claim, forget, parse_alertmanager, add_triggers, first_label, merge,
}
use ai_kubernetes_troublesho.Alerts.Cooldown.{
  after_claims, claim_cools, AllNamed, parse_alertmanager-AllNamed,
}

abbrev ledger : Dict String ℕ
ledger = ("disk", 1000) ∷ []

granted : (claim "oom" 300 2000 ledger).0 ≡ true
unfolding claim forget get
granted = refl

claim_cools_example :
    (claim "oom" 300 301999 (
      after_claims 300 (("disk", 301500) ∷ ("oom", 301600) ∷ []) (claim "oom" 300 2000 ledger).1)).0
    ≡ false
claim_cools_example =
    claim_cools 300 "oom" 2000 301999 (("disk", 301500) ∷ ("oom", 301600) ∷ []) ledger granted
      (omega arith, (omega arith, tt)) (omega arith)

-- one firing alert, one that is resolved, one that names no cluster
abbrev payload : Payload
payload = record {
  alerts = some (
      some (record {
        status = "firing";
        labels = some (("alertname", "PodOom") ∷ ("k8s_cluster", " prod ") ∷ []);
        fingerprint = none;
      })
      ∷ some (record { status = "resolved"; labels = none; fingerprint = some "f2" })
      ∷ some (record { status = "firing"; labels = none; fingerprint = some "f3" })
      ∷ none
      ∷ []);
  common_labels = some (("severity", "page") ∷ []);
}

abbrev digest : Labels → String
digest labels = "d1"

one_trigger :
    parse_alertmanager digest payload
    ≡ record {
      fingerprint = "d1";
      cluster = "prod";
      namespace = "";
      alert_name = "PodOom";
      severity = "page";
    }
      ∷ []
unfolding parse_alertmanager add_triggers first_label merge get put strip
one_trigger = refl

digest_is_not_blank : (labels : Labels) → digest labels ≢ ""
digest_is_not_blank labels = λ e. ground (arith, eq_iff (digest labels) "")

parse_alertmanager-AllNamed_example : AllNamed digest (parse_alertmanager digest payload)
parse_alertmanager-AllNamed_example = parse_alertmanager-AllNamed digest payload digest_is_not_blank
