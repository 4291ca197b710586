-- ===== src/Alerts.antt =====
-- backend/app/events/alerts.py: the firing alerts of an Alertmanager webhook, and the ledger of a
-- single process that keeps one alert from starting an investigation over and over. A webhook body
-- is modelled after its types were checked: labels are texts, and a part that is missing or of
-- another type is absent. `digest` is the SHA-256 of the sorted labels, and may be any function
-- here. A time is a number of milliseconds. The Redis ledger asks the bus, which is not modelled.
pub mod Cooldown
mod Examples
use Prim.Native.String.{◌++◌}
use ai_kubernetes_troublesho.Prelude.{
  ℕ, ◌+◌, ◌*◌, String, Bool, true, false, ◌&&◌, Option, none, some, List, [], ◌∷◌, ltb, ◌==◌,
  string_eq, keep, length, if◌then◌else◌,
}
use ai_kubernetes_troublesho.Prelude.Dict.{Dict, get, put}
use ai_kubernetes_troublesho.Prelude.Text.{strip}

-- `CLUSTER_LABELS` and `NAMESPACE_LABELS`
abbrev pub cluster_labels : List String
cluster_labels = "cluster" ∷ "cluster_name" ∷ "kubernetes_cluster" ∷ "k8s_cluster" ∷ []

abbrev pub namespace_labels : List String
namespace_labels = "namespace" ∷ "exported_namespace" ∷ "kubernetes_namespace" ∷ []

pub record AlertTrigger : Type 0 where
  pub fingerprint : String
  pub cluster : String
  pub namespace : String
  pub alert_name : String
  pub severity : String

-- `describe`
unfoldable pub describe : AlertTrigger → String
describe trigger =
    let target =
      if trigger.namespace == ""
      then trigger.cluster
      else trigger.cluster ++ ("/" ++ trigger.namespace) in
    trigger.alert_name ++ (" on " ++ target)

abbrev pub Labels : Type 0
Labels = Dict String String

-- an entry of `alerts`
pub record Alert : Type 0 where
  pub status : String
  pub labels : Option Labels
  pub fingerprint : Option String

-- the body; an entry of `alerts` that is no object is absent
pub record Payload : Type 0 where
  pub alerts : Option (List (Option Alert))
  pub common_labels : Option Labels

abbrev pub or_blank : Option String → String
or_blank none = ""
or_blank (some text) = text

abbrev pub no_labels : Option Labels → Labels
no_labels none = []
no_labels (some labels) = labels

-- `_first_label`
unfoldable pub first_label : Labels → List String → String
first_label labels [] = ""
first_label labels (name ∷ names) =
    let value = strip (or_blank (get name labels)) in
    let rest = first_label labels names in if value == "" then rest else value

-- `{**common, **labels}`
unfoldable pub merge : Labels → Labels → Labels
merge common [] = common
merge common ((name, value) ∷ labels) = merge (put name value common) labels

-- `value or fallback`
abbrev or_text : String → String → String
or_text value fallback = if value == "" then fallback else value

module _ (digest : Labels → String) where
  abbrev pub fingerprint_of : Option String → Labels → String
  fingerprint_of fingerprint merged = or_text (strip (or_blank fingerprint)) (digest merged)

  abbrev pub trigger_of : Option String → Labels → AlertTrigger
  trigger_of fingerprint merged = record {
    fingerprint = fingerprint_of fingerprint merged;
    cluster = first_label merged cluster_labels;
    namespace = first_label merged namespace_labels;
    alert_name = or_text (or_blank (get "alertname" merged)) "alert";
    severity = or_blank (get "severity" merged);
  }

  -- the body of the loop, and the loop
  abbrev pub add_trigger : Labels → Option Alert → List AlertTrigger → List AlertTrigger
  add_trigger common none triggers = triggers
  add_trigger common (some alert) triggers =
      let merged = merge common (no_labels alert.labels) in
      if alert.status == "firing"
      then (if first_label merged cluster_labels == ""
          then triggers
          else trigger_of alert.fingerprint merged ∷ triggers)
      else triggers

  unfoldable pub add_triggers : Labels → List (Option Alert) → List AlertTrigger
  add_triggers common [] = []
  add_triggers common (alert ∷ alerts) = add_trigger common alert (add_triggers common alerts)

  unfoldable pub parse_alertmanager : Payload → List AlertTrigger
  parse_alertmanager payload = elim payload.alerts [
    | none ↦ []
    | some alerts ↦ add_triggers (no_labels payload.common_labels) alerts
  ]

-- `InMemoryTriggerLedger`: when each key was last claimed
abbrev pub Ledger : Type 0
Ledger = Dict String ℕ

abbrev pub ledger_limit : ℕ
ledger_limit = 10000

-- `now - at < cooldown_seconds`
abbrev pub is_cooling : ℕ → ℕ → ℕ → Bool
is_cooling cooldown now at = ltb now (at + cooldown * 1000)

unfoldable pub forget : ℕ → ℕ → Ledger → Ledger
forget cooldown now seen =
    if ltb ledger_limit (length seen)
    then keep (λ entry. is_cooling cooldown now entry.1) seen
    else seen

abbrev pub is_held : ℕ → ℕ → Option ℕ → Bool
is_held cooldown now none = false
is_held cooldown now (some last) = is_cooling cooldown now last

unfoldable pub claim : String → ℕ → ℕ → Ledger → Bool × Ledger
claim key cooldown now seen =
    let kept = forget cooldown now seen in
    if is_held cooldown now (get key kept) then (false, kept) else (true, put key now kept)
