-- ===== src/Playbooks/Examples.antt =====
-- The rounds of an investigation at concrete inputs: a playbook that plans one collector of the
-- baseline again and a new one, and one that raises.
use ai_kubernetes_troublesho.Prelude.{ℕ, ◌≡◌, refl, String, true, none, some, [], ◌∷◌, map}
use ai_kubernetes_troublesho.Evidence.{EvidenceStatus, new_store, cluster_ref, bare}
use ai_kubernetes_troublesho.Evidence.Redactor.{PyText}
use ai_kubernetes_troublesho.Prelude.Text.{lower}
use ai_kubernetes_troublesho.Collectors.{Collector}
use ai_kubernetes_troublesho.Collectors.Scheduler.{Behaviour, Context, collected}
use ai_kubernetes_troublesho.Playbooks.{Playbook, plan, plan_all, select, set_defaults, investigate}
use ai_kubernetes_troublesho.Playbooks.Once.{RanOnce, investigate-RanOnce}

abbrev collector : String → String → Collector
collector id kind = record { id = id; provides = kind ∷ []; requires = []; optional_requires = [] }

abbrev no_sub : PyText
no_sub = record { sub = λ n s. s; lower = lower }

abbrev context : Context
context = record {
  per_collector_timeout = 30;
  remaining = λ id. 10;
  cluster = cluster_ref none;
  seconds_text = λ n. "10";
  now = 7;
}

abbrev behaviour : Collector → Behaviour
behaviour c = record {
  applicable = λ store. some true;
  collect = λ store.
      collected (map (λ kind. bare kind EvidenceStatus.ok (cluster_ref none) "" c.id 7) c.provides);
  duration_ms = 4;
  oldest = none;
}

abbrev pods : Collector
pods = collector "pods" "pod"

abbrev logs : Collector
logs = collector "logs" "log"

abbrev restarts : Playbook ℕ
restarts = record {
  id = "restarts";
  applicable = λ analysis store. some true;
  plan = λ analysis store. some (pods ∷ logs ∷ logs ∷ []);
}

abbrev broken : Playbook ℕ
broken = record {
  id = "broken";
  applicable = λ analysis store. some true;
  plan = λ analysis store. none;
}

investigate-RanOnce_example : RanOnce 2 (pods ∷ []) "logs" (
    investigate no_sub behaviour context
      (broken ∷ restarts ∷ [])
      (λ store. 0)
      (λ analysis. [])
      (λ n. 10)
      2
      (pods ∷ [])
      new_store)
investigate-RanOnce_example =
    investigate-RanOnce no_sub behaviour context (broken ∷ restarts ∷ []) (λ store. 0)
      (λ analysis. []) (λ n. 10) 2 (pods ∷ []) "logs" new_store

only_what_is_new_is_planned :
    plan (broken ∷ restarts ∷ []) 0 new_store ("pods" ∷ [])
    ≡ record { collectors = logs ∷ []; selected = "restarts" ∷ [] }
unfolding plan plan_all select set_defaults
only_what_is_new_is_planned = refl
