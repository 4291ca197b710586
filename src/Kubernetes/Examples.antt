-- ===== src/Kubernetes/Examples.antt =====
-- The guards of cluster reads at concrete inputs.
use ai_kubernetes_troublesho.Prelude.{◌≡◌, refl, arith}
use ai_kubernetes_troublesho.Prelude.Dict.{get}
use ai_kubernetes_troublesho.Prelude.Text.{strip, is_space}
use ai_kubernetes_troublesho.Evidence.Redactor.{Json, num, arr, obj, end, item, close, field}
use ai_kubernetes_troublesho.Kubernetes.ListLimit.{cap_items, Capped, cap_items-Capped}
use ai_kubernetes_troublesho.Kubernetes.CommandPolicy.{
  classify_command, assert_read_only, read_only, mutating, unrecognised, first_line, pieces,
}

abbrev three : Json
three = obj (
    field "kind" (num "1")
      (field "items" (arr (item (num "1") (item (num "2") (item (num "3") end)))) close))

cap_items-Capped_example : Capped three "kubectl get pods" 2 (cap_items three "kubectl get pods" 2)
cap_items-Capped_example = cap_items-Capped three "kubectl get pods" 2 (omega arith)

getting_reads : classify_command "kubectl get pods" ≡ read_only
unfolding classify_command assert_read_only first_line pieces get strip is_space
getting_reads = refl

undoing_mutates : classify_command " kubectl rollout undo deploy/web" ≡ mutating
unfolding classify_command assert_read_only first_line pieces get strip is_space
undoing_mutates = refl

other_programs_are_not_recognised : classify_command "helm upgrade web" ≡ unrecognised
unfolding classify_command assert_read_only first_line pieces get strip is_space
other_programs_are_not_recognised = refl

-- The value of a flag is taken for the verb.
a_namespace_hides_the_verb : classify_command "kubectl -n get delete pod web" ≡ read_only
unfolding classify_command assert_read_only first_line pieces get strip is_space
a_namespace_hides_the_verb = refl
