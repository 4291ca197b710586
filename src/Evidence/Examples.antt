-- ===== src/Evidence/Examples.antt =====
-- The evidence store and the redactor at concrete inputs.
use ai_kubernetes_troublesho.Prelude.{
  ◌≡◌, refl, String, true, false, Option, none, some, List, [], ◌∷◌,
}
use ai_kubernetes_troublesho.Prelude.Dict.{get, put}
use ai_kubernetes_troublesho.Prelude.Text.{lower}
use ai_kubernetes_troublesho.Evidence.{
  Evidence, EvidenceStatus, new_store, bare, by_kind, extend, add, values_of, has, ResourceRef,
  evidence_id, key_of,
}
use ai_kubernetes_troublesho.Evidence.Redactor.{
  PyText, Json, text, num, arr, obj, item, end, field, close, redact, redact_items, redact_fields,
  occurs, is_sensitive_key, mark,
}
use ai_kubernetes_troublesho.Evidence.Index.{of_kind, by_kind-eq-of_kind}
use ai_kubernetes_troublesho.Evidence.Masked.{is_masked, redact-masked}

abbrev pod : String → ResourceRef
pod name = record { kind = "Pod"; name = name; namespace = some "shop"; uid = none }

abbrev batch : List Evidence
batch =
    bare "log" EvidenceStatus.ok (pod "web") "" "logs" 1
    ∷ bare "pod" EvidenceStatus.forbidden (pod "web") "" "pods" 2
    ∷ bare "log" EvidenceStatus.ok (pod "db") "" "logs" 3
    -- an id that is there already
    ∷ bare "log" EvidenceStatus.failed (pod "web") "" "logs" 4
    ∷ []

by_kind-eq-of_kind_example :
    by_kind "log" (extend batch new_store)
    ≡ some (of_kind "log" (values_of (extend batch new_store).items))
by_kind-eq-of_kind_example = by_kind-eq-of_kind batch "log"

abbrev logs_found : Option (List Evidence)
logs_found = by_kind "log" (extend batch new_store)

the_first_record_stays :
    logs_found
    ≡ some (
        bare "log" EvidenceStatus.ok (pod "web") "" "logs" 1
        ∷ bare "log" EvidenceStatus.ok (pod "db") "" "logs" 3
        ∷ [])
unfolding by_kind extend add evidence_id key_of bare get put lower
the_first_record_stays = refl

forbidden_is_not_usable : has "pod" (extend batch new_store) ≡ false
unfolding has by_kind extend add evidence_id key_of bare get put lower
forbidden_is_not_usable = refl

abbrev no_sub : PyText
no_sub = record { sub = λ n s. s; lower = lower }

abbrev secret : Json
secret = obj (
    field "spec"
      (arr (item (obj (field "DB_PASSWORD" (arr (item (text "hunter2") end)) close)) end))
      (field "replicas" (num "3") close))

redact-masked_example : is_masked no_sub (redact no_sub secret) ≡ true
redact-masked_example = redact-masked no_sub secret

the_password_is_gone :
    redact no_sub secret
    ≡ obj (
        field "spec"
          (arr (item (obj (field "DB_PASSWORD" (text mark) close)) end))
          (field "replicas" (num "3") close))
unfolding redact redact_items redact_fields is_sensitive_key occurs lower
the_password_is_gone = refl
