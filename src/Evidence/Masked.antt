-- ===== src/Evidence/Masked.antt =====
-- What redaction leaves of a JSON value: no sensitive key keeps its value, at any depth.
use ai_kubernetes_troublesho.Prelude.{
  ◌≡◌, refl, String, Bool, true, false, ◌&&◌, Option, none, some, Bool-cases, inl, inr,
  if◌then◌else◌, ◌==◌, string_eq,
}
use ai_kubernetes_troublesho.Evidence.Redactor.{
  PyText, Json, null, bool, num, text, arr, obj, Items, end, item, Fields, close, field, mark,
  redact, redact_items, redact_fields, is_sensitive_key,
}

abbrev is_mark : Json → Bool
is_mark (text s) = s == mark
is_mark _ = false

and_true : (a b : Bool) → a ≡ true → b ≡ true → (a && b) ≡ true
and_true a b p q = rw (p, q) refl

module _ (py : PyText) where
  -- Every value under a sensitive key is the mark.
  unfoldable mutual
    pub is_masked : Json → Bool
    is_masked (arr items) = all_masked items
    is_masked (obj fields) = fields_masked fields
    is_masked null = true
    is_masked (bool b) = true
    is_masked (num n) = true
    is_masked (text s) = true

    all_masked : Items → Bool
    all_masked end = true
    all_masked (item value items) = is_masked value && all_masked items

    fields_masked : Fields → Bool
    fields_masked close = true
    fields_masked (field key value fields) =
        (if is_sensitive_key py key then is_mark value else is_masked value) && fields_masked fields

  field_masked :
      (key : String) (value : Json)
      → is_masked value ≡ true
      → (if is_sensitive_key py key
          then is_mark (if is_sensitive_key py key then text mark else value)
          else is_masked (if is_sensitive_key py key then text mark else value))
        ≡ true
  field_masked key value h = elim (Bool-cases (is_sensitive_key py key)) [
    | inl p ↦ rw p refl
    | inr p ↦ rw p h
  ]

  mutual
    unfolding is_masked all_masked fields_masked redact redact_items redact_fields

    masked_value : (value : Json) → is_masked (redact py value) ≡ true
    masked_value null = refl
    masked_value (bool b) = refl
    masked_value (num n) = refl
    masked_value (text s) = refl
    masked_value (arr items) = masked_items items
    masked_value (obj fields) = masked_fields fields

    masked_items : (items : Items) → all_masked (redact_items py items) ≡ true
    masked_items end = refl
    masked_items (item value items) =
        and_true (is_masked (redact py value)) (all_masked (redact_items py items))
          (masked_value value) (masked_items items)

    masked_fields : (fields : Fields) → fields_masked (redact_fields py fields) ≡ true
    masked_fields close = refl
    masked_fields (field key value fields) =
        and_true _ (fields_masked (redact_fields py fields))
          (field_masked key (redact py value) (masked_value value)) (masked_fields fields)

  -- Redaction leaves the mark under every sensitive key, at any depth.
  pub redact-masked : (value : Json) → is_masked (redact py value) ≡ true
  redact-masked value = masked_value value

  -- A record that carries no payload, or one that is masked.
  abbrev pub payload_masked : Option Json → Bool
  payload_masked none = true
  payload_masked (some value) = is_masked value
