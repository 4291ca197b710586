-- ===== src/Evidence/Redactor.antt =====
-- JSON values, and backend/app/ai/evidence_redactor.py over them. What Python's `re` and `str.lower`
-- make of a text is a parameter.
use Prim.Native.Char.{code}
use ai_kubernetes_troublesho.Prelude.{
  ℕ, zero, suc, String, Bool, true, false, ◌&&◌, ◌||◌, List, [], ◌∷◌, any, nat_eq, ◌==◌,
  if◌then◌else◌,
}

mutual
  pub data Json : Type 0 where
    null : Json
    bool : Bool → Json
    -- a number, as it is written
    num : String → Json
    text : String → Json
    arr : Items → Json
    obj : Fields → Json

  pub data Items : Type 0 where
    end : Items
    item : Json → Items → Items

  pub data Fields : Type 0 where
    close : Fields
    field : String → Json → Fields → Fields

-- `SENSITIVE_KEYWORDS`
abbrev pub sensitive_keywords : List String
sensitive_keywords =
    "authorization" ∷ "bearer" ∷ "client-key-data" ∷ "password" ∷ "secret" ∷ "token" ∷ "api_key"
    ∷ "apikey" ∷ "access_key" ∷ "private_key" ∷ []

-- how many patterns `SENSITIVE_PATTERNS` and `SHAPE_PATTERNS` hold
abbrev pub pattern_count : ℕ
pattern_count = 11

abbrev pub starts_with : String → String → Bool
starts_with String.[] t = true
starts_with (String.◌∷◌ c s) String.[] = false
starts_with (String.◌∷◌ c s) (String.◌∷◌ d t) = code c == code d && starts_with s t

-- `s in t` on texts
unfoldable pub occurs : String → String → Bool
occurs s String.[] = starts_with s String.[]
occurs s (String.◌∷◌ c t) = starts_with s (String.◌∷◌ c t) || occurs s t

abbrev pub mark : String
mark = "[REDACTED]"

-- What Python makes of texts: `re` for one pattern of the source, named by its place among the
-- patterns there, and `str.lower`.
pub record PyText : Type 0 where
  pub sub : ℕ → String → String
  pub lower : String → String

module _ (py : PyText) where
  -- `_sensitive_key`
  unfoldable pub is_sensitive_key : String → Bool
  is_sensitive_key key =
      let lowered = py.lower key in any (λ word. occurs word lowered) sensitive_keywords

  -- The patterns are substituted one after the other, in the order of the source.
  abbrev substitute : ℕ → ℕ → String → String
  substitute n zero value = value
  substitute n (suc left) value = substitute (suc n) left (py.sub n value)

  -- `_redact_string`
  unfoldable pub redact_string : String → String
  redact_string value = substitute 0 pattern_count value

  -- `redact`
  unfoldable mutual
    pub redact : Json → Json
    redact null = null
    redact (bool b) = bool b
    redact (num n) = num n
    redact (text s) = text (redact_string s)
    redact (arr items) = arr (redact_items items)
    redact (obj fields) = obj (redact_fields fields)

    pub redact_items : Items → Items
    redact_items end = end
    redact_items (item value items) = item (redact value) (redact_items items)

    pub redact_fields : Fields → Fields
    redact_fields close = close
    redact_fields (field key value fields) =
        field key (if is_sensitive_key key then text mark else redact value) (redact_fields fields)
