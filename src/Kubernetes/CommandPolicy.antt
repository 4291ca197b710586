-- ===== src/Kubernetes/CommandPolicy.antt =====
-- backend/app/kubernetes/command_policy.py: which kubectl commands only read. A command is a text,
-- and what is refused is a value in place of the text of `UnsafeKubectlCommand`.
use Prim.Native.Char.{code}
use ai_kubernetes_troublesho.Prelude.{
  ℕ, String, Bool, not, ◌&&◌, ◌||◌, Option, none, some, List, [], ◌∷◌, leb, nat_eq, ◌==◌, string_eq,
  contains, keep, if◌then◌else◌,
}
use ai_kubernetes_troublesho.Prelude.Text.{strip, is_space}
use ai_kubernetes_troublesho.Prelude.Dict.{Dict, get}
use ai_kubernetes_troublesho.Evidence.Redactor.{starts_with}

-- `READ_ONLY_VERBS` and `ALLOWED_SUBCOMMANDS`
abbrev pub read_only_verbs : List String
read_only_verbs =
    "api-resources" ∷ "api-versions" ∷ "auth" ∷ "cluster-info" ∷ "config" ∷ "describe" ∷ "events"
    ∷ "explain" ∷ "get" ∷ "logs" ∷ "rollout" ∷ "top" ∷ "version" ∷ []

abbrev pub allowed_subcommands : Dict String (List String)
allowed_subcommands =
    ("auth", "can-i" ∷ "whoami" ∷ [])
    ∷ ("config", "current-context" ∷ "get-contexts" ∷ "get-clusters" ∷ "view" ∷ [])
    ∷ ("rollout", "status" ∷ "history" ∷ [])
    ∷ []

pub data CommandClass : Type 0 where
  read_only mutating unrecognised : CommandClass

pub data UnsafeKubectlCommand : Type 0 where
  no_arguments : UnsafeKubectlCommand
  verb_refused : String → UnsafeKubectlCommand
  subcommand_refused : String → String → UnsafeKubectlCommand

abbrev first_or_blank : List String → String
first_or_blank [] = ""
first_or_blank (s ∷ rest) = s

abbrev pub check_subcommand : String → String → Option (List String) → Option UnsafeKubectlCommand
check_subcommand verb subcommand none = none
check_subcommand verb subcommand (some allowed) =
    if contains subcommand allowed then none else some (subcommand_refused verb subcommand)

-- `assert_read_only`: what it raises, if it does
unfoldable pub assert_read_only : List String → Option UnsafeKubectlCommand
assert_read_only [] = some no_arguments
assert_read_only (verb ∷ rest) =
    if contains verb read_only_verbs
    then check_subcommand verb (first_or_blank rest) (get verb allowed_subcommands)
    else some (verb_refused verb)

-- `str.splitlines()[0]` of a text that is not empty
abbrev is_line_end : ℕ → Bool
is_line_end c = leb 10 c && leb c 13 || leb 28 c && leb c 30 || c == 133 || c == 8232 || c == 8233

unfoldable pub first_line : String → String
first_line String.[] = String.[]
first_line (String.◌∷◌ c s) =
    let rest = first_line s in if is_line_end (code c) then String.[] else String.◌∷◌ c rest

-- `str.split()`
unfoldable pub pieces : String → List String
pieces String.[] = "" ∷ []
pieces (String.◌∷◌ c s) =
    let rest = pieces s in
    if is_space (code c)
    then "" ∷ rest
    else elim rest [ [] ↦ String.◌∷◌ c "" ∷ [] | word ∷ words ↦ String.◌∷◌ c word ∷ words ]

abbrev pub split : String → List String
split s = keep (λ word. not (word == "")) (pieces s)

-- `text[len(prefix):]`
abbrev pub drop_prefix : String → String → String
drop_prefix String.[] s = s
drop_prefix (String.◌∷◌ c prefix) String.[] = String.[]
drop_prefix (String.◌∷◌ c prefix) (String.◌∷◌ d s) = drop_prefix prefix s

abbrev class_of : Option UnsafeKubectlCommand → CommandClass
class_of none = read_only
class_of (some refusal) = mutating

abbrev classify_args : List String → CommandClass
classify_args [] = unrecognised
classify_args (verb ∷ rest) = class_of (assert_read_only (verb ∷ rest))

-- the words of an invocation that do not begin with a dash
abbrev pub args_of : String → List String
args_of first = keep (λ part. not (starts_with "-" part)) (split (drop_prefix "kubectl " first))

-- `classify_command`
unfoldable pub classify_command : String → CommandClass
classify_command command =
    let stripped = strip command in
    let first = strip (first_line stripped) in
    if stripped == ""
    then unrecognised
    else if starts_with "kubectl " first
    then classify_args (args_of first)
    else unrecognised
