-- ===== src/Enrolment.antt =====
-- backend/app/security/enrolment.py: `FileEnrolmentStore`, with the check of cluster ids from
-- backend/app/security/identity.py. A minted token (`secrets`) and the time are arguments, `hash`
-- is SHA-256 and may be any function here. The lock makes each method one step. The JSON of the
-- file and its atomic replacement are not modelled: a time that is written is read back as it was.
pub mod Tokens
pub mod Issue
pub mod Revocation
mod Examples
use Prim.Native.Char.{code}
use ai_kubernetes_troublesho.Prelude.{
  ℕ, suc, ◌+◌, ◌*◌, String, Bool, true, false, not, ◌&&◌, ◌||◌, Option, none, some, List, [], ◌∷◌,
  map, leb, ◌==◌, string_eq, nat_eq, keep, count, is_some, if◌then◌else◌,
}
use ai_kubernetes_troublesho.Prelude.Dict.{Dict, get, put}
use ai_kubernetes_troublesho.Prelude.Sort.{sorted}
use ai_kubernetes_troublesho.Prelude.Exec.{Result, ok, raised}

-- a row of `tokens` and of `certificates` in the file
pub record Token : Type 0 where
  pub cluster_id : String
  pub created_at : ℕ
  pub expires_at : ℕ
  pub consumed_at : Option ℕ

pub record Certificate : Type 0 where
  pub cluster_id : String
  pub issued_at : ℕ
  pub expires_at : ℕ
  pub revoked_at : Option ℕ
  pub revoked_reason : String

pub record Content : Type 0 where
  pub tokens : Dict String Token
  pub certificates : Dict String Certificate

pub data Disk : Type 0 where
  missing unreadable : Disk
  holding : Content → Disk

pub data Failure : Type 0 where
  invalid_cluster_id unreadable_store : Failure

abbrev pub empty : Content
empty = record { tokens = []; certificates = [] }

-- `_read`
abbrev pub read : Disk → Result Failure Content
read missing = ok empty
read unreadable = raised unreadable_store
read (holding content) = ok content

-- A method reads the file, answers, and writes the file if it has changed it.
abbrev pub settle {ℓ} : {A : Type ℓ} → A × Option Content → Disk → Result Failure A × Disk
settle (answer, none) disk = (ok answer, disk)
settle (answer, some content) disk = (ok answer, holding content)

abbrev pub on_content {ℓ} :
    {A : Type ℓ} → (Content → A × Option Content) → Disk → Result Failure A × Disk
on_content method missing = settle (method empty) missing
on_content method unreadable = (raised unreadable_store, unreadable)
on_content method (holding content) = settle (method content) (holding content)

-- `CLUSTER_ID`: `[a-zA-Z0-9][a-zA-Z0-9._-]{0,126}`
abbrev is_alphanumeric : ℕ → Bool
is_alphanumeric c = leb 48 c && leb c 57 || (leb 65 c && leb c 90 || leb 97 c && leb c 122)

abbrev is_id_character : ℕ → Bool
is_id_character c = is_alphanumeric c || (c == 45 || (c == 46 || c == 95))

unfoldable pub is_id_tail : ℕ → String → Bool
is_id_tail room String.[] = true
is_id_tail ℕ.zero (String.◌∷◌ c s) = false
is_id_tail (suc room) (String.◌∷◌ c s) = is_id_character (code c) && is_id_tail room s

unfoldable pub valid_cluster_id : String → Bool
valid_cluster_id String.[] = false
valid_cluster_id (String.◌∷◌ c s) = is_alphanumeric (code c) && is_id_tail 126 s

module _ (hash : String → String) where
  abbrev pub new_token : String → ℕ → ℕ → Token
  new_token cluster_id ttl now = record {
    cluster_id = cluster_id;
    created_at = now;
    expires_at = now + ttl;
    consumed_at = none;
  }

  abbrev pub stored_token : String → String → ℕ → ℕ → Content → String × Option Content
  stored_token token cluster_id ttl now content = (
    token,
    some (record content {
      tokens = put (hash token) (new_token cluster_id ttl now) content.tokens;
    }),
  )

  -- `issue_token`: answers the token, which `mint_token` made
  unfoldable pub issue_token : String → String → ℕ → ℕ → Disk → Result Failure String × Disk
  issue_token token cluster_id ttl now disk =
      if valid_cluster_id cluster_id
      then on_content (stored_token token cluster_id ttl now) disk
      else (raised invalid_cluster_id, disk)

  -- `spend_token`: the cluster of the token, or nothing. It asks for the time twice.
  abbrev pub spend_row : String → ℕ → ℕ → Content → Option Token → Option String × Option Content
  spend_row digest now later content none = (none, none)
  spend_row digest now later content (some row) =
      if is_some row.consumed_at
      then (none, none)
      else if leb row.expires_at now
      then (none, none)
      else (
        some row.cluster_id,
        some (record content {
          tokens = put digest (record row { consumed_at = some later }) content.tokens;
        }),
      )

  abbrev pub spend_content : String → ℕ → ℕ → Content → Option String × Option Content
  spend_content token now later content =
      spend_row (hash token) now later content (get (hash token) content.tokens)

  unfoldable pub spend_token : String → ℕ → ℕ → Disk → Result Failure (Option String) × Disk
  spend_token token now later disk = on_content (spend_content token now later) disk

-- `tokens`: of one cluster, or of all where no cluster is named; the newest first
unfoldable pub tokens : String → Disk → Result Failure (List (String × Token)) × Disk
tokens cluster_id disk =
    on_content
      (λ content. (
        sorted (λ a b. leb b.1.created_at a.1.created_at)
            (keep (λ entry. cluster_id == "" || entry.1.cluster_id == cluster_id) content.tokens),
        none,
      ))
      disk

abbrev pub new_certificate : String → ℕ → ℕ → Certificate
new_certificate cluster_id expires_at now = record {
  cluster_id = cluster_id;
  issued_at = now;
  expires_at = expires_at;
  revoked_at = none;
  revoked_reason = "";
}

unfoldable pub record_certificate :
    String → String → ℕ → ℕ → Disk → Result Failure Certificate × Disk
record_certificate serial cluster_id expires_at now disk =
    on_content
      (λ content. (
        new_certificate cluster_id expires_at now,
        some (record content {
          certificates =
              put serial (new_certificate cluster_id expires_at now) content.certificates;
        }),
      ))
      disk

abbrev pub revoked_row : String → ℕ → Certificate → Certificate
revoked_row reason now row = record row { revoked_at = some now; revoked_reason = reason }

-- `revoke_certificate`
abbrev pub revoke_row : String → String → ℕ → Content → Option Certificate → Bool × Option Content
revoke_row serial reason now content none = (false, none)
revoke_row serial reason now content (some row) =
    if is_some row.revoked_at then (false, none) else (
      true,
      some (record content {
        certificates = put serial (revoked_row reason now row) content.certificates;
      }),
    )

abbrev pub revoke_content : String → String → ℕ → Content → Bool × Option Content
revoke_content serial reason now content =
    revoke_row serial reason now content (get serial content.certificates)

unfoldable pub revoke_certificate : String → String → ℕ → Disk → Result Failure Bool × Disk
revoke_certificate serial reason now disk = on_content (revoke_content serial reason now) disk

-- `revoke_cluster`: every certificate of the cluster that is neither revoked nor expired
abbrev pub is_live : String → ℕ → Certificate → Bool
is_live cluster_id now row =
    row.cluster_id == cluster_id && (not (is_some row.revoked_at) && not (leb row.expires_at now))

unfoldable pub revoke_rows : String → String → ℕ → Dict String Certificate → Dict String Certificate
revoke_rows cluster_id reason now [] = []
revoke_rows cluster_id reason now ((serial, row) ∷ rows) =
    (serial, if is_live cluster_id now row then revoked_row reason now row else row)
    ∷ revoke_rows cluster_id reason now rows

abbrev pub revoke_all : String → String → ℕ → Content → ℕ × Option Content
revoke_all cluster_id reason now content =
    let revoked = count (λ entry. is_live cluster_id now entry.1) content.certificates in
    (
      revoked,
      if revoked == 0
          then none
          else some (record content {
            certificates = revoke_rows cluster_id reason now content.certificates;
          }),
    )

unfoldable pub revoke_cluster : String → String → ℕ → Disk → Result Failure ℕ × Disk
revoke_cluster cluster_id reason now disk = on_content (revoke_all cluster_id reason now) disk

unfoldable pub revoked_serials : Disk → Result Failure (List String) × Disk
revoked_serials disk =
    on_content
      (λ content. (
        map (λ entry. entry.0) (keep (λ entry. is_some entry.1.revoked_at) content.certificates),
        none,
      ))
      disk

unfoldable pub certificates : String → Disk → Result Failure (List (String × Certificate)) × Disk
certificates cluster_id disk =
    on_content
      (λ content. (
        sorted (λ a b. leb b.1.issued_at a.1.issued_at)
            (keep (λ entry. cluster_id == "" || entry.1.cluster_id == cluster_id)
              content.certificates),
        none,
      ))
      disk
