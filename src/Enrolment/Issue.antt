-- ===== src/Enrolment/Issue.antt =====
-- Enrolment tokens from their issue to their use.
use ai_kubernetes_troublesho.Prelude.{
  ℕ, ◌+◌, ◌<◌, ◌≡◌, ◌≢◌, refl, ◌∙◌, String, true, Option, none, some, List, [], ◌∷◌, arith,
  string_eq, nat_eq, eq_iff,
}
use ai_kubernetes_troublesho.Prelude.Dict.{get, get-put, get-put_self}
use ai_kubernetes_troublesho.Prelude.Exec.{ok}
use ai_kubernetes_troublesho.Enrolment.{
  Token, Certificate, Content, Disk, missing, unreadable, holding, empty, valid_cluster_id,
  issue_token, spend_token, spend_row, record_certificate, revoke_certificate, revoke_row,
  revoke_cluster, settle, new_token,
}
use ai_kubernetes_troublesho.Enrolment.Tokens.{
  Op, issue, spend, certify, revoke_one, revoke_all_of, row_of, apply, run,
}

module _ (hash : String → String) where
  -- The operation neither issues nor spends a token of that hash.
  abbrev pub Untouched : String → Op → Type 0
  Untouched digest (issue token cluster_id ttl now) = hash token ≢ digest
  Untouched digest (spend token now later) = hash token ≢ digest
  Untouched digest _ = Unit

  abbrev pub NoneTouched : String → List Op → Type 0
  NoneTouched digest [] = Unit
  NoneTouched digest (op ∷ ops) = Untouched digest op × NoneTouched digest ops

  spend_row_of :
      (digest own : String) (now later : ℕ) (content : Content) (row : Option Token)
      → own ≢ digest
      → row_of digest (settle (spend_row hash own now later content row) (holding content)).1
        ≡ get digest content.tokens
  spend_row_of digest own now later content none k = refl
  spend_row_of digest own now later content (some row) k =
      let spent = record row { consumed_at = some later } in
      ground (arith, eq_iff own digest, get-put own digest spent content.tokens)

  revoke_row_of :
      (serial reason : String) (now : ℕ) (digest : String) (content : Content)
      (row : Option Certificate)
      → row_of digest (settle (revoke_row serial reason now content row) (holding content)).1
        ≡ get digest content.tokens
  revoke_row_of serial reason now digest content none = refl
  revoke_row_of serial reason now digest content (some row) = ground arith

  row_of-apply :
      (op : Op) (digest : String) (content : Content)
      → Untouched digest op
      → row_of digest (apply hash op (holding content)) ≡ get digest content.tokens
  unfolding issue_token spend_token record_certificate revoke_certificate revoke_cluster
  row_of-apply (issue token cluster_id ttl now) digest content k = ground (
    arith,
    eq_iff (hash token) digest,
    get-put (hash token) digest (new_token hash cluster_id ttl now) content.tokens,
  )
  row_of-apply (spend token now later) digest content k =
      spend_row_of digest (hash token) now later content (get (hash token) content.tokens) k
  row_of-apply (certify serial cluster_id expires_at now) digest content k = refl
  row_of-apply (revoke_one serial reason now) digest content k =
      revoke_row_of serial reason now digest content (get serial content.certificates)
  row_of-apply (revoke_all_of cluster_id reason now) digest content k = ground arith

  step-row_of :
      (op : Op) (digest : String) (row : Token) (disk : Disk)
      → Untouched digest op
      → row_of digest disk ≡ some row
      → row_of digest (apply hash op disk) ≡ some row
  step-row_of op digest row missing k h = ground arith
  step-row_of op digest row unreadable k h = ground arith
  step-row_of op digest row (holding content) k h = row_of-apply op digest content k ∙ h

  row_of-run :
      (ops : List Op) (digest : String) (row : Token) (disk : Disk)
      → NoneTouched digest ops
      → row_of digest disk ≡ some row
      → row_of digest (run hash ops disk) ≡ some row
  unfolding run
  row_of-run [] digest row disk k h = h
  row_of-run (op ∷ ops) digest row disk k h =
      row_of-run ops digest row (apply hash op disk) k.1 (step-row_of op digest row disk k.0 h)

  row_of-issue_token :
      (token cluster_id : String) (ttl now : ℕ) (disk : Disk)
      → valid_cluster_id cluster_id ≡ true
      → disk ≢ unreadable
      → row_of (hash token) (issue_token hash token cluster_id ttl now disk).1
        ≡ some (new_token hash cluster_id ttl now)
  unfolding issue_token
  row_of-issue_token token cluster_id ttl now missing h k =
      rw h (get-put_self (hash token) (new_token hash cluster_id ttl now) empty.tokens)
  row_of-issue_token token cluster_id ttl now unreadable h k = absurd (k refl)
  row_of-issue_token token cluster_id ttl now (holding content) h k =
      rw h (get-put_self (hash token) (new_token hash cluster_id ttl now) content.tokens)

  accepted_row :
      (digest : String) (now later : ℕ) (content : Content) (found : Option Token) (row : Token)
      (disk : Disk)
      → found ≡ some row
      → row.consumed_at ≡ none
      → now < row.expires_at
      → (settle (spend_row hash digest now later content found) disk).0 ≡ ok (some row.cluster_id)
  accepted_row digest now later content none row disk e u l = ground arith
  accepted_row digest now later content (some found) row disk e u l = ground arith

  accepted :
      (token : String) (now later : ℕ) (row : Token) (disk : Disk)
      → row_of (hash token) disk ≡ some row
      → row.consumed_at ≡ none
      → now < row.expires_at
      → (spend_token hash token now later disk).0 ≡ ok (some row.cluster_id)
  unfolding spend_token
  accepted token now later row missing e u l = ground arith
  accepted token now later row unreadable e u l = ground arith
  accepted token now later row (holding content) e u l =
      accepted_row (hash token) now later content (get (hash token) content.tokens) row
        (holding content) e u l

  -- A token issued for a usable cluster id can be spent until its time is over, and names that
  -- cluster then, whatever happens to the file in between, as long as no token of the same hash is
  -- issued or spent. The file is one that can be read.
  pub issued_spends :
      (token cluster_id : String) (ttl now : ℕ) (disk : Disk) (ops : List Op) (now' later : ℕ)
      → valid_cluster_id cluster_id ≡ true
      → disk ≢ unreadable
      → NoneTouched (hash token) ops
      → now' < now + ttl
      → (spend_token hash token now' later
          (run hash ops (issue_token hash token cluster_id ttl now disk).1)).0
        ≡ ok (some cluster_id)
  issued_spends token cluster_id ttl now disk ops now' later h k untouched l =
      let row = new_token hash cluster_id ttl now in
      let issued = issue_token hash token cluster_id ttl now disk in
      accepted token now' later row (run hash ops issued.1)
        (row_of-run ops (hash token) row issued.1 untouched
          (row_of-issue_token token cluster_id ttl now disk h k))
        refl l
