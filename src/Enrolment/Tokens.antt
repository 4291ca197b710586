-- ===== src/Enrolment/Tokens.antt =====
-- The single use of enrolment tokens, over every sequence of operations on the file.
use ai_kubernetes_troublesho.Prelude.{
  ℕ, ◌≡◌, ◌≢◌, refl, String, true, Option, none, some, List, [], ◌∷◌, arith, string_eq, nat_eq,
  eq_iff, is_some,
}
use ai_kubernetes_troublesho.Prelude.Dict.{get, get-put}
use ai_kubernetes_troublesho.Prelude.Exec.{ok}
use ai_kubernetes_troublesho.Enrolment.{
  Token, Certificate, Content, Disk, missing, unreadable, holding, empty, issue_token, spend_token,
  spend_row, record_certificate, revoke_certificate, revoke_row, revoke_cluster, settle, new_token,
}

-- the operations on the file with their arguments
pub data Op : Type 0 where
  issue : String → String → ℕ → ℕ → Op
  spend : String → ℕ → ℕ → Op
  certify : String → String → ℕ → ℕ → Op
  revoke_one : String → String → ℕ → Op
  revoke_all_of : String → String → ℕ → Op

-- the row of a token
abbrev pub row_of : String → Disk → Option Token
row_of digest missing = none
row_of digest unreadable = none
row_of digest (holding content) = get digest content.tokens

module _ (hash : String → String) where
  abbrev pub apply : Op → Disk → Disk
  apply (issue token cluster_id ttl now) disk = (issue_token hash token cluster_id ttl now disk).1
  apply (spend token now later) disk = (spend_token hash token now later disk).1
  apply (certify serial cluster_id expires_at now) disk =
      (record_certificate serial cluster_id expires_at now disk).1
  apply (revoke_one serial reason now) disk = (revoke_certificate serial reason now disk).1
  apply (revoke_all_of cluster_id reason now) disk = (revoke_cluster cluster_id reason now disk).1

  unfoldable pub run : List Op → Disk → Disk
  run [] disk = disk
  run (op ∷ ops) disk = run ops (apply op disk)

  -- No token of that hash is issued.
  abbrev pub NotIssued : String → Op → Type 0
  NotIssued digest (issue token cluster_id ttl now) = hash token ≢ digest
  NotIssued digest _ = Unit

  abbrev pub NoneIssued : String → List Op → Type 0
  NoneIssued digest [] = Unit
  NoneIssued digest (op ∷ ops) = NotIssued digest op × NoneIssued digest ops

  abbrev Spent : Option Token → Type 0
  Spent none = ⊥
  Spent (some row) = is_some row.consumed_at ≡ true

  spend_row-Spent :
      (digest own : String) (now later : ℕ) (content : Content) (row : Option Token)
      → get own content.tokens ≡ row
      → Spent (get digest content.tokens)
      → Spent
          (row_of digest (settle (spend_row hash own now later content row) (holding content)).1)
  spend_row-Spent digest own now later content none e h = h
  spend_row-Spent digest own now later content (some row) e h =
      let spent = record row { consumed_at = some later } in
      ground (arith, get-put own digest spent content.tokens)

  revoke_row-Spent :
      (serial reason : String) (now : ℕ) (digest : String) (content : Content)
      (row : Option Certificate)
      → Spent (get digest content.tokens)
      → Spent
          (row_of digest (settle (revoke_row serial reason now content row) (holding content)).1)
  revoke_row-Spent serial reason now digest content none h = h
  revoke_row-Spent serial reason now digest content (some row) h = ground arith

  apply-Spent :
      (op : Op) (digest : String) (disk : Disk)
      → NotIssued digest op
      → Spent (row_of digest disk)
      → Spent (row_of digest (apply op disk))
  unfolding issue_token spend_token record_certificate revoke_certificate revoke_cluster
  apply-Spent op digest missing k h = absurd h
  apply-Spent op digest unreadable k h = absurd h
  apply-Spent (issue token cluster_id ttl now) digest (holding content) k h = ground (
    arith,
    eq_iff (hash token) digest,
    get-put (hash token) digest (new_token hash cluster_id ttl now) content.tokens,
  )
  apply-Spent (spend token now later) digest (holding content) k h =
      spend_row-Spent digest (hash token) now later content (get (hash token) content.tokens) refl h
  apply-Spent (certify serial cluster_id expires_at now) digest (holding content) k h = h
  apply-Spent (revoke_one serial reason now) digest (holding content) k h =
      revoke_row-Spent serial reason now digest content (get serial content.certificates) h
  apply-Spent (revoke_all_of cluster_id reason now) digest (holding content) k h = ground arith

  run-Spent :
      (ops : List Op) (digest : String) (disk : Disk)
      → NoneIssued digest ops
      → Spent (row_of digest disk)
      → Spent (row_of digest (run ops disk))
  unfolding run
  run-Spent [] digest disk k h = h
  run-Spent (op ∷ ops) digest disk k h =
      run-Spent ops digest (apply op disk) k.1 (apply-Spent op digest disk k.0 h)

  spends :
      (digest : String) (now later : ℕ) (content : Content) (row : Option Token)
      (cluster_id : String) (disk : Disk)
      → (settle (spend_row hash digest now later content row) disk).0 ≡ ok (some cluster_id)
      → Spent (row_of digest (settle (spend_row hash digest now later content row) disk).1)
  spends digest now later content none cluster_id disk h = ground arith
  spends digest now later content (some row) cluster_id disk h =
      let spent = record row { consumed_at = some later } in
      ground (arith, eq_iff digest digest, get-put digest digest spent content.tokens)

  spend-Spent :
      (token : String) (now later : ℕ) (disk : Disk) (cluster_id : String)
      → (spend_token hash token now later disk).0 ≡ ok (some cluster_id)
      → Spent (row_of (hash token) (spend_token hash token now later disk).1)
  unfolding spend_token
  spend-Spent token now later missing cluster_id h =
      spends (hash token) now later empty (get (hash token) empty.tokens) cluster_id missing h
  spend-Spent token now later unreadable cluster_id h = ground arith
  spend-Spent token now later (holding content) cluster_id h =
      spends (hash token) now later content (get (hash token) content.tokens) cluster_id
        (holding content) h

  refused_row :
      (digest : String) (now later : ℕ) (content : Content) (row : Option Token) (disk : Disk)
      → Spent row
      → (settle (spend_row hash digest now later content row) disk).0 ≡ ok none
  refused_row digest now later content none disk h = absurd h
  refused_row digest now later content (some row) disk h = ground arith

  Spent-refused :
      (token : String) (now later : ℕ) (disk : Disk)
      → Spent (row_of (hash token) disk)
      → (spend_token hash token now later disk).0 ≡ ok none
  unfolding spend_token
  Spent-refused token now later missing h = absurd h
  Spent-refused token now later unreadable h = absurd h
  Spent-refused token now later (holding content) h =
      refused_row (hash token) now later content (get (hash token) content.tokens) (holding content)
        h

  -- A token that was spent once is refused ever after, whatever happens to the file in between, as
  -- long as no token of the same hash is issued.
  pub spend_once :
      (token : String) (now later : ℕ) (disk : Disk) (cluster_id : String) (ops : List Op)
      (now' later' : ℕ)
      → (spend_token hash token now later disk).0 ≡ ok (some cluster_id)
      → NoneIssued (hash token) ops
      → (spend_token hash token now' later' (run ops (spend_token hash token now later disk).1)).0
        ≡ ok none
  spend_once token now later disk cluster_id ops now' later' h k =
      Spent-refused token now' later' (run ops (spend_token hash token now later disk).1) (
        run-Spent ops (hash token) (spend_token hash token now later disk).1 k
          (spend-Spent token now later disk cluster_id h))
