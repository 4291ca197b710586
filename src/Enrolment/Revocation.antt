-- ===== src/Enrolment/Revocation.antt =====
-- Revoked certificates, over every sequence of operations on the file.
use ai_kubernetes_troublesho.Prelude.{
  ℕ, ◌≡◌, ◌≢◌, refl, String, Bool, true, false, Option, none, some, List, [], ◌∷◌, arith, string_eq,
  nat_eq, eq_iff, is_some, Bool-cases, inl, inr, contains, keep, map, count,
}
use ai_kubernetes_troublesho.Prelude.Dict.{Dict, get, get-put}
use ai_kubernetes_troublesho.Prelude.Exec.{Result, ok, raised}
use ai_kubernetes_troublesho.Enrolment.{
  Token, Certificate, Content, Disk, missing, unreadable, holding, Failure, empty, issue_token,
  spend_token, spend_row, record_certificate, new_certificate, revoke_certificate, revoke_row,
  revoke_rows, revoked_row, is_live, revoke_cluster, settle, revoked_serials,
}
use ai_kubernetes_troublesho.Enrolment.Tokens.{
  Op, issue, spend, certify, revoke_one, revoke_all_of, apply, run,
}

-- the row of a certificate
abbrev pub certificate_of : String → Disk → Option Certificate
certificate_of serial missing = none
certificate_of serial unreadable = none
certificate_of serial (holding content) = get serial content.certificates

-- The operation does not record a certificate of that serial.
abbrev pub NotCertified : String → Op → Type 0
NotCertified serial (certify other cluster_id expires_at now) = other ≢ serial
NotCertified serial _ = Unit

abbrev pub NoneCertified : String → List Op → Type 0
NoneCertified serial [] = Unit
NoneCertified serial (op ∷ ops) = NotCertified serial op × NoneCertified serial ops

abbrev Revoked : Option Certificate → Type 0
Revoked none = ⊥
Revoked (some row) = is_some row.revoked_at ≡ true

get-revoke_rows :
    (cluster_id reason : String) (now : ℕ) (serial : String) (rows : Dict String Certificate)
    → Revoked (get serial rows)
    → Revoked (get serial (revoke_rows cluster_id reason now rows))
unfolding get revoke_rows
get-revoke_rows cluster_id reason now serial [] h = h
get-revoke_rows cluster_id reason now serial ((other, row) ∷ rows) h =
    ground (arith, get-revoke_rows cluster_id reason now serial rows)

revoke_row-Revoked :
    (own reason : String) (now : ℕ) (serial : String) (content : Content) (row : Option Certificate)
    → Revoked (get serial content.certificates)
    → Revoked
        (certificate_of serial (settle (revoke_row own reason now content row) (holding content)).1)
revoke_row-Revoked own reason now serial content none h = h
revoke_row-Revoked own reason now serial content (some row) h =
    ground (arith, get-put own serial (revoked_row reason now row) content.certificates)

module _ (hash : String → String) where
  spend_row-Revoked :
      (digest serial : String) (now later : ℕ) (content : Content) (row : Option Token)
      → Revoked (get serial content.certificates)
      → Revoked (
          certificate_of serial
            (settle (spend_row hash digest now later content row) (holding content)).1)
  spend_row-Revoked digest serial now later content none h = h
  spend_row-Revoked digest serial now later content (some row) h = ground arith

  apply-Revoked :
      (op : Op) (serial : String) (disk : Disk)
      → NotCertified serial op
      → Revoked (certificate_of serial disk)
      → Revoked (certificate_of serial (apply hash op disk))
  unfolding issue_token spend_token record_certificate revoke_certificate revoke_cluster
  apply-Revoked op serial missing k h = absurd h
  apply-Revoked op serial unreadable k h = absurd h
  apply-Revoked (issue token cluster_id ttl now) serial (holding content) k h = ground arith
  apply-Revoked (spend token now later) serial (holding content) k h =
      spend_row-Revoked (hash token) serial now later content (get (hash token) content.tokens) h
  apply-Revoked (certify other cluster_id expires_at now) serial (holding content) k h = ground (
    arith,
    eq_iff other serial,
    get-put other serial (new_certificate cluster_id expires_at now) content.certificates,
  )
  apply-Revoked (revoke_one other reason now) serial (holding content) k h =
      revoke_row-Revoked other reason now serial content (get other content.certificates) h
  apply-Revoked (revoke_all_of cluster_id reason now) serial (holding content) k h =
      ground (arith, get-revoke_rows cluster_id reason now serial content.certificates h)

  run-Revoked :
      (ops : List Op) (serial : String) (disk : Disk)
      → NoneCertified serial ops
      → Revoked (certificate_of serial disk)
      → Revoked (certificate_of serial (run hash ops disk))
  unfolding run
  run-Revoked [] serial disk k h = h
  run-Revoked (op ∷ ops) serial disk k h =
      run-Revoked ops serial (apply hash op disk) k.1 (apply-Revoked op serial disk k.0 h)

  -- Whether the answer of `revoked_serials` names a serial.
  abbrev pub names : String → Result Failure (List String) → Bool
  names serial (ok serials) = contains serial serials
  names serial (raised failure) = false

  listed :
      (serial : String) (rows : Dict String Certificate)
      → Revoked (get serial rows)
      → contains serial (map (λ entry. entry.0) (keep (λ entry. is_some entry.1.revoked_at) rows))
        ≡ true
  unfolding get
  listed serial [] h = absurd h
  listed serial ((other, row) ∷ rows) h =
      ground (arith, eq_iff other serial, eq_iff serial other, listed serial rows)

  Revoked-listed :
      (serial : String) (disk : Disk)
      → Revoked (certificate_of serial disk)
      → names serial (revoked_serials disk).0 ≡ true
  unfolding revoked_serials
  Revoked-listed serial missing h = absurd h
  Revoked-listed serial unreadable h = absurd h
  Revoked-listed serial (holding content) h = listed serial content.certificates h

  revokes :
      (serial reason : String) (now : ℕ) (content : Content) (row : Option Certificate)
      (disk : Disk)
      → (settle (revoke_row serial reason now content row) disk).0 ≡ ok true
      → Revoked (certificate_of serial (settle (revoke_row serial reason now content row) disk).1)
  revokes serial reason now content none disk h = ground arith
  revokes serial reason now content (some row) disk h = ground (
    arith,
    eq_iff serial serial,
    get-put serial serial (revoked_row reason now row) content.certificates,
  )

  revoke-Revoked :
      (serial reason : String) (now : ℕ) (disk : Disk)
      → (revoke_certificate serial reason now disk).0 ≡ ok true
      → Revoked (certificate_of serial (revoke_certificate serial reason now disk).1)
  unfolding revoke_certificate
  revoke-Revoked serial reason now missing h =
      revokes serial reason now empty (get serial empty.certificates) missing h
  revoke-Revoked serial reason now unreadable h = ground arith
  revoke-Revoked serial reason now (holding content) h =
      revokes serial reason now content (get serial content.certificates) (holding content) h

  -- A certificate that was revoked stays among the revoked serials, whatever happens to the file
  -- afterwards, as long as no certificate of the same serial is recorded.
  pub revoked_for_good :
      (serial reason : String) (now : ℕ) (disk : Disk) (ops : List Op)
      → (revoke_certificate serial reason now disk).0 ≡ ok true
      → NoneCertified serial ops
      → names serial
          (revoked_serials (run hash ops (revoke_certificate serial reason now disk).1)).0
        ≡ true
  revoked_for_good serial reason now disk ops h k =
      let revoked = revoke_certificate serial reason now disk in
      Revoked-listed serial (run hash ops revoked.1)
        (run-Revoked ops serial revoked.1 k (revoke-Revoked serial reason now disk h))

-- There is no certificate, or none that is live.
abbrev pub IsDead : String → ℕ → Option Certificate → Type 0
IsDead cluster_id now none = Unit
IsDead cluster_id now (some row) = is_live cluster_id now row ≡ false

none_live :
    (cluster_id : String) (now : ℕ) (serial : String) (rows : Dict String Certificate)
    → count (λ entry. is_live cluster_id now entry.1) rows ≡ 0
    → IsDead cluster_id now (get serial rows)
unfolding get
none_live cluster_id now serial [] h = tt
none_live cluster_id now serial ((other, first) ∷ rows) h =
    ground (arith, none_live cluster_id now serial rows)

none_live_after :
    (cluster_id reason : String) (now : ℕ) (serial : String) (rows : Dict String Certificate)
    → IsDead cluster_id now (get serial (revoke_rows cluster_id reason now rows))
unfolding get revoke_rows
none_live_after cluster_id reason now serial [] = tt
none_live_after cluster_id reason now serial ((other, first) ∷ rows) =
    let rest = none_live_after cluster_id reason now serial rows in
    elim (Bool-cases (is_live cluster_id now first)) [
      | inl e ↦ rw e ground (arith, rest)
      | inr e ↦ rw e ground (arith, rest)
    ]

-- Once a cluster is revoked, no certificate of it is left that is neither revoked nor expired at
-- that time. The file is one that can be read.
pub revoke_cluster-IsDead :
    (cluster_id reason : String) (now : ℕ) (serial : String) (disk : Disk)
    → disk ≢ unreadable
    → IsDead cluster_id now (certificate_of serial (revoke_cluster cluster_id reason now disk).1)
unfolding revoke_cluster
revoke_cluster-IsDead cluster_id reason now serial missing h = tt
revoke_cluster-IsDead cluster_id reason now serial unreadable h = absurd (h refl)
revoke_cluster-IsDead cluster_id reason now serial (holding content) h = ground (
  arith,
  none_live cluster_id now serial content.certificates,
  none_live_after cluster_id reason now serial content.certificates,
)
