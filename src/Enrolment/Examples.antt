-- ===== src/Enrolment/Examples.antt =====
-- The enrolment store at concrete inputs. The digest of a token is stood for by the token itself.
use ai_kubernetes_troublesho.Prelude.{
  ◌≡◌, ◌≢◌, refl, String, true, false, none, some, List, [], ◌∷◌, arith, string_eq, eq_iff,
}
use ai_kubernetes_troublesho.Prelude.Dict.{get, put}
use ai_kubernetes_troublesho.Prelude.Exec.{ok}
use ai_kubernetes_troublesho.Enrolment.{
  Disk, missing, unreadable, issue_token, spend_token, valid_cluster_id, is_id_tail,
  record_certificate, revoke_certificate, revoke_cluster, revoked_serials,
}
use ai_kubernetes_troublesho.Enrolment.Tokens.{
  Op, issue, spend, certify, revoke_all_of, run, spend_once,
}
use ai_kubernetes_troublesho.Enrolment.Issue.{issued_spends}
use ai_kubernetes_troublesho.Enrolment.Revocation.{
  names, revoked_for_good, IsDead, certificate_of, revoke_cluster-IsDead,
}

abbrev digest : String → String
digest token = token

abbrev issued : Disk
issued = (issue_token digest "k8sagt_a" "prod" 3600 100 missing).1

prod_is_valid : valid_cluster_id "prod" ≡ true
unfolding valid_cluster_id is_id_tail
prod_is_valid = refl

newline_is_refused : valid_cluster_id "prod\n" ≡ false
unfolding valid_cluster_id is_id_tail
newline_is_refused = refl

spent_for_prod : (spend_token digest "k8sagt_a" 200 201 issued).0 ≡ ok (some "prod")
unfolding get put issue_token spend_token valid_cluster_id is_id_tail
spent_for_prod = refl

abbrev others : List Op
others =
    issue "k8sagt_b" "dev" 3600 300
    ∷ spend "k8sagt_b" 400 401
    ∷ certify "s1" "prod" 9000 500
    ∷ revoke_all_of "prod" "rotated" 600
    ∷ []

b_is_not_a : digest "k8sagt_b" ≢ digest "k8sagt_a"
b_is_not_a = λ e. ground (arith, eq_iff "k8sagt_b" "k8sagt_a")

spend_once_example :
    (spend_token digest "k8sagt_a" 700 701
      (run digest others (spend_token digest "k8sagt_a" 200 201 issued).1)).0
    ≡ ok none
spend_once_example =
    spend_once digest "k8sagt_a" 200 201 issued "prod" others 700 701 spent_for_prod
      (b_is_not_a, (tt, (tt, (tt, tt))))

issued_spends_example :
    (spend_token digest "k8sagt_a" 700 701
      (run digest others (issue_token digest "k8sagt_a" "prod" 3600 100 missing).1)).0
    ≡ ok (some "prod")
issued_spends_example =
    issued_spends digest "k8sagt_a" "prod" 3600 100 missing others 700 701 prod_is_valid
      (λ e. ground arith) (b_is_not_a, (b_is_not_a, (tt, (tt, tt)))) (omega arith)

abbrev certified : Disk
certified = (record_certificate "s0" "prod" 9000 100 missing).1

s0_is_revoked : (revoke_certificate "s0" "lost" 200 certified).0 ≡ ok true
unfolding get put record_certificate revoke_certificate
s0_is_revoked = refl

s1_is_not_s0 : digest "s1" ≢ digest "s0"
s1_is_not_s0 = λ e. ground (arith, eq_iff "s1" "s0")

revoked_for_good_example :
    names digest "s0"
      (revoked_serials (run digest others (revoke_certificate "s0" "lost" 200 certified).1)).0
    ≡ true
revoked_for_good_example =
    revoked_for_good digest "s0" "lost" 200 certified others s0_is_revoked
      (tt, (tt, (s1_is_not_s0, (tt, tt))))

certified_is_readable : certified ≢ unreadable
unfolding record_certificate
certified_is_readable = λ e. ground arith

revoke_cluster-IsDead_example :
    IsDead "prod" 300 (certificate_of "s0" (revoke_cluster "prod" "rotated" 300 certified).1)
revoke_cluster-IsDead_example =
    revoke_cluster-IsDead "prod" "rotated" 300 "s0" certified certified_is_readable
