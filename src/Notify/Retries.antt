-- ===== src/Notify/Retries.antt =====
-- How often a delivery is tried, and when it stops.
use ai_kubernetes_troublesho.Prelude.{
  ℕ, zero, suc, ◌+◌, ◌≤◌, ◌≡◌, refl, sym, ◌∙◌, Bool, true, false, ◌||◌, List, [], ◌∷◌, any, length,
  ltb, arith, nat_eq, ◌==◌, Bool-cases, inl, inr,
}
use ai_kubernetes_troublesho.Notify.{
  Answer, answered, unreachable, Delivery, backoff, after_answer, attempts, deliver,
}

-- an answer that ends the delivery, and one that ends it well
abbrev pub is_final : Answer → Bool
is_final unreachable = false
is_final (answered status) = ltb status 500

abbrev pub is_success : Answer → Bool
is_success unreachable = false
is_success (answered status) = ltb status 400

-- Only the last answer is final, if any is, and the delivery is what that answer says.
abbrev pub Stops : List Answer → Bool → Type 0
Stops [] is_delivered = is_delivered ≡ false
Stops (a ∷ []) is_delivered = is_delivered ≡ is_success a
Stops (a ∷ (b ∷ rest)) is_delivered = (is_final a ≡ false) × Stops (b ∷ rest) is_delivered

abbrev waits : ℕ → ℕ → ℕ
waits zero attempt = 0
waits (suc left) attempt = backoff attempt + waits left (suc attempt)

record IsTried (left attempt : ℕ) (d : Delivery) : Type 0 where
  stops : Stops d.seen d.is_delivered
  few : length d.seen ≤ left
  all : (any is_final d.seen || length d.seen == left) ≡ true
  short : d.slept ≤ waits left attempt

again-Stops :
    (a : Answer) (seen : List Answer) (is_delivered : Bool)
    → is_final a ≡ false
    → is_success a ≡ false
    → Stops seen is_delivered
    → Stops (a ∷ seen) is_delivered
again-Stops a [] is_delivered f s h = h ∙ sym s
again-Stops a (b ∷ rest) is_delivered f s h = (f, h)

after_answer-IsTried :
    (left attempt : ℕ) (answer : Answer) (rest : Delivery)
    → IsTried left (suc attempt) rest
    → IsTried (suc left) attempt (after_answer attempt answer rest)
unfolding after_answer
after_answer-IsTried left attempt unreachable rest h = record {
  stops = again-Stops unreachable rest.seen rest.is_delivered refl refl h.stops;
  few = omega (arith, h.few);
  all = ground (arith, h.all);
  short = omega (arith, h.short);
}
after_answer-IsTried left attempt (answered status) rest h = elim (Bool-cases (ltb status 400)) [
  | inl p ↦
      rw p record { stops = sym p; few = omega arith; all = ground arith; short = omega arith }
  | inr p ↦ elim (Bool-cases (ltb status 500)) [
    | inl q ↦
        rw (p, q)
          record { stops = sym p; few = omega arith; all = ground arith; short = omega arith }
    | inr q ↦
        rw (p, q)
          record {
            stops = again-Stops (answered status) rest.seen rest.is_delivered q p h.stops;
            few = omega (arith, h.few);
            all = ground (arith, h.all);
            short = omega (arith, h.short);
          }
  ]
]

attempts-IsTried :
    (left attempt : ℕ) (answers : ℕ → Answer) → IsTried left attempt (attempts left attempt answers)
unfolding attempts
attempts-IsTried zero attempt answers = record {
  stops = refl;
  few = omega arith;
  all = refl;
  short = omega arith;
}
attempts-IsTried (suc left) attempt answers =
    after_answer-IsTried left attempt (answers attempt) (attempts left (suc attempt) answers)
      (attempts-IsTried left (suc attempt) answers)

-- Whatever a destination answers, a delivery posts at most three times and sleeps at most 2.5
-- seconds; it goes on after an answer only if that was no connection or a status from 500 on, and
-- it stops short of three posts only at another answer; it is reported as delivered exactly if the
-- last answer was a status below 400.
pub deliver-Stops :
    (answers : ℕ → Answer)
    → Stops (deliver answers).seen (deliver answers).is_delivered
      × (length (deliver answers).seen ≤ 3)
      × ((any is_final (deliver answers).seen || length (deliver answers).seen == 3) ≡ true)
      × ((deliver answers).slept ≤ 2500)
unfolding deliver
deliver-Stops answers =
    let h = attempts-IsTried 3 0 answers in (h.stops, h.few, h.all, omega (arith, h.short))
