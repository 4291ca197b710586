-- ===== src/Gateway/Late.antt =====
-- Nothing that arrives late changes a collection that is over.
use Prim.Native.String.{◌++◌ as ◌<>◌}
use ai_kubernetes_troublesho.Prelude.{
  ℕ, suc, ◌≡◌, refl, ap, ◌∙◌, inl, inr, String, true, false, some, List, [], ◌∷◌, ◌==◌, string_eq,
  eq_iff, contains, contains-snoc, arith, Bool-cases,
}
use ai_kubernetes_troublesho.Prelude.Dict.{get, get-put, modify, get-modify}
use ai_kubernetes_troublesho.Gateway.{
  PendingCollection, Session, add_record, finish, time_out, begin_collect, end_collect, touch,
  on_evidence, on_done, cancel_all, terminate, request_id,
}
use ai_kubernetes_troublesho.Gateway.Settled.{
  Op, begun, ended, evidence, finished, heard, cancelled, terminated, step, run, IsOrderly,
  step-IsOrderly, get-finish_all, contains-keep,
}

module _ {R Q : Type 0} (show : ℕ → String) where
  -- The collection is no longer pending, and this is what it holds.
  abbrev pub IsOver : String → PendingCollection R → Session R Q → Type 0
  IsOver id p s = (get id s.collections ≡ some p) × (contains id s.pending ≡ false)

  modify-IsOver :
      (f : PendingCollection R → PendingCollection R) (i id : String) (p : PendingCollection R)
      (s : Session R Q)
      → contains i s.pending ≡ true
      → IsOver id p s
      → get id (modify f i s.collections) ≡ some p
  modify-IsOver f i id p s q (h, n) =
      let other : (i == id) ≡ false = ground (arith, eq_iff i id) in
      rw (get-modify f i id s.collections, other) h

  begin_collect-IsOver :
      (specs : List Q) (id : String) (p : PendingCollection R) (s : Session R Q)
      → IsOrderly show s
      → IsOver id p s
      → IsOver id p (begin_collect show specs s)
  unfolding begin_collect
  begin_collect-IsOver specs id p s o (h, n) = elim (Bool-cases (request_id show s == id)) [
    | inl q ↦ absurd (
        ground (
          arith,
          o.fresh (suc s.counter) (omega arith),
          ap (λ k. get k s.collections) ((eq_iff (request_id show s) id).0 q),
          h,
        ))
    | inr q ↦ (
      rw (get-put, q) h,
      ground (
        arith,
        contains-snoc id (request_id show s) s.pending,
        eq_iff id (request_id show s),
        eq_iff (request_id show s) id,
      ),
    )
  ]

  end_collect-IsOver :
      (i id : String) (p : PendingCollection R) (s : Session R Q)
      → IsOrderly show s
      → IsOver id p s
      → IsOver id p (end_collect show i s)
  unfolding end_collect
  end_collect-IsOver i id p s o (h, n) = (
    elim (Bool-cases (i == id)) [
      | inl q ↦ rw (get-modify time_out i id s.collections, q) (o.over id n ∙ h)
      | inr q ↦ rw (get-modify time_out i id s.collections, q) h
    ],
    ground (arith, contains-keep id i s.pending),
  )

  step-IsOver :
      (op : Op R Q) (id : String) (p : PendingCollection R) (s : Session R Q)
      → IsOrderly show s
      → IsOver id p s
      → IsOver id p (step show op s)
  unfolding on_evidence on_done touch terminate cancel_all
  step-IsOver (begun specs) id p s o h = begin_collect-IsOver specs id p s o h
  step-IsOver (ended i) id p s o h = end_collect-IsOver i id p s o h
  step-IsOver (evidence r i) id p s o h = elim (Bool-cases (contains i s.pending)) [
    | inl q ↦ rw q (modify-IsOver (add_record r) i id p s q h, h.1)
    | inr q ↦ rw q h
  ]
  step-IsOver (finished i detail) id p s o h = elim (Bool-cases (contains i s.pending)) [
    | inl q ↦ rw q (modify-IsOver (finish detail) i id p s q h, h.1)
    | inr q ↦ rw q h
  ]
  step-IsOver (heard now degradation) id p s o h = h
  step-IsOver (cancelled reason) id p s o (h, n) =
      (rw (get-finish_all reason s.pending id s.collections, n) h, refl)
  step-IsOver (terminated reason) id p s o (h, n) =
      (rw (get-finish_all reason s.pending id s.collections, n) h, refl)

  module _ (show_inj : (m n : ℕ) → show m ≡ show n → m ≡ n) where
    run-IsOrderly :
        (ops : List (Op R Q)) (s : Session R Q) → IsOrderly show s → IsOrderly show (run show ops s)
    unfolding run
    run-IsOrderly [] s o = o
    run-IsOrderly (op ∷ ops) s o =
        run-IsOrderly ops (step show op s) (step-IsOrderly show show_inj op s o)

    run-IsOver :
        (ops : List (Op R Q)) (id : String) (p : PendingCollection R) (s : Session R Q)
        → IsOrderly show s
        → IsOver id p s
        → IsOver id p (run show ops s)
    unfolding run
    run-IsOver [] id p s o h = h
    run-IsOver (op ∷ ops) id p s o h =
        run-IsOver ops id p (step show op s) (step-IsOrderly show show_inj op s o)
          (step-IsOver op id p s o h)

    new-IsOrderly : (s : Session R Q) → s.collections ≡ [] → IsOrderly show s
    unfolding get
    new-IsOrderly s e = record {
      fresh = λ n lt. ap (get (s.cluster_id <> ("-" <> show n))) e;
      over = λ id n. rw e refl;
    }

    -- Once a collection of a session that began with none is over, whether it was answered, timed
    -- out or was cancelled, no event of the session changes what it holds: evidence and answers
    -- that arrive late are dropped, later cancellations pass it by, and no later request takes its
    -- id. A deadline is taken not to fire in the very turn of the event loop in which the answer or
    -- the cancellation came. Python's texts of two integers are assumed to differ where the integers do.
    pub late_ignored :
        (s : Session R Q) (before after : List (Op R Q)) (id : String) (p : PendingCollection R)
        → s.collections ≡ []
        → IsOver id p (run show before s)
        → IsOver id p (run show after (run show before s))
    late_ignored s before after id p e h =
        run-IsOver after id p (run show before s) (run-IsOrderly before s (new-IsOrderly s e)) h
