-- ===== src/Gateway/Settled.antt =====
-- What becomes of a collection that is over: nothing that arrives later changes it.
use Prim.Native.String.{◌++◌ as ◌<>◌}
use text.Mathlib.TextLemmas.{append_cancel_left}
use ai_kubernetes_troublesho.Prelude.{
  ℕ, suc, ◌<◌, ◌≡◌, refl, ap, ◌∙◌, inl, inr, String, Bool, true, false, not, ◌&&◌, ◌||◌, Option,
  none, some, List, [], ◌∷◌, ◌==◌, string_eq, eq_iff, contains, contains-snoc, keep, arith,
  Bool-cases, if◌then◌else◌, ==_of_ne,
}
use ai_kubernetes_troublesho.Prelude.Dict.{Dict, get, get-put, modify, get-modify, mapped}
use ai_kubernetes_troublesho.Gateway.{
  PendingCollection, Session, add_record, finish, time_out, timed, finish_all, begin_collect,
  end_collect, touch, on_evidence, on_done, cancel_all, terminate, request_id,
}

pub contains-keep :
    (v k : String) (xs : List String)
    → contains v (keep (λ x. not (x == k)) xs) ≡ (contains v xs && not (v == k))
contains-keep v k [] = refl
contains-keep v k (x ∷ xs) =
    ground (arith, contains-keep v k xs, eq_iff x k, eq_iff v k, eq_iff v x)

eq_sym : (a b : String) → (a == b) ≡ (b == a)
eq_sym a b = ground (arith, eq_iff a b, eq_iff b a)

module _ {R : Type 0} where
  finish_twice :
      (reason : String) (b c : Bool) (o : Option (PendingCollection R))
      → (if b
          then mapped (finish reason) (if c then mapped (finish reason) o else o)
          else (if c then mapped (finish reason) o else o))
        ≡ (if (c || b) then mapped (finish reason) o else o)
  finish_twice reason true true none = refl
  finish_twice reason true true (some p) = refl
  finish_twice reason true false o = refl
  finish_twice reason false true o = refl
  finish_twice reason false false o = refl

  pub get-finish_all :
      (reason : String) (ids : List String) (j : String) (heap : Dict String (PendingCollection R))
      → get j (finish_all reason ids heap)
        ≡ (if contains j ids then mapped (finish reason) (get j heap) else get j heap)
  unfolding finish_all
  get-finish_all reason [] j heap = refl
  get-finish_all reason (i ∷ ids) j heap =
      get-finish_all reason ids j (modify (finish reason) i heap)
      ∙ rw (get-modify (finish reason) i j heap, eq_sym j i)
          (finish_twice reason (contains j ids) (i == j) (get j heap))

  timed_twice :
      (b : Bool) (p : PendingCollection R) → p.is_done ≡ b → time_out (timed b p) ≡ timed b p
  timed_twice true p e = ap (λ c. timed c p) e
  timed_twice false p e = ap (λ c. timed c (timed false p)) e

  modify-none :
      (f : PendingCollection R → PendingCollection R) (i j : String)
      (heap : Dict String (PendingCollection R))
      → get j heap ≡ none
      → get j (modify f i heap) ≡ none
  modify-none f i j heap h = rw (get-modify f i j heap, h) (ground arith)

  finish_all-none :
      (reason : String) (ids : List String) (j : String) (heap : Dict String (PendingCollection R))
      → get j heap ≡ none
      → get j (finish_all reason ids heap) ≡ none
  finish_all-none reason ids j heap h = rw (get-finish_all reason ids j heap, h) (ground arith)

  time_out_twice :
      (o : Option (PendingCollection R)) → mapped time_out (mapped time_out o) ≡ mapped time_out o
  time_out_twice none = refl
  time_out_twice (some p) = ap some (timed_twice p.is_done p refl)

  time_out-finish :
      (reason : String) (o : Option (PendingCollection R))
      → mapped time_out (mapped (finish reason) o) ≡ mapped (finish reason) o
  time_out-finish reason none = refl
  time_out-finish reason (some p) = refl

module _ (show : ℕ → String) (show_inj : (m n : ℕ) → show m ≡ show n → m ≡ n) where
  fresh_id :
      (cluster : String) (m n : ℕ)
      → m < n
      → (cluster <> ("-" <> show m) == cluster <> ("-" <> show n)) ≡ false
  fresh_id cluster m n lt = ==_of_ne _ _ (λ e.
      let same = show_inj m n (append_cancel_left "-" _ _ (append_cancel_left cluster _ _ e)) in
      omega arith)

-- What happens to a session, in the order in which the event loop runs it.
pub data Op (R : Type 0) (Q : Type 0) : Type 0 where
  begun : List Q → Op R Q
  ended : String → Op R Q
  evidence : R → String → Op R Q
  finished : String → String → Op R Q
  heard : ℕ → String → Op R Q
  cancelled terminated : String → Op R Q

module _ {R Q : Type 0} (show : ℕ → String) where
  abbrev pub step : Op R Q → Session R Q → Session R Q
  step (begun specs) s = begin_collect show specs s
  step (ended id) s = end_collect show id s
  step (evidence r id) s = on_evidence show r id s
  step (finished id detail) s = on_done show id detail s
  step (heard now degradation) s = touch show now degradation s
  step (cancelled reason) s = cancel_all show reason s
  step (terminated reason) s = terminate show reason s

  unfoldable pub run : List (Op R Q) → Session R Q → Session R Q
  run [] s = s
  run (op ∷ ops) s = run ops (step op s)

  -- The request ids to come are not in use, and no deadline is to come for a collection that is
  -- over.
  pub record IsOrderly (s : Session R Q) : Type 0 where
    pub fresh : (n : ℕ) → s.counter < n → get (s.cluster_id <> ("-" <> show n)) s.collections ≡ none
    pub over :
        (id : String)
        → contains id s.pending ≡ false
        → mapped time_out (get id s.collections) ≡ get id s.collections

  module _ (show_inj : (m n : ℕ) → show m ≡ show n → m ≡ n) where
    begin_collect-IsOrderly :
        (specs : List Q) (s : Session R Q) → IsOrderly s → IsOrderly (begin_collect show specs s)
    unfolding begin_collect
    begin_collect-IsOrderly specs s h = record {
      fresh = λ n lt.
          rw (get-put, fresh_id show show_inj s.cluster_id (suc s.counter) n lt)
            (h.fresh n (omega arith));
      over = λ id p.
          let grown = contains-snoc id (request_id show s) s.pending in
          let other : (request_id show s == id) ≡ false =
            ground (arith, eq_sym id (request_id show s)) in
          rw (get-put, other) (h.over id (ground arith));
    }

    end_over :
        (id : String) (s : Session R Q)
        → IsOrderly s
        → (j : String) → contains j (keep (λ k. not (k == id)) s.pending) ≡ false
        → mapped time_out (get j (modify time_out id s.collections))
          ≡ get j (modify time_out id s.collections)
    end_over id s h j p = elim (Bool-cases (id == j)) [
      | inl q ↦ rw (get-modify, q) (time_out_twice (get j s.collections))
      | inr q ↦
          rw (get-modify, q) (h.over j (ground (arith, contains-keep j id s.pending, eq_sym id j)))
    ]

    end_collect-IsOrderly :
        (id : String) (s : Session R Q) → IsOrderly s → IsOrderly (end_collect show id s)
    unfolding end_collect
    end_collect-IsOrderly id s h = record {
      fresh = λ n lt. modify-none time_out id _ s.collections (h.fresh n lt);
      over = λ j p. end_over id s h j p;
    }

    -- a change of a collection that is pending
    pending-IsOrderly :
        (f : PendingCollection R → PendingCollection R) (id : String) (s : Session R Q)
        → contains id s.pending ≡ true
        → IsOrderly s
        → IsOrderly (record s { collections = modify f id s.collections })
    pending-IsOrderly f id s p h = record {
      fresh = λ n lt. modify-none f id _ s.collections (h.fresh n lt);
      over = λ j q.
          let other : (id == j) ≡ false = ground (arith, eq_iff id j) in
          rw (get-modify, other) (h.over j q);
    }

    on_evidence-IsOrderly :
        (r : R) (id : String) (s : Session R Q) → IsOrderly s → IsOrderly (on_evidence show r id s)
    unfolding on_evidence
    on_evidence-IsOrderly r id s h = elim (Bool-cases (contains id s.pending)) [
      | inl p ↦ rw p (pending-IsOrderly (add_record r) id s p h)
      | inr p ↦ rw p h
    ]

    on_done-IsOrderly :
        (id detail : String) (s : Session R Q) → IsOrderly s → IsOrderly (on_done show id detail s)
    unfolding on_done
    on_done-IsOrderly id detail s h = elim (Bool-cases (contains id s.pending)) [
      | inl p ↦ rw p (pending-IsOrderly (finish detail) id s p h)
      | inr p ↦ rw p h
    ]

    cancel_over :
        (reason : String) (s : Session R Q)
        → IsOrderly s
        → (j : String)
        → mapped time_out (get j (finish_all reason s.pending s.collections))
          ≡ get j (finish_all reason s.pending s.collections)
    cancel_over reason s h j = elim (Bool-cases (contains j s.pending)) [
      | inl q ↦
          rw (get-finish_all reason s.pending j s.collections, q)
            (time_out-finish reason (get j s.collections))
      | inr q ↦ rw (get-finish_all reason s.pending j s.collections, q) (h.over j q)
    ]

    cancel_all-IsOrderly :
        (reason : String) (s : Session R Q) → IsOrderly s → IsOrderly (cancel_all show reason s)
    unfolding cancel_all
    cancel_all-IsOrderly reason s h = record {
      fresh = λ n lt. finish_all-none reason s.pending _ s.collections (h.fresh n lt);
      over = λ j p. cancel_over reason s h j;
    }

    pub step-IsOrderly : (op : Op R Q) (s : Session R Q) → IsOrderly s → IsOrderly (step op s)
    unfolding touch terminate cancel_all
    step-IsOrderly (begun specs) s h = begin_collect-IsOrderly specs s h
    step-IsOrderly (ended id) s h = end_collect-IsOrderly id s h
    step-IsOrderly (evidence r id) s h = on_evidence-IsOrderly r id s h
    step-IsOrderly (finished id detail) s h = on_done-IsOrderly id detail s h
    step-IsOrderly (heard now degradation) s h = record { fresh = h.fresh; over = h.over }
    step-IsOrderly (cancelled reason) s h = cancel_all-IsOrderly reason s h
    step-IsOrderly (terminated reason) s h =
        let kept = cancel_all-IsOrderly reason s h in
        record { fresh = kept.fresh; over = kept.over }
