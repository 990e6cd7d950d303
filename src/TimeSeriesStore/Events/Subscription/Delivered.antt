-- ===== src/TimeSeriesStore/Events/Subscription/Delivered.antt =====
-- What repeated calls of `query_events_after` of in_memory_time_series_store.cpp return together.
use native.Mathlib.Nat.{mul-suc}
use pulse_mesh.Base.{
  ℕ, suc, ◌+◌, ◌*◌, ◌≤◌, ◌≡◌, refl, sym, subst, ap, ◌∙◌, ◌⊎◌, inl, inr, List, [], ◌∷◌, ◌++◌, map,
  arith, length, length-append, take, drop, append_assoc, ok,
}
use pulse_mesh.Base.Double.{Double}
use pulse_mesh.Wire.{MetricBatch, SubscribeRequest, MetricEvent}
use pulse_mesh.TimeSeriesStore.{StoredMetric, Store}
use pulse_mesh.TimeSeriesStore.Commit.{commit_batch, commit_all}
use pulse_mesh.TimeSeriesStore.Commit.Invariant.{IsValid, commit_all-IsValid}
use pulse_mesh.TimeSeriesStore.Commit.Snapshot.{IsLaterStore-itself, commit_all-IsLaterStore}
use pulse_mesh.TimeSeriesStore.Events.{ordered_matches, to_event, query_events_after}
use pulse_mesh.TimeSeriesStore.Events.Growth.{HasRoom, ordered_matches-grow}
use pulse_mesh.TimeSeriesStore.Events.Replay.{IsReplay, ordered_matches-IsReplay}
use pulse_mesh.TimeSeriesStore.InMemory.{in_memory}
use pulse_mesh.TimeSeriesStore.Subscriber.{resume, then_more, commit_each, poll_while}
use pulse_mesh.TimeSeriesStore.Events.Subscription.{
  IsSubscription, last_store, KeepsRoom, AreDelivered,
}
use pulse_mesh.TimeSeriesStore.Events.Subscription.Cursor.{
  reached, reached-IsSubscription, resume-reached, ordered_matches-reached, take-drop, answer,
  length-take,
}

module _ {ℓ} {F : Type ℓ} ⦃d : Double F⦄ where
  -- What further calls return to a client that was given `done`, of `done ++ rest`.
  record AreMore (limit : ℕ) (r : SubscribeRequest) (rounds : List (List (MetricBatch F)))
      (s : Store F) (done rest : List (StoredMetric F)) : Type ℓ where
    given : List (StoredMetric F)
    left : List (StoredMetric F)
    answers : poll_while in_memory limit (reached r done) rounds s ≡ ok (map to_event given)
    in_order : ordered_matches r (last_store rounds s) ≡ done ++ given ++ left
    enough : (length rest ≤ length given) ⊎ (length given ≡ limit * suc (length rounds))

  first_answer :
      (limit : ℕ) (r : SubscribeRequest) (s : Store F) (done rest : List (StoredMetric F))
      → IsSubscription limit r
      → IsValid s
      → ordered_matches r s ≡ done ++ rest
      → query_events_after (reached r done) limit s ≡ ok (map to_event (take limit rest))
  first_answer limit r s done rest q v e =
      answer limit (reached r done) s (reached-IsSubscription limit r done q)
      ∙ ap (λ xs. ok (map to_event (take limit xs))) (ordered_matches-reached r s done rest v e)

  room_now :
      (r : SubscribeRequest) (rounds : List (List (MetricBatch F))) (s : Store F)
      → KeepsRoom r rounds s
      → HasRoom r s
  room_now r [] s h = h
  room_now r (bs ∷ rounds) s h = h.0

  last_store-IsValid :
      (rounds : List (List (MetricBatch F))) (s : Store F)
      → IsValid s
      → IsValid (last_store rounds s)
  last_store-IsValid [] s v = v
  last_store-IsValid (bs ∷ rounds) s v =
      last_store-IsValid rounds (commit_all bs s) (commit_all-IsValid bs s v)

  map-append_events :
      (xs ys : List (StoredMetric F)) → map to_event (xs ++ ys) ≡ map to_event xs ++ map to_event ys
  map-append_events [] ys = refl
  map-append_events (x ∷ xs) ys = ap (◌∷◌ (to_event x)) (map-append_events xs ys)

  commit_each-commit_all :
      (bs : List (MetricBatch F)) (s : Store F) → commit_each in_memory bs s ≡ commit_all bs s
  unfolding commit_each commit_all
  commit_each-commit_all [] s = refl
  commit_each-commit_all (b ∷ bs) s = commit_each-commit_all bs (commit_batch b s).1

  poll_while-step :
      (limit : ℕ) (r q : SubscribeRequest) (bs : List (MetricBatch F))
      (rounds : List (List (MetricBatch F))) (s : Store F) (events : List (MetricEvent F))
      → query_events_after r limit s ≡ ok events
      → resume r events ≡ q
      → poll_while in_memory limit r (bs ∷ rounds) s
        ≡ then_more events (poll_while in_memory limit q rounds (commit_all bs s))
  unfolding poll_while
  poll_while-step limit r q bs rounds s events h e =
      rw (h, poll_while, e)
        (ap (λ t. then_more events (poll_while in_memory limit q rounds t))
          (commit_each-commit_all bs s))

  split :
      (limit : ℕ) (done rest : List (StoredMetric F)) {xs : List (StoredMetric F)}
      → xs ≡ done ++ rest
      → xs ≡ done ++ take limit rest ++ drop limit rest
  split limit done rest e =
      e
      ∙ ap (λ ys. done ++ ys) (sym (take-drop limit rest))
      ∙ sym (append_assoc done (take limit rest) (drop limit rest))

  -- Another answer is as many events as the limit, or all that are left.
  round_enough :
      (limit n : ℕ) (rest given new : List (StoredMetric F))
      → (length (drop limit rest ++ new) ≤ length given) ⊎ (length given ≡ limit * suc n)
      → (length rest ≤ length (take limit rest ++ given))
        ⊎ (length (take limit rest ++ given) ≡ limit * suc (suc n))
  round_enough limit n rest given new h =
      let all : length rest ≡ length (take limit rest) + length (drop limit rest) =
        ap length (sym (take-drop limit rest))
        ∙ length-append (take limit rest) (drop limit rest) in
      let sum = length-append (take limit rest) given in
      elim h [
        | inl a ↦ inl (omega (arith, length-append (drop limit rest) new))
        | inr b ↦ elim (length-take limit rest) [
          | inl full ↦ inr (omega (arith, mul-suc limit (suc n)))
          | inr last ↦ inl (omega arith)
        ]
      ]

  poll_while-AreMore :
      (limit : ℕ) (r : SubscribeRequest) (rounds : List (List (MetricBatch F))) (s : Store F)
      (done rest : List (StoredMetric F))
      → IsSubscription limit r
      → IsValid s
      → KeepsRoom r rounds s
      → ordered_matches r s ≡ done ++ rest
      → AreMore limit r rounds s done rest
  unfolding poll_while
  poll_while-AreMore limit r [] s done rest q v k e = record {
    given = take limit rest;
    left = drop limit rest;
    answers = first_answer limit r s done rest q v e;
    in_order = split limit done rest e;
    enough = elim (length-take limit rest) [
      | inl h ↦ inr (omega arith)
      | inr h ↦ inl (omega arith)
    ];
  }
  poll_while-AreMore limit r (bs ∷ rounds) s done rest q v k e =
      let chunk = take limit rest in
      let behind = drop limit rest in
      let t = commit_all bs s in
      let w = commit_all-IsValid bs s v in
      let (new, grown) =
        ordered_matches-grow r s t v w (commit_all-IsLaterStore bs s s v (IsLaterStore-itself s v))
          (room_now r rounds t k.1) in
      let more = poll_while-AreMore limit r rounds t (done ++ chunk) (behind ++ new) q w k.1 (
        grown
        ∙ ap (λ xs. xs ++ new) (split limit done rest e)
        ∙ append_assoc (done ++ chunk) behind new) in
      record {
        given = chunk ++ more.given;
        left = more.left;
        answers =
            poll_while-step limit (reached r done) (reached r (done ++ chunk)) bs rounds s
              (map to_event chunk) (first_answer limit r s done rest q v e)
              (resume-reached r done chunk)
            ∙ ap (then_more (map to_event chunk)) more.answers
            ∙ ap ok (sym (map-append_events chunk more.given));
        in_order = more.in_order ∙ ap (λ xs. xs ++ more.left) (append_assoc done chunk more.given);
        enough = round_enough limit (length rounds) rest more.given new more.enough;
      }

  -- `query_events_after` is called with a request that the store accepts, and again and again with
  -- the ID of the last event that was returned as `after_event_id`, while any batches are committed
  -- before each further call. The events of all calls are the first of those that the store has in
  -- the end behind the first `after_event_id`, of the requested metric and filters, in the order of
  -- their event IDs: none is left out and none comes twice. They are all such events that were there
  -- at the first call, or else as many as the limit at each call. The buffer of the requested metric
  -- is not full at any call. An `after_event_id` of 0 stands for the beginning of the store here, as
  -- it does in the code, and not for the time of the request.
  pub poll_while-AreDelivered :
      (limit : ℕ) (r : SubscribeRequest) (rounds : List (List (MetricBatch F))) (s : Store F)
      → IsSubscription limit r
      → IsValid s
      → KeepsRoom r rounds s
      → (events : List (MetricEvent F)) × (poll_while in_memory limit r rounds s ≡ ok events)
        × AreDelivered r s (last_store rounds s) (limit * suc (length rounds)) events
  poll_while-AreDelivered limit r rounds s q v k =
      let all = poll_while-AreMore limit r rounds s [] (ordered_matches r s) q v k refl in
      (
        map to_event all.given,
        all.answers,
        record {
          given = all.given;
          left = all.left;
          sent = refl;
          in_order = all.in_order;
          replayed =
              subst (IsReplay r (last_store rounds s)) all.in_order
                (ordered_matches-IsReplay r (last_store rounds s) (last_store-IsValid rounds s v));
          enough = all.enough;
        },
      )
