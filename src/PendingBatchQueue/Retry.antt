-- ===== src/PendingBatchQueue/Retry.antt =====
-- Retries in pending_batch_queue.cpp: what `mark_next_in_flight` hands out after `reset_in_flight`.
use pulse_mesh.Base.{
  ℕ, zero, suc, ◌≡◌, refl, ap, ◌∙◌, true, false, Option, some, List, [], ◌∷◌, ◌++◌, map, length,
  All,
}
use pulse_mesh.Wire.{MetricBatch}
use pulse_mesh.PendingBatchQueue.{
  PendingBatch, Queue, set_in_flight, mark_next, mark_next_in_flight, reset_in_flight, size,
}
use pulse_mesh.PendingBatchQueue.Entries.{IsInFlight}

module _ {ℓ} {F : Type ℓ} where
  -- The sender asks for the next batch `n` times: what it is given, in order.
  pub drain : ℕ → Queue F → List (Option (MetricBatch F))
  drain zero q = []
  drain (suc n) q = (mark_next_in_flight q).0 ∷ drain n (mark_next_in_flight q).1

  abbrev pub payloads : List (PendingBatch F) → List (Option (MetricBatch F))
  payloads = map λ e. some e.batch

  mark_next_after :
      (xs : List (PendingBatch F)) (e : PendingBatch F) (ys : List (PendingBatch F))
      → All IsInFlight xs
      → e.in_flight ≡ false
      → mark_next (xs ++ e ∷ ys) ≡ some (e.batch, xs ++ set_in_flight true e ∷ ys)
  unfolding mark_next
  mark_next_after [] e ys a f = rw f
  mark_next_after (x ∷ xs) e ys a f = rw (a.0, mark_next_after xs e ys a.1 f)

  All-snoc :
      (xs : List (PendingBatch F)) (e : PendingBatch F)
      → All IsInFlight xs
      → All IsInFlight (xs ++ set_in_flight true e ∷ [])
  All-snoc [] e a = (refl, tt)
  All-snoc (x ∷ xs) e a = (a.0, All-snoc xs e a.1)

  append-snoc :
      (xs : List (PendingBatch F)) (e : PendingBatch F) (ys : List (PendingBatch F))
      → xs ++ e ∷ ys ≡ (xs ++ e ∷ []) ++ ys
  append-snoc [] e ys = refl
  append-snoc (x ∷ xs) e ys = ap (◌∷◌ x) (append-snoc xs e ys)

  drain-after :
      (ys xs : List (PendingBatch F)) (q : Queue F)
      → All IsInFlight xs
      → q.batches ≡ xs ++ map (set_in_flight false) ys
      → drain (length ys) q ≡ payloads ys
  unfolding drain mark_next_in_flight
  drain-after [] xs q a h = refl
  drain-after (y ∷ ys) xs q a h =
      let m =
        ap mark_next h
        ∙ mark_next_after xs (set_in_flight false y) (map (set_in_flight false) ys) a refl in
      rw (m, mark_next_in_flight)
        (ap (◌∷◌ (some y.batch)) (
          drain-after ys (xs ++ set_in_flight true y ∷ []) _ (All-snoc xs y a)
            (append-snoc xs (set_in_flight true y) (map (set_in_flight false) ys))))

  -- After a reset the next `size` requests hand out every batch of the queue, each once, unchanged
  -- and in the order in which they were enqueued.
  pub drain-reset_in_flight :
      (q : Queue F) → drain (size q) (reset_in_flight q) ≡ payloads q.batches
  unfolding size reset_in_flight
  drain-reset_in_flight q = drain-after q.batches [] (reset_in_flight q) tt refl
