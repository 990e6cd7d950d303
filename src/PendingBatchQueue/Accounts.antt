-- ===== src/PendingBatchQueue/Accounts.antt =====
-- The books of pending_batch_queue.cpp: its entries and `dropped_batches()` against the results that
-- its callers saw.
use pulse_mesh.Base.{
  ℕ, ◌+◌, ◌%◌, ◌<◌, ◌^◌, ◌≡◌, refl, sym, subst, ap, inl, inr, true, false, List, [], ◌∷◌, map,
  arith, Text, if◌then◌else◌, length, length-append, Bool-cases,
}
use pulse_mesh.Wire.{MetricBatch}
use pulse_mesh.PendingBatchQueue.{
  EnqueueResult, enqueued, dropped_oldest, rejected_all_in_flight, invalid_batch, duplicate_batch,
  PendingBatch, Queue, Call, enqueues, marks, acknowledges, resets, has_id, set_in_flight, enqueue,
  mark_next_in_flight, acknowledge, reset_in_flight, size, step, run,
}
use pulse_mesh.PendingBatchQueue.Entries.{find-Oldest, find-Identified}
use pulse_mesh.PendingBatchQueue.InFlight.{sent, waiting, Effect, enqueue-Effect}

-- What the callers were told: batches taken in, acknowledged, dropped for a newer one, and refused
-- because all entries were in flight.
pub record Tally : Type 0 where
  pub taken : ℕ
  pub acknowledged : ℕ
  pub dropped : ℕ
  pub refused : ℕ

abbrev pub nothing : Tally
nothing = record { taken = 0; acknowledged = 0; dropped = 0; refused = 0 }

abbrev pub tell_enqueue : Tally → EnqueueResult → Tally
tell_enqueue t enqueued = record t { taken = t.taken + 1 }
tell_enqueue t dropped_oldest = record t { taken = t.taken + 1; dropped = t.dropped + 1 }
tell_enqueue t rejected_all_in_flight = record t { refused = t.refused + 1 }
tell_enqueue t invalid_batch = t
tell_enqueue t duplicate_batch = t

module _ {ℓ} {F : Type ℓ} where
  abbrev pub tell : Tally → Queue F → Call F → Tally
  tell t q (enqueues b) = tell_enqueue t (enqueue b q).0
  tell t q marks = t
  tell t q (acknowledges id) =
      if (acknowledge id q).0 then record t { acknowledged = t.acknowledged + 1 } else t
  tell t q resets = t

  pub tally : Tally → Queue F → List (Call F) → Tally
  tally t q [] = t
  tally t q (c ∷ cs) = tally (tell t q c) (step q c) cs

  -- The books balance, for a queue that began with `n` entries and the counter at `d`.
  pub record Balances (n d : ℕ) (t : Tally) (q : Queue F) : Type 0 where
    pub entries : length q.batches + t.acknowledged + t.dropped ≡ n + t.taken
    pub drops : q.dropped_batches ≡ (d + t.dropped + t.refused) % 2 ^ 64

  length-split : (es : List (PendingBatch F)) → length es ≡ length (sent es) + length (waiting es)
  length-split [] = omega arith
  length-split (e ∷ es) = ground (arith, length-split es)

  enqueue-Balances :
      (n d : ℕ) (t : Tally) (b : MetricBatch F) (q : Queue F) (r : EnqueueResult × Queue F)
      → Effect b q r
      → Balances n d t q
      → Balances n d (tell_enqueue t r.0) r.1
  enqueue-Balances n d t b q (enqueued, s) (_, _, _, sent_same, grown, same) v = record {
    entries = omega (
      arith,
      v.entries,
      length-split q.batches,
      length-split s.batches,
      ap length sent_same,
      ap length grown,
      length-append (waiting q.batches) (record { batch = b; in_flight = false } ∷ []),
    );
    drops = omega (arith, v.drops, same);
  }
  enqueue-Balances n d t b q (dropped_oldest, s)
        (_, _, _, sent_same, (e, rest, old, grown), counted) v =
      record {
        entries = omega (
          arith,
          v.entries,
          length-split q.batches,
          length-split s.batches,
          ap length sent_same,
          ap length old,
          ap length grown,
          length-append rest (record { batch = b; in_flight = false } ∷ []),
        );
        drops = omega (arith, v.drops, counted);
      }
  enqueue-Balances n d t b q (rejected_all_in_flight, s) (_, _, _, _, same, counted) v = record {
    entries = omega (arith, v.entries, ap length same);
    drops = omega (arith, v.drops, counted);
  }
  enqueue-Balances n d t b q (invalid_batch, s) (_, same) v = subst (Balances n d t) (sym same) v
  enqueue-Balances n d t b q (duplicate_batch, s) (_, _, same) v =
      subst (Balances n d t) (sym same) v

  mark-Balances :
      (n d : ℕ) (t : Tally) (q : Queue F)
      → Balances n d t q
      → Balances n d t (mark_next_in_flight q).1
  unfolding mark_next_in_flight
  mark-Balances n d t q v = elim (find-Oldest q.batches) [
    | inl (_, _, m) ↦ rw (m, mark_next_in_flight) v
    | inr o ↦
        rw (o.marked, mark_next_in_flight)
          (record {
            entries = omega (
              arith,
              v.entries,
              ap length o.splits,
              length-append o.before (o.entry ∷ o.after),
              length-append o.before (set_in_flight true o.entry ∷ o.after),
            );
            drops = v.drops;
          })
  ]

  acknowledge-Balances :
      (n d : ℕ) (t : Tally) (id : Text) (q : Queue F)
      → Balances n d t q
      → Balances n d (tell t q (acknowledges id)) (acknowledge id q).1
  unfolding acknowledge
  acknowledge-Balances n d t id q v = elim (Bool-cases (has_id id q.batches)) [
    | inr miss ↦ rw miss v
    | inl hit ↦
        let o = find-Identified id q.batches hit in
        rw (hit, o.erased)
          (record {
            entries = omega (
              arith,
              v.entries,
              ap length o.splits,
              length-append o.before (o.entry ∷ o.after),
              length-append o.before o.after,
            );
            drops = v.drops;
          })
  ]

  length-map : (es : List (PendingBatch F)) → length (map (set_in_flight false) es) ≡ length es
  length-map [] = refl
  length-map (e ∷ es) = omega (arith, length-map es)

  step-Balances :
      (n d : ℕ) (t : Tally) (q : Queue F) (c : Call F)
      → Balances n d t q
      → Balances n d (tell t q c) (step q c)
  unfolding step reset_in_flight
  step-Balances n d t q (enqueues b) v =
      enqueue-Balances n d t b q (enqueue b q) (enqueue-Effect b q) v
  step-Balances n d t q marks v = mark-Balances n d t q v
  step-Balances n d t q (acknowledges id) v = acknowledge-Balances n d t id q v
  step-Balances n d t q resets v = record {
    entries = omega (arith, v.entries, length-map q.batches);
    drops = v.drops;
  }

  tally-Balances :
      (n d : ℕ) (t : Tally) (q : Queue F) (cs : List (Call F))
      → Balances n d t q
      → Balances n d (tally t q cs) (run q cs)
  unfolding tally run
  tally-Balances n d t q [] v = v
  tally-Balances n d t q (c ∷ cs) v =
      tally-Balances n d (tell t q c) (step q c) cs (step-Balances n d t q c v)

  -- Over any calls on a queue with a counter below 2^64, by the results that the callers saw: the entries left, the acknowledged batches
  -- and the dropped ones make up the entries at the start and the accepted ones, and the counter has
  -- grown, modulo 2^64, by the dropped and the refused batches.
  pub run-Balances :
      (q : Queue F) (cs : List (Call F))
      → q.dropped_batches < 2 ^ 64
      → Balances (size q) q.dropped_batches (tally nothing q cs) (run q cs)
  unfolding size
  run-Balances q cs h =
      tally-Balances (length q.batches) q.dropped_batches nothing q cs
        (record { entries = omega arith; drops = omega arith })
