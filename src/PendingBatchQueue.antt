-- ===== src/PendingBatchQueue.antt =====
-- cpp/client/impl/pending_batch_queue: the agent's bounded queue of batches that have no commit
-- acknowledgement yet. Every method holds the mutex for its whole body (`enqueue` after a check of
-- its own argument), so that each is one step on the state; what threads do is a sequence of steps.
pub mod Tests
pub mod Entries
pub mod Contents
pub mod Invariant
pub mod InFlight
pub mod Kept
pub mod Accounts
pub mod Retry
use pulse_mesh.Base.{
  ℕ, suc, ◌+◌, ◌%◌, ◌^◌, ◌≡◌, Bool, true, false, not, ◌||◌, Option, none, some, List, [], ◌∷◌, ◌++◌,
  map, arith, Text, text_eq, is_empty, ◌==◌, if◌then◌else◌, length,
}
use mathlib.Core.Option
use pulse_mesh.Wire.{MetricBatch}

pub data EnqueueResult : Type 0 where
  enqueued dropped_oldest rejected_all_in_flight invalid_batch duplicate_batch : EnqueueResult

pub record PendingBatch {ℓ} (F : Type ℓ) : Type ℓ where
  pub batch : MetricBatch F
  pub in_flight : Bool

-- `capacity_`, `batches_` with the front of the deque first, and `dropped_batches_`.
pub record Queue {ℓ} (F : Type ℓ) : Type ℓ where
  pub capacity : ℕ
  pub batches : List (PendingBatch F)
  pub dropped_batches : ℕ

abbrev pub default_capacity : ℕ
default_capacity = 256

-- `fetch_add(1)` on a `uint64_t`.
abbrev pub count_drop : ℕ → ℕ
count_drop n = (n + 1) % 2 ^ 64

module _ {ℓ} {F : Type ℓ} where
  unfoldable pub new : ℕ → Queue F
  new capacity = record {
    capacity = if capacity == 0 then default_capacity else capacity;
    batches = [];
    dropped_batches = 0;
  }

  abbrev pub id_of : PendingBatch F → Text
  id_of e = e.batch.batch_id

  -- `find_if` on the batch ID, as the test whether it succeeds.
  unfoldable pub has_id : Text → List (PendingBatch F) → Bool
  has_id id [] = false
  has_id id (e ∷ es) = text_eq (id_of e) id || has_id id es

  -- `erase(find_if(... !in_flight))`; `none` when every entry is in flight.
  unfoldable pub erase_oldest_pending : List (PendingBatch F) → Option (List (PendingBatch F))
  erase_oldest_pending [] = none
  erase_oldest_pending (e ∷ es) =
      if e.in_flight then Option.map (◌∷◌ e) (erase_oldest_pending es) else some es

  abbrev pub push_back : List (PendingBatch F) → MetricBatch F → List (PendingBatch F)
  push_back es b = es ++ (record { batch = b; in_flight = false } ∷ [])

  abbrev pub is_invalid : MetricBatch F → Bool
  is_invalid b = is_empty b.client_id || is_empty b.batch_id || is_empty b.metrics

  -- The part of `enqueue` that makes room, and appends.
  unfoldable pub enqueue_bounded : MetricBatch F → Queue F → EnqueueResult × Queue F
  enqueue_bounded b q =
      if length q.batches == q.capacity
      then elim (erase_oldest_pending q.batches) [
        | none ↦
            (rejected_all_in_flight, record q { dropped_batches = count_drop q.dropped_batches })
        | some es ↦ (
          dropped_oldest,
          record q { batches = push_back es b; dropped_batches = count_drop q.dropped_batches },
        )
      ]
      else (enqueued, record q { batches = push_back q.batches b })

  unfoldable pub enqueue : MetricBatch F → Queue F → EnqueueResult × Queue F
  unfolding enqueue_bounded
  enqueue b q =
      if is_invalid b
      then (invalid_batch, q)
      else if has_id b.batch_id q.batches
      then (duplicate_batch, q)
      else enqueue_bounded b q

  abbrev pub set_in_flight : Bool → PendingBatch F → PendingBatch F
  set_in_flight f e = record e { in_flight = f }

  -- `find_if(... !in_flight)` and the mark: the marked entry's batch, and all entries after it.
  unfoldable pub mark_next : List (PendingBatch F) → Option (MetricBatch F × List (PendingBatch F))
  mark_next [] = none
  mark_next (e ∷ es) =
      if e.in_flight
      then Option.map (λ r. (r.0, e ∷ r.1)) (mark_next es)
      else some (e.batch, set_in_flight true e ∷ es)

  unfoldable pub mark_next_in_flight : Queue F → Option (MetricBatch F) × Queue F
  unfolding mark_next
  mark_next_in_flight q = elim (mark_next q.batches) [
    | none ↦ (none, q)
    | some (b, es) ↦ (some b, record q { batches = es })
  ]

  -- `erase(find_if(... batch_id))`, where the entry exists.
  unfoldable pub erase_id : Text → List (PendingBatch F) → List (PendingBatch F)
  erase_id id [] = []
  erase_id id (e ∷ es) = if text_eq (id_of e) id then es else e ∷ erase_id id es

  unfoldable pub acknowledge : Text → Queue F → Bool × Queue F
  acknowledge id q =
      if has_id id q.batches
      then (true, record q { batches = erase_id id q.batches })
      else (false, q)

  unfoldable pub reset_in_flight : Queue F → Queue F
  reset_in_flight q = record q { batches = map (set_in_flight false) q.batches }

  unfoldable pub size : Queue F → ℕ
  size q = length q.batches

-- One call of a method that changes the state.
pub data Call {ℓ} (F : Type ℓ) : Type ℓ where
  enqueues : MetricBatch F → Call F
  marks : Call F
  acknowledges : Text → Call F
  resets : Call F

module _ {ℓ} {F : Type ℓ} where
  unfoldable pub step : Queue F → Call F → Queue F
  step q (enqueues b) = (enqueue b q).1
  step q marks = (mark_next_in_flight q).1
  step q (acknowledges id) = (acknowledge id q).1
  step q resets = reset_in_flight q

  unfoldable pub run : Queue F → List (Call F) → Queue F
  unfolding step
  run q [] = q
  run q (c ∷ cs) = run (step q c) cs
