-- ===== src/BatchBuilder.antt =====
-- cpp/client/impl/batch_builder: batches and their IDs. A `build` is one step, since its only access
-- to the shared state is one `fetch_add`. What the first constructor draws from `std::random_device`
-- for the session's nonce are arguments.
pub mod Tests
pub mod Identity
pub mod Built
pub mod Session
use Prim.Native.Nat.{bit_xor}
use pulse_mesh.Base.{
  ℕ, zero, suc, ◌+◌, ◌-◌, ◌*◌, ◌%◌, ◌^◌, Bool, true, false, not, ◌||◌, Text, is_empty, List, [],
  ◌∷◌, ◌++◌, if◌then◌else◌, length, Expected, ok, unexpected,
}
use pulse_mesh.Base.Double.{Double}
use pulse_mesh.Text.Digits.{digits, to_string}
use pulse_mesh.Wire.{Metric, MetricBatch}

pub data BatchBuildErrorCode : Type 0 where
  empty_client_id empty_metrics invalid_metric : BatchBuildErrorCode

pub record BatchBuildError : Type 0 where
  pub code : BatchBuildErrorCode

abbrev pub build_error : BatchBuildErrorCode → BatchBuildError
build_error code = record { code = code }

pub record BatchBuilder : Type 0 where
  pub client_id : Text
  pub session_nonce : ℕ
  pub next_sequence : ℕ

unfoldable pub new : Text → ℕ → BatchBuilder
new client_id session_nonce = record {
  client_id = client_id;
  session_nonce = session_nonce;
  next_sequence = 1;
}

-- `make_session_nonce`: `first` and `second` are what `std::random_device` draws.
unfoldable pub make_session_nonce : ℕ → ℕ → ℕ
make_session_nonce first second = let high = (first * 2 ^ 32) % 2 ^ 64 in bit_xor high second

-- The constructor that draws the nonce.
unfoldable pub new_session : Text → ℕ → ℕ → BatchBuilder
unfolding new
new_session client_id first second = new client_id (make_session_nonce first second)

abbrev pub zeros : ℕ → Text
zeros zero = []
zeros (suc n) = b'0' ∷ zeros n

-- `std::hex` with `std::setfill('0')` and `std::setw(16)`.
unfoldable pub hex16 : ℕ → Text
hex16 n = zeros (16 - length (digits 16 n)) ++ digits 16 n

-- The text that `next_batch_id` streams.
unfoldable pub batch_id_at : Text → ℕ → ℕ → Text
batch_id_at client nonce sequence = (client ++ (b'-' ∷ hex16 nonce)) ++ (b'-' ∷ to_string sequence)

-- `next_batch_id`, with the `fetch_add(1)` on a `uint64_t`.
unfoldable pub next_batch_id : BatchBuilder → Text × BatchBuilder
next_batch_id b = (
  batch_id_at b.client_id b.session_nonce b.next_sequence,
  record b { next_sequence = (b.next_sequence + 1) % 2 ^ 64 },
)

module _ {ℓ} {F : Type ℓ} ⦃d : Double F⦄ where
  abbrev pub is_malformed : Metric F → Bool
  is_malformed m = is_empty m.name || not (d.is_finite m.value)

  unfoldable pub any_malformed : List (Metric F) → Bool
  any_malformed [] = false
  any_malformed (m ∷ ms) = if is_malformed m then true else any_malformed ms

  unfoldable pub build :
      List (Metric F) → BatchBuilder → Expected BatchBuildError (MetricBatch F) × BatchBuilder
  unfolding any_malformed next_batch_id
  build metrics b =
      if is_empty b.client_id
      then (unexpected (build_error empty_client_id), b)
      else if is_empty metrics
      then (unexpected (build_error empty_metrics), b)
      else if any_malformed metrics
      then (unexpected (build_error invalid_metric), b)
      else let (id, after) = next_batch_id b in
        (ok (record { client_id = b.client_id; metrics = metrics; batch_id = id }), after)
