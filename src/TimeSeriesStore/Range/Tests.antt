-- ===== src/TimeSeriesStore/Range/Tests.antt =====
-- Pages of in_memory_time_series_store.cpp with commits in between.
use pulse_mesh.Base.{
  Occurs, ℕ, suc, ◌≡◌, refl, FitsInt64, pos, codes, Text, text_eq, arith, List, [], ◌∷◌, none, some,
  length, All, Expected, ok, unexpected,
}
use pulse_mesh.Base.Double.{Whole, whole_double, Whole-IsOrdered}
use pulse_mesh.Base.Maps.{find, put}
use pulse_mesh.Text.Digits.{to_string, to_string_ℤ}
use pulse_mesh.Wire.{Metric, MetricBatch, RangeRequest, RangeResponse}
use pulse_mesh.TimeSeriesStore.{StoredMetric, TimeSeriesStoreError, Store, new}
use pulse_mesh.TimeSeriesStore.Filters.{validate_query_filters, matches_filters, matches_tags}
use pulse_mesh.TimeSeriesStore.PageToken.{
  encode_page_token, decode_page_token, take_token_field, parse_integer,
}
use pulse_mesh.TimeSeriesStore.PageToken.RoundTrip.{IsCursor}
use pulse_mesh.TimeSeriesStore.Buffer.{insert_bounded_metric}
use pulse_mesh.TimeSeriesStore.Commit.{commit_batch, commit_all, commit_metrics, validate_batch}
use pulse_mesh.TimeSeriesStore.Commit.Invariant.{commit_all-new-IsValid}
use pulse_mesh.TimeSeriesStore.Range.{timestamp, query_range, make_range_query_plan, compute_stats}
use pulse_mesh.TimeSeriesStore.Range.Stats.{AtLeast, compute_stats_bounds}
use pulse_mesh.TimeSeriesStore.Range.Answer.{IsRequest, requested, with_token}
use pulse_mesh.TimeSeriesStore.Range.Pagination.{follow, metrics_of, cursor_of, follow-requested}
use pulse_mesh.TimeSeriesStore.Range.Contents.{IsAnswer, query_range-IsAnswer}
use pulse_mesh.TimeSeriesStore.Range.Stable.{HasRoom, query_range_after_commits}
use pulse_mesh.TimeSeriesStore.Range.Interleaved.{follow_while, KeepsRoom, follow_while-requested}

abbrev load : ℕ → Metric Whole
load t = record {
  name = codes "load";
  value = some t;
  tags = [];
  timestamp_ms = pos t;
  source_client_id = codes "agent";
}

abbrev batch : Text → List (Metric Whole) → MetricBatch Whole
batch id ms = record { client_id = codes "agent"; metrics = ms; batch_id = id }

abbrev batches : List (MetricBatch Whole)
batches = batch (codes "a") (load 20 ∷ load 10 ∷ []) ∷ []

abbrev store : Store Whole
store = commit_all batches (new 8)

-- Before the second page a sample comes that is earlier than all others, and then one between them.
abbrev rounds : List (List (MetricBatch Whole))
rounds = (batch (codes "b") (load 5 ∷ []) ∷ []) ∷ (batch (codes "c") (load 15 ∷ []) ∷ []) ∷ []

abbrev request : RangeRequest
request = record {
  metric_name = codes "load";
  from_ms = pos 0;
  to_ms = pos 30;
  tags_filter = [];
  client_id = none;
  page_size = 1;
  page_token = [];
}

accepted : IsRequest request
unfolding validate_query_filters
accepted = record { filters = refl; interval = refl; size = ground arith }

in_range : All (λ x. FitsInt64 (timestamp x)) (requested request store)
unfolding commit_all commit_batch new find validate_batch commit_metrics insert_bounded_metric
    matches_filters text_eq put matches_tags
in_range = (ground arith, (ground arith, tt))

keeps_room : KeepsRoom request rounds store
unfolding commit_all commit_batch new find validate_batch commit_metrics insert_bounded_metric
    text_eq put
keeps_room = (ground arith, (ground arith, ground arith))

found :
    requested request store
    ≡ (record { metric = load 10; event_id = 2 }) ∷ (record { metric = load 20; event_id = 1 }) ∷ []
unfolding commit_all commit_batch new find validate_batch commit_metrics insert_bounded_metric
    matches_filters text_eq put matches_tags
found = refl

follow_while-requested_example :
    follow_while (suc (length (requested request store))) request [] rounds store
    ≡ some (metrics_of (requested request store))
follow_while-requested_example =
    follow_while-requested request rounds store accepted (commit_all-new-IsValid 8 batches) in_range
      keeps_room

abbrev first_sample : StoredMetric Whole
first_sample = record { metric = load 10; event_id = 2 }

token_valid : IsCursor (cursor_of store first_sample)
unfolding commit_all commit_batch new validate_batch commit_metrics text_eq
token_valid = record {
  positive = ground arith;
  covered = ground arith;
  snapshot_fits = ground arith;
  timestamp_fits = ground arith;
}

query_range-IsAnswer_example :
    let c = cursor_of store first_sample in
    (p : RangeResponse Whole) × (query_range (with_token request (encode_page_token c)) store
      ≡ ok p)
    × IsAnswer request (some c) store p
query_range-IsAnswer_example =
    let c = cursor_of store first_sample in
    query_range-IsAnswer request (some c) (encode_page_token c) store accepted
      (commit_all-new-IsValid 8 batches) (token_valid, refl, refl)

abbrev more : List (MetricBatch Whole)
more = batch (codes "b") (load 5 ∷ load 15 ∷ []) ∷ []

has_room : HasRoom request (commit_all more store)
unfolding commit_all commit_batch new find validate_batch commit_metrics insert_bounded_metric
    text_eq put
has_room = ground arith

query_range_after_commits_example :
    let token = encode_page_token (cursor_of store first_sample) in
    query_range (with_token request token) (commit_all more store)
    ≡ query_range (with_token request token) store
query_range_after_commits_example =
    query_range_after_commits request first_sample store more accepted
      (commit_all-new-IsValid 8 batches) token_valid has_room

follow-requested_example :
    follow (suc (length (requested request store))) request [] store
    ≡ some (metrics_of (requested request store))
follow-requested_example =
    follow-requested request store accepted (commit_all-new-IsValid 8 batches) in_range

compute_stats_bounds_example :
    let stats = compute_stats {F = Whole} (some 4 ∷ some 9 ∷ []) in
    Occurs stats.max (some 4 ∷ some 9 ∷ [])
    × Occurs stats.min (some 4 ∷ some 9 ∷ [])
    × All (λ x. AtLeast Whole-IsOrdered stats.max x) (some 4 ∷ some 9 ∷ [])
    × All (λ x. AtLeast Whole-IsOrdered x stats.min) (some 4 ∷ some 9 ∷ [])
compute_stats_bounds_example =
    compute_stats_bounds Whole-IsOrdered (some 4) (some 9 ∷ []) (refl, (refl, tt))

-- A store for two samples of a metric, before and after the second page of a query.
abbrev small : Store Whole
small = commit_all (batch (codes "a") (load 10 ∷ load 20 ∷ []) ∷ []) (new 2)

abbrev grown : Store Whole
grown = commit_all (batch (codes "b") (load 30 ∷ []) ∷ []) small

abbrev one_by_one : Text → RangeRequest
one_by_one token = record request { page_size = 1; page_token = token }

abbrev least_and_token : Expected TimeSeriesStoreError (RangeResponse Whole) → Whole × Text
least_and_token (ok page) = (page.min, page.next_page_token)
least_and_token (unexpected e) = (none, [])

abbrev second_token : Text
second_token = codes "v1:2:10:1"

first_page : least_and_token (query_range (one_by_one []) small) ≡ (some 10, second_token)
unfolding query_range make_range_query_plan validate_query_filters commit_all commit_batch
    validate_batch new commit_metrics find put text_eq compute_stats matches_filters
    encode_page_token to_string to_string_ℤ
first_page = refl

-- The commit of `grown` evicts the sample of the first page.
second_page : least_and_token (query_range (one_by_one second_token) grown) ≡ (some 20, [])
unfolding query_range make_range_query_plan validate_query_filters decode_page_token
    take_token_field parse_integer commit_all commit_batch validate_batch new commit_metrics text_eq
    find put compute_stats matches_filters
second_page = refl
