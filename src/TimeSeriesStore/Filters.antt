-- ===== src/TimeSeriesStore/Filters.antt =====
-- The filters of in_memory_time_series_store.cpp that every query shares.
use pulse_mesh.Base.{
  Bool, true, false, ◌&&◌, Text, [], ◌∷◌, Option, none, some, codes, text_eq, is_empty,
  if◌then◌else◌,
}
use pulse_mesh.Base.Maps.{find}
use pulse_mesh.Wire.{Tags, Metric, RangeRequest, LatestRequest, SubscribeRequest}
use pulse_mesh.TimeSeriesStore.{TimeSeriesStoreError, make_error, invalid_argument}

-- What the templates read of a request.
pub record Filters : Type 0 where
  pub metric_name : Text
  pub tags_filter : Tags
  pub client_id : Option Text

abbrev pub of_range : RangeRequest → Filters
of_range r = record {
  metric_name = r.metric_name;
  tags_filter = r.tags_filter;
  client_id = r.client_id;
}

abbrev pub of_latest : LatestRequest → Filters
of_latest r = record {
  metric_name = r.metric_name;
  tags_filter = r.tags_filter;
  client_id = r.client_id;
}

abbrev pub of_subscribe : SubscribeRequest → Filters
of_subscribe r = record {
  metric_name = r.metric_name;
  tags_filter = r.tags_filter;
  client_id = r.client_id;
}

abbrev has_value : Option Text → Text → Bool
has_value none v = false
has_value (some w) v = text_eq w v

module _ {ℓ} {F : Type ℓ} where
  unfoldable pub matches_tags : Metric F → Tags → Bool
  matches_tags m [] = true
  matches_tags m ((k, v) ∷ rest) = has_value (find k m.tags) v && matches_tags m rest

  abbrev matches_client : Metric F → Option Text → Bool
  matches_client m none = true
  matches_client m (some c) = text_eq m.source_client_id c

  unfoldable pub matches_filters : Metric F → Filters → Bool
  unfolding matches_tags
  matches_filters m f =
      text_eq m.name f.metric_name && matches_client m f.client_id && matches_tags m f.tags_filter

abbrev empty_client : Option Text → Bool
empty_client none = false
empty_client (some c) = is_empty c

-- `none` is a valid request.
unfoldable pub validate_query_filters : Filters → Text → Option TimeSeriesStoreError
unfolding make_error
validate_query_filters f operation =
    if is_empty f.metric_name
    then some (make_error invalid_argument operation (codes "metric_name") false)
    else if empty_client f.client_id
    then some (make_error invalid_argument operation (codes "client_id") false)
    else none
