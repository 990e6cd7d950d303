-- ===== src/TimeSeriesStore/Range/Interleaved.antt =====
-- A client that follows the page tokens of `query_range` of in_memory_time_series_store.cpp while
-- `commit_batch` is called.
use mathlib.Core.Option
use pulse_mesh.Base.{
  ℕ, zero, suc, ◌-◌, ◌≡◌, refl, sym, ap, ◌∙◌, inl, inr, Text, FitsInt64, List, [], ◌∷◌, ◌++◌,
  Option, none, some, arith, ltb, ltb→lt, if◌then◌else◌, is_empty, length, All, ok, unexpected,
  Bool-cases,
}
use pulse_mesh.Base.Double.{Double}
use pulse_mesh.Wire.{Metric, MetricBatch, RangeRequest, RangeResponse}
use pulse_mesh.TimeSeriesStore.{Store}
use pulse_mesh.TimeSeriesStore.PageToken.{RangePageCursor, encode_page_token}
use pulse_mesh.TimeSeriesStore.Commit.{commit_all}
use pulse_mesh.TimeSeriesStore.Commit.Invariant.{IsValid, commit_all-IsValid}
use pulse_mesh.TimeSeriesStore.Commit.Snapshot.{
  IsLaterStore, IsLaterStore-itself, commit_all-IsLaterStore,
}
use pulse_mesh.TimeSeriesStore.Range.{
  timestamp, normal_page_size, make_range_query_plan, query_range, respond,
}
use pulse_mesh.TimeSeriesStore.Range.Page.{state_after}
use pulse_mesh.TimeSeriesStore.Range.Answer.{
  with_token, IsRequest, plan_at, plan_first, plan_next, page_size_fits, requested, left, IsCurrent,
  next-IsCursor, query_range_lem,
}
use pulse_mesh.TimeSeriesStore.Range.Pagination.{
  follow, metrics_of, then_follow, follow-page, last_page, cursor_of, next_token, follow-requested,
}
use pulse_mesh.TimeSeriesStore.Range.Stable.{HasRoom, query_range-later}

module _ {ℓ} {F : Type ℓ} ⦃d : Double F⦄ where
  -- What is committed between the pages: a list of batches before each page but the first.
  abbrev next_rounds : List (List (MetricBatch F)) → List (List (MetricBatch F))
  next_rounds [] = []
  next_rounds (bs ∷ rounds) = rounds

  abbrev after_round : List (List (MetricBatch F)) → Store F → Store F
  after_round [] s = s
  after_round (bs ∷ rounds) s = commit_all bs s

  -- `follow` where batches are committed between the pages.
  pub follow_while :
      ℕ → RangeRequest → Text → List (List (MetricBatch F)) → Store F → Option (List (Metric F))
  follow_while zero r token rounds s = none
  follow_while (suc fuel) r token rounds s = elim (query_range (with_token r token) s) [
    | unexpected e ↦ none
    | ok page ↦
        let rest =
          follow_while fuel r page.next_page_token (next_rounds rounds) (after_round rounds s) in
        if is_empty page.next_page_token
        then some page.metrics
        else Option.map (λ ms. page.metrics ++ ms) rest
  ]

  -- The buffer of the requested metric is not full after any of the rounds.
  abbrev pub KeepsRoom : RangeRequest → List (List (MetricBatch F)) → Store F → Type 0
  KeepsRoom r [] s = HasRoom r s
  KeepsRoom r (bs ∷ rounds) s = HasRoom r s × KeepsRoom r rounds (commit_all bs s)

  room_now :
      (r : RangeRequest) (rounds : List (List (MetricBatch F))) (s : Store F)
      → KeepsRoom r rounds s
      → HasRoom r s
  room_now r [] s h = h
  room_now r (bs ∷ rounds) s h = h.0

  room_next :
      (r : RangeRequest) (rounds : List (List (MetricBatch F))) (s : Store F)
      → KeepsRoom r rounds s
      → KeepsRoom r (next_rounds rounds) (after_round rounds s)
  room_next r [] s h = h
  room_next r (bs ∷ rounds) s h = h.1

  after_round-IsValid :
      (rounds : List (List (MetricBatch F))) (s : Store F)
      → IsValid s
      → IsValid (after_round rounds s)
  after_round-IsValid [] s v = v
  after_round-IsValid (bs ∷ rounds) s v = commit_all-IsValid bs s v

  after_round-IsLaterStore :
      (rounds : List (List (MetricBatch F))) (s t : Store F)
      → IsValid t
      → IsLaterStore s t
      → IsLaterStore s (after_round rounds t)
  after_round-IsLaterStore [] s t v l = l
  after_round-IsLaterStore (bs ∷ rounds) s t v l = commit_all-IsLaterStore bs s t v l

  follow_while-page :
      (fuel : ℕ) (r : RangeRequest) (token : Text) (rounds : List (List (MetricBatch F)))
      (s : Store F) (page : RangeResponse F)
      → query_range (with_token r token) s ≡ ok page
      → follow_while (suc fuel) r token rounds s
        ≡ then_follow page
            (follow_while fuel r page.next_page_token (next_rounds rounds) (after_round rounds s))
  unfolding follow_while
  follow_while-page fuel r token rounds s page e = rw (e, follow_while)

  -- Later stores give the answers of the store of the first page, so that it does not matter to the
  -- client what is committed.
  follow_while-follow :
      (fuel : ℕ) (r : RangeRequest) (tok : Text) (c : Option RangePageCursor)
      (rounds : List (List (MetricBatch F))) (s t : Store F) (n : ℕ)
      → normal_page_size r.page_size ≡ suc n
      → IsRequest r
      → IsValid s
      → IsValid t
      → IsCurrent s c
      → All (λ x. FitsInt64 (timestamp x)) (requested r s)
      → make_range_query_plan (with_token r tok) ≡ ok (plan_at r c)
      → IsLaterStore s t
      → KeepsRoom r rounds t
      → query_range (with_token r tok) t ≡ query_range (with_token r tok) s
      → follow_while fuel r tok rounds t ≡ follow fuel r tok s
  unfolding follow_while follow
  follow_while-follow zero r tok c rounds s t n e q u v k f p l m same = refl
  follow_while-follow (suc fuel) r tok c rounds s t n e q u v k f p l m same =
      let page = respond (state_after (plan_at r c) s.current_event_id (requested r s)) in
      let answer = query_range_lem r c tok s q u k p in
      let next = after_round rounds t in
      follow_while-page fuel r tok rounds t page (same ∙ answer)
      ∙ elim (Bool-cases (ltb (suc n) (length (left r c s)))) [
        | inr last ↦ last_page r c s _ (rw e last) ∙ sym (last_page r c s _ (rw e last))
        | inl more ↦
            let big = ltb→lt (suc n) (length (left r c s)) more in
            let (y, z, w) = next-IsCursor r c s n u f (omega arith) in
            let token = next_token r c s n y e more z in
            let later = after_round-IsLaterStore rounds s t v l in
            let valid = after_round-IsValid rounds t v in
            let room = room_next r rounds t m in
            let asked = query_range-later r y s next q u valid w later (room_now r _ next room) in
            ap (then_follow page) (
              ap (λ k. follow_while fuel r k (next_rounds rounds) next) token
              ∙ follow_while-follow fuel r (encode_page_token (cursor_of s y))
                  (some (cursor_of s y)) (next_rounds rounds) s next n e q u valid refl f
                  (plan_next r (cursor_of s y) q w) later room asked
              ∙ sym (ap (λ k. follow fuel r k s) token))
      ]
      ∙ sym (follow-page fuel r tok s page answer)

  -- A client that asks for the first page of a request that the store accepts, and then for the page
  -- of each token until there is none, while any batches are committed before each further page, is
  -- given every sample that was requested when it began, exactly once, in order of timestamp and
  -- event ID, and no other. The buffer of the requested metric is not full while it asks, the
  -- request names no token, and the timestamps are in the range of `int64_t`; one page more than the
  -- samples is enough.
  pub follow_while-requested :
      (r : RangeRequest) (rounds : List (List (MetricBatch F))) (s : Store F)
      → IsRequest r
      → IsValid s
      → All (λ x. FitsInt64 (timestamp x)) (requested r s)
      → KeepsRoom r rounds s
      → follow_while (suc (length (requested r s))) r [] rounds s
        ≡ some (metrics_of (requested r s))
  follow_while-requested r rounds s q v f m =
      let n = normal_page_size r.page_size - 1 in
      let e : normal_page_size r.page_size ≡ suc n = omega (arith, (page_size_fits r q).0) in
      follow_while-follow (suc (length (requested r s))) r [] none rounds s s n e q v v tt f
        (plan_first r q) (IsLaterStore-itself s v) m refl
      ∙ follow-requested r s q v f
