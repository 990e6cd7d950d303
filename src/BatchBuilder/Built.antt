-- ===== src/BatchBuilder/Built.antt =====
-- What batch_builder.cpp builds, and what the queue and the store make of it.
use pulse_mesh.Base.{
  ℕ, suc, ◌+◌, ◌%◌, ◌^◌, ◌<◌, ◌≤◌, ◌≡◌, ◌≢◌, refl, sym, ◌∙◌, inl, inr, true, false, Text, List, [],
  ◌∷◌, ◌++◌, none, arith, is_empty, length, All, All-map, Bool-cases, Expected, ok, unexpected,
}
use pulse_mesh.Base.Double.{Double}
use pulse_mesh.Text.Digits.{to_string}
use pulse_mesh.Wire.{Metric, MetricBatch}
use pulse_mesh.PendingBatchQueue.{is_invalid}
use pulse_mesh.TimeSeriesStore.Commit.{validate_metrics, validate_batch}
use pulse_mesh.BatchBuilder.{
  BatchBuilder, BatchBuildError, build_error, empty_client_id, empty_metrics, invalid_metric,
  batch_id_at, next_batch_id, is_malformed, any_malformed, build,
}
use pulse_mesh.BatchBuilder.Identity.{batch_id_at_injective}

-- The caller's view of each result of `build`.
pub data Outcome {ℓ} {F : Type ℓ} ⦃d : Double F⦄ (ms : List (Metric F)) (b : BatchBuilder)
    : Expected BatchBuildError (MetricBatch F) × BatchBuilder → Type ℓ where
  anonymous :
      is_empty b.client_id ≡ true → Outcome ms b (unexpected (build_error empty_client_id), b)
  nothing :
      is_empty b.client_id ≡ false
      → ms ≡ []
      → Outcome ms b (unexpected (build_error empty_metrics), b)
  malformed :
      is_empty b.client_id ≡ false
      → any_malformed ms ≡ true
      → Outcome ms b (unexpected (build_error invalid_metric), b)
  built :
      (batch : MetricBatch F)
      → batch.client_id ≡ b.client_id
      → batch.metrics ≡ ms
      → batch.batch_id ≡ batch_id_at b.client_id b.session_nonce b.next_sequence
      → is_invalid batch ≡ false
      → validate_batch batch ≡ none
      → Outcome ms b (ok batch, record b { next_sequence = (b.next_sequence + 1) % 2 ^ 64 })

abbrev advance : BatchBuilder → BatchBuilder
advance b = record b { next_sequence = (b.next_sequence + 1) % 2 ^ 64 }

is_empty-append : (xs : Text) (y : ℕ) (ys : Text) → is_empty (xs ++ (y ∷ ys)) ≡ false
is_empty-append [] y ys = refl
is_empty-append (x ∷ xs) y ys = refl

pub is_empty-batch_id_at :
    (client : Text) (nonce sequence : ℕ) → is_empty (batch_id_at client nonce sequence) ≡ false
unfolding batch_id_at
is_empty-batch_id_at client nonce sequence = is_empty-append _ b'-' (to_string sequence)

module _ {ℓ} {F : Type ℓ} ⦃d : Double F⦄ where
  validate_metrics-none :
      (ms : List (Metric F)) → any_malformed ms ≡ false → validate_metrics ms ≡ none
  unfolding validate_metrics any_malformed
  validate_metrics-none [] h = refl
  validate_metrics-none (m ∷ ms) h = elim (Bool-cases (is_malformed m)) [
    | inl bad ↦ let e : any_malformed (m ∷ ms) ≡ true = rw bad refl in absurd (cc)
    | inr good ↦
        let e : any_malformed (m ∷ ms) ≡ any_malformed ms = rw good refl in
        rw good (validate_metrics-none ms (sym e ∙ h))
  ]

  no_metrics : (ms : List (Metric F)) → is_empty ms ≡ true → ms ≡ []
  no_metrics [] h = refl
  no_metrics (m ∷ ms) h = absurd (cc)

  -- A refused build names its reason and leaves the builder as it was, its sequence number included.
  -- A batch that is built has the builder's client ID, the metrics in order and the ID of the next
  -- sequence number, which goes up by one; the agent's queue does not call it invalid, and the store's
  -- validation accepts it.
  pub build-Outcome : (ms : List (Metric F)) (b : BatchBuilder) → Outcome ms b (build ms b)
  unfolding build next_batch_id validate_batch
  build-Outcome ms b = elim (Bool-cases (is_empty b.client_id)) [
    | inl unnamed ↦ rw unnamed (anonymous unnamed)
    | inr named ↦ elim (Bool-cases (is_empty ms)) [
      | inl none_given ↦ rw (named, none_given) (nothing named (no_metrics ms none_given))
      | inr something ↦ elim (Bool-cases (any_malformed ms)) [
        | inl bad ↦ rw (named, something, bad) (malformed named bad)
        | inr good ↦
            let id = is_empty-batch_id_at b.client_id b.session_nonce b.next_sequence in
            rw (named, something, good)
              (built _ refl refl refl (rw (named, id, something) refl)
                (rw (named, id, something) (validate_metrics-none ms good)))
      ]
    ]
  ]

  -- The batches that a builder makes of the collected metrics, one list after the other.
  abbrev pub then_build :
      Expected BatchBuildError (MetricBatch F) → List (MetricBatch F) → List (MetricBatch F)
  then_build (unexpected e) rest = rest
  then_build (ok batch) rest = batch ∷ rest

  unfoldable pub build_all : List (List (Metric F)) → BatchBuilder → List (MetricBatch F)
  build_all [] b = []
  build_all (ms ∷ mss) b = then_build (build ms b).0 (build_all mss (build ms b).1)

  -- No two batches of the list have the same ID.
  abbrev pub DistinctIds : List (MetricBatch F) → Type ℓ
  DistinctIds [] = Unit
  DistinctIds (x ∷ xs) = All (λ y. x.batch_id ≢ y.batch_id) xs × DistinctIds xs

  -- The ID is that of the builder at a sequence number from `low` on.
  IsFrom : BatchBuilder → ℕ → MetricBatch F → Type 0
  IsFrom b low x =
      (k : ℕ) × (low ≤ k) × (k < 2 ^ 64) × (x.batch_id ≡ batch_id_at b.client_id b.session_nonce k)

  abbrev Fresh : BatchBuilder → List (MetricBatch F) → Type ℓ
  Fresh b xs = All (IsFrom b b.next_sequence) xs × DistinctIds xs

  older_differs :
      (b : BatchBuilder) (x y : MetricBatch F)
      → x.batch_id ≡ batch_id_at b.client_id b.session_nonce b.next_sequence
      → IsFrom b (suc b.next_sequence) y
      → x.batch_id ≢ y.batch_id
  unfolding IsFrom
  older_differs b x y e (k, low, high, f) h =
      let i = (batch_id_at_injective _ _ _ _ _ _ (sym e ∙ h ∙ f)).2 in omega (arith, i, low)

  IsFrom-older :
      (b : BatchBuilder) (y : MetricBatch F)
      → IsFrom b (suc b.next_sequence) y
      → IsFrom b b.next_sequence y
  unfolding IsFrom
  IsFrom-older b y (k, low, high, f) = (k, omega (arith, low), high, f)

  IsFrom-advance :
      (b : BatchBuilder) (y : MetricBatch F)
      → b.next_sequence + 1 < 2 ^ 64
      → IsFrom (advance b) (advance b).next_sequence y
      → IsFrom b (suc b.next_sequence) y
  unfolding IsFrom
  IsFrom-advance b y h (k, low, high, f) = (k, omega (arith, h, low), high, f)

  then_build-Fresh :
      (ms : List (Metric F)) (b : BatchBuilder) (rest : List (MetricBatch F))
      (r : Expected BatchBuildError (MetricBatch F) × BatchBuilder)
      → Outcome ms b r
      → b.next_sequence + 1 < 2 ^ 64
      → Fresh r.1 rest
      → Fresh b (then_build r.0 rest)
  then_build-Fresh ms b rest r (anonymous _) h p = p
  then_build-Fresh ms b rest r (nothing _ _) h p = p
  then_build-Fresh ms b rest r (malformed _ _) h p = p
  then_build-Fresh ms b rest r (built x _ _ e _ _) h p =
      let later = All-map _ (IsFrom b (suc b.next_sequence)) rest (λ y. IsFrom-advance b y h) p.0 in
      (
        (
          unfold IsFrom in (b.next_sequence, omega arith, omega (arith, h), e),
          All-map _ (IsFrom b b.next_sequence) rest (IsFrom-older b) later,
        ),
        (All-map _ (λ y. x.batch_id ≢ y.batch_id) rest (λ y. older_differs b x y e) later, p.1),
      )

  sequence-within :
      (ms : List (Metric F)) (b : BatchBuilder)
      (r : Expected BatchBuildError (MetricBatch F) × BatchBuilder) (n : ℕ)
      → Outcome ms b r
      → b.next_sequence + suc n < 2 ^ 64
      → r.1.next_sequence + n < 2 ^ 64
  sequence-within ms b r n (anonymous _) h = omega (arith, h)
  sequence-within ms b r n (nothing _ _) h = omega (arith, h)
  sequence-within ms b r n (malformed _ _) h = omega (arith, h)
  sequence-within ms b r n (built _ _ _ _ _ _) h = omega (arith, h)

  build_all-Fresh :
      (mss : List (List (Metric F))) (b : BatchBuilder)
      → b.next_sequence + length mss < 2 ^ 64
      → Fresh b (build_all mss b)
  unfolding build_all
  build_all-Fresh [] b h = (tt, tt)
  build_all-Fresh (ms ∷ mss) b h =
      then_build-Fresh ms b (build_all mss (build ms b).1) (build ms b) (build-Outcome ms b)
        (omega (arith, h))
        (build_all-Fresh mss (build ms b).1
          (sequence-within ms b (build ms b) (length mss) (build-Outcome ms b) h))

  -- Until the sequence numbers of `uint64_t` run out, no two batches that a builder makes have the
  -- same ID, and failed builds in between do not matter.
  pub build_all-DistinctIds :
      (mss : List (List (Metric F))) (b : BatchBuilder)
      → b.next_sequence + length mss < 2 ^ 64
      → DistinctIds (build_all mss b)
  build_all-DistinctIds mss b h = (build_all-Fresh mss b h).1
