-- ===== src/BatchBuilder/Session.antt =====
-- The sessions of batch_builder.cpp: what the nonce is that the first constructor draws, and what it
-- means for the IDs of different sessions.
use Prim.Native.Nat.{bit_xor, bit_xor-bitwise, differ}
use Prim.Native.Nat
use native.Mathlib.Nat.{pow-suc, mul_assoc}
use pulse_mesh.Base.{
  ℕ, zero, suc, ◌+◌, ◌*◌, ◌/◌, ◌%◌, ◌^◌, ◌<◌, ◌≤◌, ◌≡◌, ◌≢◌, refl, sym, subst, ap, ◌∙◌, ◌⊎◌, inl,
  inr, Text, List, [], ◌∷◌, arith, All, All-map, Expected,
}
use pulse_mesh.Base.Double.{Double}
use pulse_mesh.Wire.{Metric, MetricBatch}
use pulse_mesh.BatchBuilder.{
  BatchBuilder, BatchBuildError, make_session_nonce, new_session, batch_id_at, build,
}
use pulse_mesh.BatchBuilder.Identity.{batch_id_at_injective}
use pulse_mesh.BatchBuilder.Built.{
  Outcome, anonymous, nothing, malformed, built, build-Outcome, then_build, build_all,
}

xor_digits : ℕ → ℕ → ℕ → ℕ
xor_digits = Nat.digits (λ b. b) differ

differ-zero : (a : ℕ) → differ a 0 ≡ a
differ-zero zero = refl
differ-zero (suc a) = refl

xor_digits-zero : (n a : ℕ) → a ≤ n → xor_digits n a 0 ≡ a
unfolding xor_digits
xor_digits-zero zero zero h = refl
xor_digits-zero zero (suc a) h = absurd (omega (arith, h))
xor_digits-zero (suc n) zero h = refl
xor_digits-zero (suc n) (suc a) h =
    omega (arith, xor_digits-zero n (suc a / 2) (omega (arith, h)), differ-zero (suc a % 2))

-- Below the digits of `a`, which is a multiple of a power of two, the exclusive or puts those of `b`.
xor_digits-below : (k n a m b : ℕ) → a ≡ m * 2 ^ k → a ≤ n → b < 2 ^ k → xor_digits n a b ≡ a + b
unfolding xor_digits
xor_digits-below zero n a m b e h l =
    let empty : b ≡ 0 = omega (arith, l) in
    subst (λ c. xor_digits n a c ≡ a + c) (sym empty) (xor_digits-zero n a h ∙ omega arith)
xor_digits-below (suc k) zero zero m b e h l = omega arith
xor_digits-below (suc k) zero (suc a) m b e h l = absurd (omega (arith, h))
xor_digits-below (suc k) (suc n) zero m b e h l = omega arith
xor_digits-below (suc k) (suc n) (suc a) m b e h l =
    let power = pow-suc 2 k in
    let even : suc a ≡ (m * 2 ^ k) * 2 = e ∙ ap (λ p. m * p) power ∙ sym (mul_assoc m (2 ^ k) 2) in
    let half : suc a / 2 ≡ m * 2 ^ k = omega (arith, even) in
    let last : suc a % 2 ≡ 0 = omega (arith, even) in
    let rest =
      xor_digits-below k n (suc a / 2) m (b / 2) half (omega (arith, h))
        (omega (arith, l, power)) in
    omega (arith, rest, ap (λ d. differ d (b % 2)) last, even)

-- `std::random_device` draws numbers of 32 bits: the nonce is the two numbers, one behind the other.
make_session_nonce_lem :
    (first second : ℕ)
    → first < 2 ^ 32
    → second < 2 ^ 32
    → make_session_nonce first second ≡ first * 2 ^ 32 + second
unfolding make_session_nonce xor_digits
make_session_nonce_lem first second f s =
    let small : (first * 2 ^ 32) % 2 ^ 64 ≡ first * 2 ^ 32 = omega (arith, f) in
    ap (λ h. bit_xor h second) small
    ∙ bit_xor-bitwise (first * 2 ^ 32) second
    ∙ xor_digits-below 32 (first * 2 ^ 32) (first * 2 ^ 32) first second refl (omega arith) s

-- Two draws of the random device, of 32 bits each.
pub record AreDraws (first second : ℕ) : Type 0 where
  pub first_fits : first < 2 ^ 32
  pub second_fits : second < 2 ^ 32

make_session_nonce_injective :
    (a b c d : ℕ)
    → AreDraws a b
    → AreDraws c d
    → make_session_nonce a b ≡ make_session_nonce c d
    → (a ≡ c) × (b ≡ d)
make_session_nonce_injective a b c d v w h =
    let s = v.second_fits in
    let t = w.second_fits in
    let p = make_session_nonce_lem a b v.first_fits s in
    let q = make_session_nonce_lem c d w.first_fits t in
    let e : a * 2 ^ 32 + b ≡ c * 2 ^ 32 + d = sym p ∙ h ∙ q in
    (omega (arith, e, s, t), omega (arith, e, s, t))

-- The sessions have another client ID, or have drawn another number.
abbrev pub Differ : Text → ℕ → ℕ → Text → ℕ → ℕ → Type 0
Differ client a b other c e = (client ≢ other) ⊎ ((a ≢ c) ⊎ (b ≢ e))

module _ {ℓ} {F : Type ℓ} ⦃d : Double F⦄ where
  -- A batch that carries an ID of the builder's session.
  abbrev IsOfSession : BatchBuilder → MetricBatch F → Type 0
  IsOfSession b x = (k : ℕ) × (x.batch_id ≡ batch_id_at b.client_id b.session_nonce k)

  then_build-IsOfSession :
      (ms : List (Metric F)) (b : BatchBuilder) (rest : List (MetricBatch F))
      (r : Expected BatchBuildError (MetricBatch F) × BatchBuilder)
      → Outcome ms b r
      → (All (IsOfSession r.1) rest)
      → All (IsOfSession b) (then_build r.0 rest)
  then_build-IsOfSession ms b rest r (anonymous _) p = p
  then_build-IsOfSession ms b rest r (nothing _ _) p = p
  then_build-IsOfSession ms b rest r (malformed _ _) p = p
  then_build-IsOfSession ms b rest r (built x _ _ e _ _) p = ((b.next_sequence, e), p)

  build_all-IsOfSession :
      (mss : List (List (Metric F))) (b : BatchBuilder) → All (IsOfSession b) (build_all mss b)
  unfolding build_all
  build_all-IsOfSession [] b = tt
  build_all-IsOfSession (ms ∷ mss) b =
      then_build-IsOfSession ms b (build_all mss (build ms b).1) (build ms b) (build-Outcome ms b)
        (build_all-IsOfSession mss (build ms b).1)

  -- No batch of the one list has the ID of a batch of the other.
  abbrev pub DisjointIds : List (MetricBatch F) → List (MetricBatch F) → Type 0
  DisjointIds xs ys = All (λ x. All (λ y. x.batch_id ≢ y.batch_id) ys) xs

  differs :
      (client other : Text) (a b c e : ℕ) (x y : MetricBatch F)
      → AreDraws a b
      → AreDraws c e
      → Differ client a b other c e
      → IsOfSession (new_session client a b) x
      → IsOfSession (new_session other c e) y
      → x.batch_id ≢ y.batch_id
  unfolding new_session
  differs client other a b c e x y v w n (k, p) (j, q) h =
      let (same, nonces, _) = batch_id_at_injective _ _ _ _ _ _ (sym p ∙ h ∙ q) in
      let (i, l) = make_session_nonce_injective a b c e v w nonces in
      elim n [ inl m ↦ m same | inr m ↦ elim m [ inl o ↦ o i | inr o ↦ o l ] ]

  -- The batches of two sessions never have the same ID, whatever they collect and however many batches
  -- they build, if the sessions have different client IDs, or different numbers were drawn for them;
  -- these are of 32 bits, as `std::random_device` draws them.
  pub build_all-DisjointIds :
      (mss nss : List (List (Metric F))) (client other : Text) (a b c e : ℕ)
      → AreDraws a b
      → AreDraws c e
      → Differ client a b other c e
      → DisjointIds (build_all mss (new_session client a b)) (build_all nss (new_session other c e))
  build_all-DisjointIds mss nss client other a b c e v w n =
      All-map _ _ (build_all mss (new_session client a b))
        (λ x p.
          All-map _ _ (build_all nss (new_session other c e))
            (λ y q. differs client other a b c e x y v w n p q)
            (build_all-IsOfSession nss (new_session other c e)))
        (build_all-IsOfSession mss (new_session client a b))
