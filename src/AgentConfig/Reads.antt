-- ===== src/AgentConfig/Reads.antt =====
-- What each option of agent_config.cpp leaves in the state of the parser, by the values given to it.
use pulse_mesh.Base.{
  ◌≡◌, refl, sym, ap, ◌∙◌, ◌⊎◌, inl, inr, Bool, true, false, Text, text_eq, is_empty, List, [], ◌∷◌,
  ◌++◌, append-nil, Option, none, some, if◌then◌else◌, ok, unexpected, Bool-cases, Option-cases,
  All,
}
use pulse_mesh.AgentConfig.{
  ConfigParseState, Parsed, parse_positive_interval, parse_positive_capacity, parse_client_id,
  parse_interval, parse_endpoint, parse_queue_capacity, split_argument,
}

-- The values that the arguments give to an option, in order.
abbrev pub value_if : Text → Option (Text × Text) → List Text
value_if name none = []
value_if name (some (option, value)) = if text_eq option name then value ∷ [] else []

unfoldable pub values_of : Text → List Text → List Text
values_of name [] = []
values_of name (a ∷ rest) = value_if name (split_argument a) ++ values_of name rest

abbrev pub non_empty : Text → Option Text
non_empty v = if is_empty v then none else some v

-- An option that may be given once: not given, and as before, or given once and read by `parse`.
abbrev pub Once {ℓ} : {A : Type ℓ} → (Text → Option A) → Bool → A → List Text → Bool → A → Type ℓ
Once parse given x values given_now y =
    ((values ≡ []) × (y ≡ x) × (given_now ≡ given))
    ⊎ ((v : Text) × (values ≡ v ∷ []) × (given ≡ false) × (given_now ≡ true) × (parse v ≡ some y))

abbrev pub NotEmpty : Text → Type 0
NotEmpty v = is_empty v ≡ false

-- The state `t` after arguments with these values, from the state `s`.
pub record Reads (s : ConfigParseState) (clients intervals endpoints capacities : List Text)
    (t : ConfigParseState) : Type 0 where
  pub client :
      Once non_empty s.has_client_id s.config.client_id clients t.has_client_id t.config.client_id
  pub interval :
      Once parse_positive_interval s.has_interval s.config.collection_interval intervals
        t.has_interval t.config.collection_interval
  pub endpoint : t.config.aggregator_endpoints ≡ s.config.aggregator_endpoints ++ endpoints
  pub named : All NotEmpty endpoints
  pub capacity :
      Once parse_positive_capacity s.has_queue_capacity s.config.queue_capacity capacities
        t.has_queue_capacity t.config.queue_capacity

pub Once-trans {ℓ} :
    {A : Type ℓ} (parse : Text → Option A) (a b c : Bool) (x y z : A) (us vs : List Text)
    → Once parse a x us b y
    → Once parse b y vs c z
    → Once parse a x (us ++ vs) c z
Once-trans parse a b c x y z us vs (inl (e, f, g)) (inl (h, i, j)) =
    inl (rw (e, h) refl, i ∙ f, j ∙ g)
Once-trans parse a b c x y z us vs (inl (e, f, g)) (inr (v, h, i, j, k)) =
    inr (v, rw (e, h) refl, sym g ∙ i, j, k)
Once-trans parse a b c x y z us vs (inr (u, e, f, g, k)) (inl (h, i, j)) =
    inr (u, rw (e, h) refl, f, j ∙ g, k ∙ ap some (sym i))
Once-trans parse a b c x y z us vs (inr (u, e, f, g, k)) (inr (v, h, i, j, l)) = absurd (cc)

-- The parse went wrong, or its state is as the values say.
abbrev pub Result :
    ConfigParseState → List Text → List Text → List Text → List Text → Parsed → Type 0
Result s clients intervals endpoints capacities (unexpected e) = Unit
Result s clients intervals endpoints capacities (ok t) =
    Reads s clients intervals endpoints capacities t

pub parse_client_id-Result :
    (s : ConfigParseState) (v : Text) → Result s (v ∷ []) [] [] [] (parse_client_id s v)
unfolding parse_client_id
parse_client_id-Result s v = elim (Bool-cases s.has_client_id) [
  | inl twice ↦ rw twice tt
  | inr once ↦ elim (Bool-cases (is_empty v)) [
    | inl bad ↦ rw (once, bad) tt
    | inr good ↦
        rw (once, good)
          (record {
            client = inr (v, refl, refl, refl, rw good);
            interval = inl (refl, refl, refl);
            endpoint = sym (append-nil s.config.aggregator_endpoints);
            named = tt;
            capacity = inl (refl, refl, refl);
          })
  ]
]

pub parse_interval-Result :
    (s : ConfigParseState) (v : Text) → Result s [] (v ∷ []) [] [] (parse_interval s v)
unfolding parse_interval
parse_interval-Result s v = elim (Bool-cases s.has_interval) [
  | inl twice ↦ rw twice tt
  | inr once ↦ elim (Option-cases (parse_positive_interval v)) [
    | inl bad ↦ rw (once, bad, parse_interval) tt
    | inr (z, good) ↦
        rw (once, good, parse_interval)
          (record {
            client = inl (refl, refl, refl);
            interval = inr (v, refl, refl, refl, good);
            endpoint = sym (append-nil s.config.aggregator_endpoints);
            named = tt;
            capacity = inl (refl, refl, refl);
          })
  ]
]

pub parse_endpoint-Result :
    (s : ConfigParseState) (v : Text) → Result s [] [] (v ∷ []) [] (parse_endpoint s v)
unfolding parse_endpoint
parse_endpoint-Result s v = elim (Bool-cases (is_empty v)) [
  | inl bad ↦ rw bad tt
  | inr good ↦ rw good (record {
    client = inl (refl, refl, refl);
    interval = inl (refl, refl, refl);
    endpoint = refl;
    named = (good, tt);
    capacity = inl (refl, refl, refl);
  })
]

pub parse_queue_capacity-Result :
    (s : ConfigParseState) (v : Text) → Result s [] [] [] (v ∷ []) (parse_queue_capacity s v)
unfolding parse_queue_capacity
parse_queue_capacity-Result s v = elim (Bool-cases s.has_queue_capacity) [
  | inl twice ↦ rw twice tt
  | inr once ↦ elim (Option-cases (parse_positive_capacity v)) [
    | inl bad ↦ rw (once, bad, parse_queue_capacity) tt
    | inr (n, good) ↦
        rw (once, good, parse_queue_capacity)
          (record {
            client = inl (refl, refl, refl);
            interval = inl (refl, refl, refl);
            endpoint = sym (append-nil s.config.aggregator_endpoints);
            named = tt;
            capacity = inr (v, refl, refl, refl, good);
          })
  ]
]
