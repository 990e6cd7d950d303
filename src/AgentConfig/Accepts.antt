-- ===== src/AgentConfig/Accepts.antt =====
-- The command line of a configuration, and `parse_agent_config` of agent_config.cpp on it.
use pulse_mesh.Base.{
  ℕ, ◌≡◌, ◌<◌, ◌^◌, refl, sym, ap, ◌∙◌, true, false, ℤ, pos, ltb_ℤ, FitsInt64, Text, text_eq,
  is_empty, List, [], ◌∷◌, ◌++◌, map, append_assoc, append-nil, some, arith, All, ok,
}
use pulse_mesh.Text.Digits.{
  to_string, to_string_ℤ, from_chars_u64, from_chars_i64, from_chars_u64-to_string,
  from_chars_i64-to_string,
}
use pulse_mesh.AgentConfig.{
  AgentConfig, ConfigParseState, client_id_option, interval_option, endpoint_option,
  queue_capacity_option, parse_positive_interval, parse_positive_capacity, initial_state,
  parse_client_id, parse_interval, parse_endpoint, parse_queue_capacity, parse_argument,
  parse_arguments, check_required, parse_agent_config,
}

abbrev NotEmpty : Text → Type 0
NotEmpty v = is_empty v ≡ false

-- The configurations that a command line can ask for.
pub record IsConfig (c : AgentConfig) : Type 0 where
  pub client_named : is_empty c.client_id ≡ false
  pub endpoints_given : is_empty c.aggregator_endpoints ≡ false
  pub endpoints_named : All NotEmpty c.aggregator_endpoints
  pub interval_positive : ltb_ℤ (pos 0) c.collection_interval ≡ true
  pub interval_fits : FitsInt64 c.collection_interval
  pub capacity_positive : 0 < c.queue_capacity
  pub capacity_fits : c.queue_capacity < 2 ^ 64

abbrev pub endpoint_argument : Text → Text
endpoint_argument e = endpoint_option ++ e

abbrev pub arguments_of : AgentConfig → List Text
arguments_of c =
    (client_id_option ++ c.client_id)
    ∷ (interval_option ++ to_string_ℤ c.collection_interval)
    ∷ (queue_capacity_option ++ to_string c.queue_capacity)
    ∷ map endpoint_argument c.aggregator_endpoints

parse_positive_interval-to_string :
    (z : ℤ)
    → FitsInt64 z
    → ltb_ℤ (pos 0) z ≡ true
    → parse_positive_interval (to_string_ℤ z) ≡ some z
unfolding parse_positive_interval
parse_positive_interval-to_string z f p =
    let e : from_chars_i64 (to_string_ℤ z) ≡ some (z, []) =
      ap from_chars_i64 (sym (append-nil (to_string_ℤ z))) ∙ from_chars_i64-to_string z [] f refl in
    rw (e, p) refl

parse_positive_capacity-to_string :
    (n : ℕ) → 0 < n → n < 2 ^ 64 → parse_positive_capacity (to_string n) ≡ some n
unfolding parse_positive_capacity
parse_positive_capacity-to_string n p f =
    let e : from_chars_u64 (to_string n) ≡ some (n, []) =
      ap from_chars_u64 (sym (append-nil (to_string n))) ∙ from_chars_u64-to_string n [] f refl in
    rw e (ground arith)

abbrev with_endpoints : ConfigParseState → List Text → ConfigParseState
with_endpoints s es = record s { config = record s.config { aggregator_endpoints = es } }

parse_argument-endpoint :
    (s : ConfigParseState) (e : Text)
    → is_empty e ≡ false
    → parse_argument s (endpoint_argument e)
      ≡ ok (with_endpoints s (s.config.aggregator_endpoints ++ (e ∷ [])))
unfolding parse_argument text_eq parse_endpoint
parse_argument-endpoint s e h = rw h refl

parse_arguments-endpoints :
    (s : ConfigParseState) (es : List Text)
    → All NotEmpty es
    → parse_arguments s (map endpoint_argument es)
      ≡ ok (with_endpoints s (s.config.aggregator_endpoints ++ es))
unfolding parse_arguments
parse_arguments-endpoints s [] a =
    ap (λ xs. ok (with_endpoints s xs)) (sym (append-nil s.config.aggregator_endpoints))
parse_arguments-endpoints s (e ∷ es) a =
    rw (parse_argument-endpoint s e a.0, parse_arguments)
      (parse_arguments-endpoints (with_endpoints s (s.config.aggregator_endpoints ++ (e ∷ []))) es
          a.1
        ∙ ap (λ xs. ok (with_endpoints s xs))
            (append_assoc s.config.aggregator_endpoints (e ∷ []) es))

parse_arguments-cons :
    (s t : ConfigParseState) (a : Text) (rest : List Text)
    → parse_argument s a ≡ ok t
    → parse_arguments s (a ∷ rest) ≡ parse_arguments t rest
unfolding parse_arguments
parse_arguments-cons s t a rest h = rw (h, parse_arguments) refl

-- The states before the endpoints.
abbrev after_client : AgentConfig → ConfigParseState
after_client c = record initial_state {
  config = record initial_state.config { client_id = c.client_id };
  has_client_id = true;
}

abbrev after_interval : AgentConfig → ConfigParseState
after_interval c = record (after_client c) {
  config = record (after_client c).config { collection_interval = c.collection_interval };
  has_interval = true;
}

abbrev after_capacity : AgentConfig → ConfigParseState
after_capacity c = record (after_interval c) {
  config = record (after_interval c).config { queue_capacity = c.queue_capacity };
  has_queue_capacity = true;
}

parse_argument-client :
    (c : AgentConfig)
    → IsConfig c
    → parse_argument initial_state (client_id_option ++ c.client_id) ≡ ok (after_client c)
unfolding parse_argument text_eq parse_client_id
parse_argument-client c v = rw v.client_named refl

parse_argument-interval :
    (c : AgentConfig)
    → IsConfig c
    → parse_argument (after_client c) (interval_option ++ to_string_ℤ c.collection_interval)
      ≡ ok (after_interval c)
unfolding parse_argument text_eq parse_interval
parse_argument-interval c v =
    rw
      (
        parse_positive_interval-to_string c.collection_interval v.interval_fits v.interval_positive,
        parse_interval,
      )
      refl

parse_argument-capacity :
    (c : AgentConfig)
    → IsConfig c
    → parse_argument (after_interval c) (queue_capacity_option ++ to_string c.queue_capacity)
      ≡ ok (after_capacity c)
unfolding parse_argument text_eq parse_queue_capacity
parse_argument-capacity c v =
    rw
      (
        parse_positive_capacity-to_string c.queue_capacity v.capacity_positive v.capacity_fits,
        parse_queue_capacity,
      )
      refl

parse_arguments-arguments_of :
    (c : AgentConfig)
    → IsConfig c
    → parse_arguments initial_state (arguments_of c)
      ≡ ok (with_endpoints (after_capacity c) c.aggregator_endpoints)
parse_arguments-arguments_of c v =
    parse_arguments-cons _ _ _ _ (parse_argument-client c v)
    ∙ parse_arguments-cons _ _ _ _ (parse_argument-interval c v)
    ∙ parse_arguments-cons _ _ _ _ (parse_argument-capacity c v)
    ∙ parse_arguments-endpoints (after_capacity c) c.aggregator_endpoints v.endpoints_named

-- A configuration with a client ID, one endpoint or more, none of them empty, and a positive interval
-- and capacity in the range of their types, is read back from the arguments that ask for it.
pub parse_agent_config-arguments_of :
    (c : AgentConfig) → IsConfig c → parse_agent_config (arguments_of c) ≡ ok c
unfolding parse_agent_config check_required
parse_agent_config-arguments_of c v =
    rw (parse_arguments-arguments_of c v, parse_agent_config, v.endpoints_given) refl
