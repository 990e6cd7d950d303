-- ===== src/AgentConfig.antt =====
-- cpp/client/impl/agent_config: the agent's command line. The state of the parser is passed on as a
-- value; an error ends the parse, and the state with it.
pub mod Tests
pub mod Reads
pub mod Arguments
pub mod Meaning
pub mod Accepts
pub mod Readable
pub mod Complete
use mathlib.Core.Option
use pulse_mesh.Base.{
  ℕ, ◌==◌, Bool, true, false, not, ◌&&◌, ◌||◌, ℤ, pos, ltb, ltb_ℤ, Text, text_eq, is_empty, List,
  [], ◌∷◌, ◌++◌, Option, none, some, codes, if◌then◌else◌, Expected, ok, unexpected,
}
use pulse_mesh.Text.Digits.{from_chars_u64, from_chars_i64}

-- `collection_interval` counts milliseconds in an `int64_t`.
pub record AgentConfig : Type 0 where
  pub client_id : Text
  pub collection_interval : ℤ
  pub aggregator_endpoints : List Text
  pub queue_capacity : ℕ

pub data AgentConfigErrorCode : Type 0 where
  unknown_option duplicate_option missing_required_option invalid_value : AgentConfigErrorCode

pub record AgentConfigError : Type 0 where
  pub code : AgentConfigErrorCode
  pub option : Text

abbrev pub client_id_option : Text
client_id_option = codes "--client-id="

abbrev pub interval_option : Text
interval_option = codes "--interval-ms="

abbrev pub endpoint_option : Text
endpoint_option = codes "--endpoint="

abbrev pub queue_capacity_option : Text
queue_capacity_option = codes "--queue-capacity="

abbrev pub config_error {ℓ} :
    {A : Type ℓ} → AgentConfigErrorCode → Text → Expected AgentConfigError A
config_error code option = unexpected (record { code = code; option = option })

abbrev complete_interval : Option (ℤ × Text) → Option ℤ
complete_interval (some (z, [])) = if ltb_ℤ (pos 0) z then some z else none
complete_interval _ = none

abbrev complete_capacity : Option (ℕ × Text) → Option ℕ
complete_capacity (some (n, [])) = if ltb 0 n then some n else none
complete_capacity _ = none

-- `parse_positive_integer` at the two types of its calls; `none` is `false`. The empty text, which
-- the source refuses first, has no digit for `from_chars`.
unfoldable pub parse_positive_interval : Text → Option ℤ
parse_positive_interval text = complete_interval (from_chars_i64 text)

unfoldable pub parse_positive_capacity : Text → Option ℕ
parse_positive_capacity text = complete_capacity (from_chars_u64 text)

pub record ConfigParseState : Type 0 where
  pub config : AgentConfig
  pub has_client_id : Bool
  pub has_interval : Bool
  pub has_queue_capacity : Bool

abbrev pub initial_state : ConfigParseState
initial_state = record {
  config = record {
    client_id = [];
    collection_interval = pos 1000;
    aggregator_endpoints = [];
    queue_capacity = 256;
  };
  has_client_id = false;
  has_interval = false;
  has_queue_capacity = false;
}

abbrev pub Parsed : Type 0
Parsed = Expected AgentConfigError ConfigParseState

unfoldable pub parse_client_id : ConfigParseState → Text → Parsed
parse_client_id s value =
    if s.has_client_id
    then config_error duplicate_option client_id_option
    else if is_empty value
    then config_error invalid_value client_id_option
    else ok (record s { config = record s.config { client_id = value }; has_client_id = true })

unfoldable pub parse_interval : ConfigParseState → Text → Parsed
unfolding parse_positive_interval
parse_interval s value =
    if s.has_interval
    then config_error duplicate_option interval_option
    else elim (parse_positive_interval value) [
      | none ↦ config_error invalid_value interval_option
      | some interval ↦ ok (record s {
        config = record s.config { collection_interval = interval };
        has_interval = true;
      })
    ]

unfoldable pub parse_endpoint : ConfigParseState → Text → Parsed
parse_endpoint s value =
    if is_empty value
    then config_error invalid_value endpoint_option
    else ok (record s {
      config = record s.config {
        aggregator_endpoints = s.config.aggregator_endpoints ++ (value ∷ []);
      };
    })

unfoldable pub parse_queue_capacity : ConfigParseState → Text → Parsed
unfolding parse_positive_capacity
parse_queue_capacity s value =
    if s.has_queue_capacity
    then config_error duplicate_option queue_capacity_option
    else elim (parse_positive_capacity value) [
      | none ↦ config_error invalid_value queue_capacity_option
      | some capacity ↦ ok (record s {
        config = record s.config { queue_capacity = capacity };
        has_queue_capacity = true;
      })
    ]

-- `find('=')` and the two `substr`: the option with its `=`, and the value.
unfoldable pub split_argument : Text → Option (Text × Text)
split_argument [] = none
split_argument (c ∷ cs) =
    if c == b'=' then some (c ∷ [], cs) else Option.map (λ r. (c ∷ r.0, r.1)) (split_argument cs)

unfoldable pub parse_option : ConfigParseState → Text → Text → Parsed
unfolding parse_client_id parse_interval parse_endpoint parse_queue_capacity
parse_option s option value =
    if text_eq option client_id_option
    then parse_client_id s value
    else if text_eq option interval_option
    then parse_interval s value
    else if text_eq option endpoint_option
    then parse_endpoint s value
    else if text_eq option queue_capacity_option
    then parse_queue_capacity s value
    else config_error unknown_option option

unfoldable pub parse_argument : ConfigParseState → Text → Parsed
unfolding parse_option split_argument
parse_argument s argument = elim (split_argument argument) [
  | none ↦ config_error unknown_option argument
  | some (option, value) ↦ parse_option s option value
]

-- The loop over the arguments.
unfoldable pub parse_arguments : ConfigParseState → List Text → Parsed
unfolding parse_argument
parse_arguments s [] = ok s
parse_arguments s (a ∷ rest) = elim (parse_argument s a) [
  | unexpected e ↦ unexpected e
  | ok t ↦ parse_arguments t rest
]

unfoldable pub check_required : ConfigParseState → Expected AgentConfigError AgentConfig
check_required s =
    if not s.has_client_id
    then config_error missing_required_option client_id_option
    else if is_empty s.config.aggregator_endpoints
    then config_error missing_required_option endpoint_option
    else ok s.config

unfoldable pub parse_agent_config : List Text → Expected AgentConfigError AgentConfig
unfolding parse_arguments check_required
parse_agent_config arguments = elim (parse_arguments initial_state arguments) [
  | unexpected e ↦ unexpected e
  | ok s ↦ check_required s
]
