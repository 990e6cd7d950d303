-- ===== src/AgentConfig/Meaning.antt =====
-- What a configuration that `parse_agent_config` of agent_config.cpp returns has to do with the
-- arguments.
use pulse_mesh.Base.{
  ℕ, ◌≡◌, refl, sym, ap, subst, ◌∙◌, ◌⊎◌, inl, inr, true, false, ℤ, pos, ltb_ℤ, ◌<◌, ◌^◌, Text,
  is_empty, List, [], ◌∷◌, Option, none, some, arith, ok, unexpected, Bool-cases, All,
}
use pulse_mesh.AgentConfig.{
  AgentConfig, ConfigParseState, client_id_option, interval_option, endpoint_option,
  queue_capacity_option, complete_interval, complete_capacity, config_error,
  missing_required_option, parse_positive_interval, parse_positive_capacity, initial_state,
  parse_arguments, check_required, parse_agent_config,
}
use pulse_mesh.Text.Digits.{from_chars_u64, from_chars_i64}
use pulse_mesh.AgentConfig.Reads.{values_of, non_empty, NotEmpty}
use pulse_mesh.AgentConfig.Arguments.{ResultAll, Parsed-cases, parse_arguments-Result}

-- A configuration and the arguments that it came from.
pub record Configured (args : List Text) (c : AgentConfig) : Type 0 where
  pub client : values_of client_id_option args ≡ c.client_id ∷ []
  pub client_named : is_empty c.client_id ≡ false
  pub endpoints : c.aggregator_endpoints ≡ values_of endpoint_option args
  pub endpoints_given : is_empty c.aggregator_endpoints ≡ false
  pub endpoints_named : All NotEmpty c.aggregator_endpoints
  pub interval :
      ((values_of interval_option args ≡ []) × (c.collection_interval ≡ pos 1000))
      ⊎ ((v : Text) × (values_of interval_option args ≡ v ∷ [])
          × (parse_positive_interval v ≡ some c.collection_interval))
  pub capacity :
      ((values_of queue_capacity_option args ≡ []) × (c.queue_capacity ≡ 256))
      ⊎ ((v : Text) × (values_of queue_capacity_option args ≡ v ∷ [])
          × (parse_positive_capacity v ≡ some c.queue_capacity))
  pub bounds :
      (ltb_ℤ (pos 0) c.collection_interval ≡ true)
      × (0 < c.queue_capacity)
      × (c.queue_capacity < 2 ^ 64)

pub non_empty-some : (v w : Text) → non_empty v ≡ some w → (v ≡ w) × (is_empty w ≡ false)
non_empty-some [] w h = absurd (cc)
non_empty-some (x ∷ xs) w h = let e : x ∷ xs ≡ w = cc in (e, subst (λ t. is_empty t ≡ false) e refl)

complete_interval-positive :
    (r : Option (ℤ × Text)) (z : ℤ) → complete_interval r ≡ some z → ltb_ℤ (pos 0) z ≡ true
complete_interval-positive (some (y, [])) z h = elim (Bool-cases (ltb_ℤ (pos 0) y)) [
  | inl p ↦
      let e : complete_interval (some (y, [])) ≡ some y = rw p refl in
      let same_value : y ≡ z = cc in subst (λ x. ltb_ℤ (pos 0) x ≡ true) same_value p
  | inr n ↦ let e : complete_interval (some (y, [])) ≡ none = rw n refl in absurd (cc)
]
complete_interval-positive (some (y, x ∷ xs)) z h = absurd (cc)
complete_interval-positive none z h = absurd (cc)

complete_capacity-bounds :
    (r : Option (ℕ × Text)) (n : ℕ) → complete_capacity r ≡ some n → (0 < n) × (r ≡ some (n, []))
complete_capacity-bounds (some (m, [])) n h = ground arith
complete_capacity-bounds (some (m, x ∷ xs)) n h = absurd (cc)
complete_capacity-bounds none n h = absurd (cc)

from_chars_u64-bound : (s : Text) (n : ℕ) → from_chars_u64 s ≡ some (n, []) → n < 2 ^ 64
unfolding from_chars_u64
from_chars_u64-bound s n h = ground arith

interval-positive : (v : Text) (z : ℤ) → parse_positive_interval v ≡ some z → ltb_ℤ (pos 0) z ≡ true
unfolding parse_positive_interval
interval-positive v z h = complete_interval-positive (from_chars_i64 v) z h

capacity-bounds : (v : Text) (n : ℕ) → parse_positive_capacity v ≡ some n → (0 < n) × (n < 2 ^ 64)
unfolding parse_positive_capacity
capacity-bounds v n h =
    let (p, e) = complete_capacity-bounds (from_chars_u64 v) n h in (p, from_chars_u64-bound v n e)

-- What `Reads` says of a state that passes the last checks.
Reads-Configured :
    (args : List Text) (t : ConfigParseState)
    → ResultAll initial_state args (ok t)
    → t.has_client_id ≡ true
    → is_empty t.config.aggregator_endpoints ≡ false
    → Configured args t.config
Reads-Configured args t r has_client given = record {
  client = let (v, e, n) = named in e ∙ ap (λ x. x ∷ []) n.0;
  client_named = let (v, e, n) = named in n.1;
  endpoints = r.endpoint;
  endpoints_given = given;
  endpoints_named = subst (All NotEmpty) (sym r.endpoint) r.named;
  interval = elim r.interval [ inl (e, x, g) ↦ inl (e, x) | inr (v, e, f, g, p) ↦ inr (v, e, p) ];
  capacity = elim r.capacity [ inl (e, x, g) ↦ inl (e, x) | inr (v, e, f, g, p) ↦ inr (v, e, p) ];
  bounds = (
    elim r.interval [
      | inl (e, x, g) ↦ subst (λ z. ltb_ℤ (pos 0) z ≡ true) (sym x) refl
      | inr (v, e, f, g, p) ↦ interval-positive v t.config.collection_interval p
    ],
    elim r.capacity [
      | inl (e, x, g) ↦ omega (arith, x)
      | inr (v, e, f, g, p) ↦ (capacity-bounds v t.config.queue_capacity p).0
    ],
    elim r.capacity [
      | inl (e, x, g) ↦ omega (arith, x)
      | inr (v, e, f, g, p) ↦ (capacity-bounds v t.config.queue_capacity p).1
    ],
  );
}
  where
    named :
        (v : Text) × (values_of client_id_option args ≡ v ∷ [])
        × ((v ≡ t.config.client_id) × (is_empty t.config.client_id ≡ false))
    named = elim r.client [
      | inl (e, x, g) ↦ absurd (cc)
      | inr (v, e, f, g, p) ↦ (v, e, non_empty-some v t.config.client_id p)
    ]

check_required-Configured :
    (args : List Text) (t : ConfigParseState) (c : AgentConfig)
    → ResultAll initial_state args (ok t)
    → check_required t ≡ ok c
    → Configured args c
unfolding check_required
check_required-Configured args t c r h = elim (Bool-cases t.has_client_id) [
  | inr n ↦
      let e : check_required t ≡ config_error missing_required_option client_id_option =
        rw n refl in
      absurd (cc)
  | inl y ↦ elim (Bool-cases (is_empty t.config.aggregator_endpoints)) [
    | inl n ↦
        let e : check_required t ≡ config_error missing_required_option endpoint_option =
          rw (y, n) refl in
        absurd (cc)
    | inr given ↦
        let e : check_required t ≡ ok t.config = rw (y, given) refl in
        let same_config : t.config ≡ c = cc in
        subst (Configured args) same_config (Reads-Configured args t r y given)
  ]
]

-- A configuration that the command line is accepted with has as client ID the value of the only
-- `--client-id` argument, and as endpoints the values of all `--endpoint` arguments in order; there
-- is one at least, and neither the client ID nor an endpoint is empty. The interval and the capacity
-- are the positive numbers of their only argument, or 1000 and 256 where there is none.
pub parse_agent_config-Configured :
    (args : List Text) (c : AgentConfig) → parse_agent_config args ≡ ok c → Configured args c
unfolding parse_agent_config
parse_agent_config-Configured args c h = elim (Parsed-cases (parse_arguments initial_state args)) [
  | inl (e, p) ↦
      let g : parse_agent_config args ≡ unexpected e = rw (p, parse_agent_config) refl in
      absurd (cc)
  | inr (t, p) ↦
      let g : parse_agent_config args ≡ check_required t = rw (p, parse_agent_config) refl in
      check_required-Configured args t c
        (subst (ResultAll initial_state args) p (parse_arguments-Result initial_state args))
        (sym g ∙ h)
]
