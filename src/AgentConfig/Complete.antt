-- ===== src/AgentConfig/Complete.antt =====
-- Which command lines `parse_agent_config` of agent_config.cpp accepts.
use pulse_mesh.Base.{
  ◌≡◌, ◌↔◌, refl, sym, ap, subst, ◌∙◌, ◌⊎◌, inl, inr, true, false, Text, text_eq, text_eq_iff,
  is_empty, List, [], ◌∷◌, Option, some, All, ok, unexpected, Bool-cases, Option-cases,
}
use pulse_mesh.AgentConfig.{
  AgentConfig, ConfigParseState, client_id_option, interval_option, endpoint_option,
  queue_capacity_option, parse_positive_interval, parse_positive_capacity, initial_state,
  split_argument, parse_option, parse_argument, parse_arguments, check_required, parse_agent_config,
  config_error, unknown_option,
}
use pulse_mesh.AgentConfig.Reads.{NotEmpty}
use pulse_mesh.AgentConfig.Arguments.{ResultAll, Parsed-cases, parse_arguments-Result}
use pulse_mesh.AgentConfig.Meaning.{Configured, parse_agent_config-Configured}
use pulse_mesh.AgentConfig.Readable.{
  IsOption, client, interval, endpoint, capacity, IsKnown, CanRead, parse_arguments-CanRead,
}

Configured-CanRead :
    (args : List Text) (c : AgentConfig) → Configured args c → CanRead initial_state args
Configured-CanRead args c p = record {
  client = inr (c.client_id, p.client, refl, (c.client_id, let n = p.client_named in rw n refl));
  interval = elim p.interval [
    | inl (e, z) ↦ inl e
    | inr (v, e, z) ↦ inr (v, e, refl, (c.collection_interval, z))
  ];
  endpoint = subst (All NotEmpty) p.endpoints p.endpoints_named;
  capacity = elim p.capacity [
    | inl (e, z) ↦ inl e
    | inr (v, e, z) ↦ inr (v, e, refl, (c.queue_capacity, z))
  ];
}

check_required-ok :
    (args : List Text) (c : AgentConfig) (t : ConfigParseState)
    → Configured args c
    → ResultAll initial_state args (ok t)
    → check_required t ≡ ok t.config
unfolding check_required
check_required-ok args c t p r =
    let e = p.client in
    let named : t.has_client_id ≡ true = elim r.client [
      | inl (f, x, g) ↦ absurd (cc)
      | inr (v, f, g, has, z) ↦ has
    ] in
    let same_endpoints : t.config.aggregator_endpoints ≡ c.aggregator_endpoints =
      r.endpoint ∙ sym p.endpoints in
    let given : is_empty t.config.aggregator_endpoints ≡ false =
      subst (λ es. is_empty es ≡ false) (sym same_endpoints) p.endpoints_given in
    rw (named, given) refl

-- A value that is read once, or the default where it is not given, is one value.
once_unique {ℓ} :
    {A : Type ℓ} (parse : Text → Option A) (default x y : A) (values : List Text)
    → (((values ≡ []) × (x ≡ default)) ⊎ ((v : Text) × (values ≡ v ∷ []) × (parse v ≡ some x)))
    → (((values ≡ []) × (y ≡ default)) ⊎ ((v : Text) × (values ≡ v ∷ []) × (parse v ≡ some y)))
    → x ≡ y
once_unique parse default x y values (inl (e, p)) (inl (f, q)) = p ∙ sym q
once_unique parse default x y values (inl (e, p)) (inr (v, f, q)) = absurd (cc)
once_unique parse default x y values (inr (v, e, p)) (inl (f, q)) = absurd (cc)
once_unique parse default x y values (inr (v, e, p)) (inr (w, f, q)) = cc

config_eq :
    (c d : AgentConfig)
    → c.client_id ≡ d.client_id
    → c.collection_interval ≡ d.collection_interval
    → c.aggregator_endpoints ≡ d.aggregator_endpoints
    → c.queue_capacity ≡ d.queue_capacity
    → c ≡ d
config_eq c d p q r s = cc

Configured-unique :
    (args : List Text) (c d : AgentConfig) → Configured args c → Configured args d → c ≡ d
Configured-unique args c d p q =
    config_eq c d (let e = p.client in let f = q.client in cc)
      (once_unique parse_positive_interval _ _ _ _ p.interval q.interval)
      (p.endpoints ∙ sym q.endpoints)
      (once_unique parse_positive_capacity _ _ _ _ p.capacity q.capacity)

parse_option-IsOption :
    (s t : ConfigParseState) (o v : Text) → parse_option s o v ≡ ok t → IsOption o
unfolding parse_option
parse_option-IsOption s t o v h = elim (Bool-cases (text_eq o client_id_option)) [
  | inl e ↦ subst IsOption (sym ((text_eq_iff o client_id_option).0 e)) client
  | inr n ↦ elim (Bool-cases (text_eq o interval_option)) [
    | inl e ↦ subst IsOption (sym ((text_eq_iff o interval_option).0 e)) interval
    | inr m ↦ elim (Bool-cases (text_eq o endpoint_option)) [
      | inl e ↦ subst IsOption (sym ((text_eq_iff o endpoint_option).0 e)) endpoint
      | inr k ↦ elim (Bool-cases (text_eq o queue_capacity_option)) [
        | inl e ↦ subst IsOption (sym ((text_eq_iff o queue_capacity_option).0 e)) capacity
        | inr j ↦
            let e : parse_option s o v ≡ config_error unknown_option o = rw (n, m, k, j) refl in
            absurd (cc)
      ]
    ]
  ]
]

parse_argument-IsKnown : (s t : ConfigParseState) (a : Text) → parse_argument s a ≡ ok t → IsKnown a
unfolding parse_argument
parse_argument-IsKnown s t a h = elim (Option-cases (split_argument a)) [
  | inl e ↦
      let f : parse_argument s a ≡ config_error unknown_option a = rw (e, parse_argument) refl in
      absurd (cc)
  | inr ((o, v), e) ↦
      let f : parse_argument s a ≡ parse_option s o v = rw (e, parse_argument) refl in
      record {
        option = o;
        value = v;
        splits = e;
        known = parse_option-IsOption s t o v (sym f ∙ h);
      }
]

parse_arguments-IsKnown :
    (args : List Text) (s t : ConfigParseState) → parse_arguments s args ≡ ok t → All IsKnown args
unfolding parse_arguments
parse_arguments-IsKnown [] s t h = tt
parse_arguments-IsKnown (a ∷ rest) s t h = elim (Parsed-cases (parse_argument s a)) [
  | inl (e, p) ↦
      let f : parse_arguments s (a ∷ rest) ≡ unexpected e = rw (p, parse_arguments) refl in
      absurd (cc)
  | inr (u, p) ↦
      let f : parse_arguments s (a ∷ rest) ≡ parse_arguments u rest =
        rw (p, parse_arguments) refl in
      (parse_argument-IsKnown s u a p, parse_arguments-IsKnown rest u t (sym f ∙ h))
]

accepted-IsKnown :
    (args : List Text) (c : AgentConfig) → parse_agent_config args ≡ ok c → All IsKnown args
unfolding parse_agent_config
accepted-IsKnown args c h = elim (Parsed-cases (parse_arguments initial_state args)) [
  | inl (e, p) ↦
      let f : parse_agent_config args ≡ unexpected e = rw (p, parse_agent_config) refl in
      absurd (cc)
  | inr (t, p) ↦ parse_arguments-IsKnown args initial_state t p
]

Configured-accepted :
    (args : List Text) (c : AgentConfig)
    → All IsKnown args
    → Configured args c
    → parse_agent_config args ≡ ok c
unfolding parse_agent_config
Configured-accepted args c k p =
    let (t, e) = parse_arguments-CanRead args initial_state k (Configured-CanRead args c p) in
    let r = subst (ResultAll initial_state args) e (parse_arguments-Result initial_state args) in
    let parsed : parse_agent_config args ≡ ok t.config =
      rw (e, parse_agent_config) (check_required-ok args c t p r) in
    parsed
    ∙ ap ok
        (Configured-unique args t.config c (parse_agent_config-Configured args t.config parsed) p)

-- A command line is accepted with a configuration exactly if each argument gives a value to one of
-- the four options, and the configuration is what the values say: one client ID, one endpoint or more
-- in order, none of them empty, and one interval and one capacity at most, positive and in range, with
-- 1000 and 256 where they are not given. Any other command line is refused.
pub parse_agent_config_iff :
    (args : List Text) (c : AgentConfig)
    → (parse_agent_config args ≡ ok c) ↔ (All IsKnown args × Configured args c)
parse_agent_config_iff args c = (
  λ h. (accepted-IsKnown args c h, parse_agent_config-Configured args c h),
  λ p. Configured-accepted args c p.0 p.1,
)
