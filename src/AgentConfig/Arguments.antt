-- ===== src/AgentConfig/Arguments.antt =====
-- The loop of agent_config.cpp over the arguments, in the terms of the values given to each option.
use pulse_mesh.Base.{
  ◌≡◌, refl, sym, ap, subst, ◌∙◌, ◌⊎◌, inl, inr, Text, text_eq, text_eq_iff, List, [], ◌∷◌, ◌++◌,
  append_assoc, append-nil, Option, some, ok, unexpected, Bool-cases, Option-cases, All-append,
}
use pulse_mesh.AgentConfig.{
  AgentConfigError, ConfigParseState, client_id_option, interval_option, endpoint_option,
  queue_capacity_option, Parsed, parse_positive_interval, parse_positive_capacity, split_argument,
  parse_option, parse_argument, parse_arguments,
}
use pulse_mesh.AgentConfig.Reads.{
  value_if, values_of, non_empty, NotEmpty, Reads, Result, Once-trans, parse_client_id-Result,
  parse_interval-Result, parse_endpoint-Result, parse_queue_capacity-Result,
}

-- The result of one argument that splits like this, and of several.
abbrev ResultOf : ConfigParseState → Option (Text × Text) → Parsed → Type 0
ResultOf s o =
    Result s (value_if client_id_option o) (value_if interval_option o) (value_if endpoint_option o)
      (value_if queue_capacity_option o)

abbrev pub ResultAll : ConfigParseState → List Text → Parsed → Type 0
ResultAll s args =
    Result s (values_of client_id_option args) (values_of interval_option args)
      (values_of endpoint_option args) (values_of queue_capacity_option args)

parse_option-Result :
    (s : ConfigParseState) (o v : Text) → ResultOf s (some (o, v)) (parse_option s o v)
unfolding parse_option text_eq
parse_option-Result s o v = elim (Bool-cases (text_eq o client_id_option)) [
  | inl h ↦
      let e : o ≡ client_id_option = (text_eq_iff o client_id_option).0 h in
      rw e (parse_client_id-Result s v)
  | inr n ↦ elim (Bool-cases (text_eq o interval_option)) [
    | inl h ↦
        let e : o ≡ interval_option = (text_eq_iff o interval_option).0 h in
        rw e (parse_interval-Result s v)
    | inr m ↦ elim (Bool-cases (text_eq o endpoint_option)) [
      | inl h ↦
          let e : o ≡ endpoint_option = (text_eq_iff o endpoint_option).0 h in
          rw e (parse_endpoint-Result s v)
      | inr k ↦ elim (Bool-cases (text_eq o queue_capacity_option)) [
        | inl h ↦
            let e : o ≡ queue_capacity_option = (text_eq_iff o queue_capacity_option).0 h in
            rw e (parse_queue_capacity-Result s v)
        | inr j ↦ rw (n, m, k, j) tt
      ]
    ]
  ]
]

parse_argument-Result :
    (s : ConfigParseState) (a : Text) → ResultOf s (split_argument a) (parse_argument s a)
unfolding parse_argument
parse_argument-Result s a = elim (Option-cases (split_argument a)) [
  | inl e ↦ rw (e, parse_argument) tt
  | inr ((o, v), e) ↦ rw (e, parse_argument) (parse_option-Result s o v)
]

Reads-trans :
    (s t u : ConfigParseState) (cs is es qs cs' is' es' qs' : List Text)
    → Reads s cs is es qs t
    → Reads t cs' is' es' qs' u
    → Reads s (cs ++ cs') (is ++ is') (es ++ es') (qs ++ qs') u
Reads-trans s t u cs is es qs cs' is' es' qs' a b = record {
  client = Once-trans non_empty _ _ _ _ _ _ cs cs' a.client b.client;
  interval = Once-trans parse_positive_interval _ _ _ _ _ _ is is' a.interval b.interval;
  endpoint =
      b.endpoint
      ∙ ap (λ xs. xs ++ es') a.endpoint
      ∙ append_assoc s.config.aggregator_endpoints es es';
  named = All-append NotEmpty es es' a.named b.named;
  capacity = Once-trans parse_positive_capacity _ _ _ _ _ _ qs qs' a.capacity b.capacity;
}

ResultAll-cons :
    (s : ConfigParseState) (a : Text) (rest : List Text) (t : ConfigParseState) (r : Parsed)
    → ResultOf s (split_argument a) (ok t)
    → ResultAll t rest r
    → ResultAll s (a ∷ rest) r
unfolding values_of
ResultAll-cons s a rest t (unexpected e) p q = tt
ResultAll-cons s a rest t (ok u) p q = Reads-trans s t u _ _ _ _ _ _ _ _ p q

pub Parsed-cases :
    (r : Parsed)
    → ((e : AgentConfigError) × (r ≡ unexpected e)) ⊎ ((t : ConfigParseState) × (r ≡ ok t))
Parsed-cases (unexpected e) = inl (e, refl)
Parsed-cases (ok t) = inr (t, refl)

pub parse_arguments-Result :
    (s : ConfigParseState) (args : List Text) → ResultAll s args (parse_arguments s args)
unfolding parse_arguments
parse_arguments-Result s [] =
    unfold values_of in
    record {
      client = inl (refl, refl, refl);
      interval = inl (refl, refl, refl);
      endpoint = sym (append-nil s.config.aggregator_endpoints);
      named = tt;
      capacity = inl (refl, refl, refl);
    }
parse_arguments-Result s (a ∷ rest) = elim (Parsed-cases (parse_argument s a)) [
  | inl (e, h) ↦ rw (h, parse_arguments) tt
  | inr (t, h) ↦
      rw (h, parse_arguments)
        (ResultAll-cons s a rest t (parse_arguments t rest)
          (subst (ResultOf s (split_argument a)) h (parse_argument-Result s a))
          (parse_arguments-Result t rest))
]
