-- ===== src/AgentConfig/Readable.antt =====
-- Command lines that the loop of agent_config.cpp reads to the end.
use pulse_mesh.Base.{
  ◌≡◌, refl, sym, subst, ◌∙◌, ◌⊎◌, inl, inr, Bool, true, false, Text, text_eq, is_empty, List, [],
  ◌∷◌, ◌++◌, Option, some, All, ok,
}
use pulse_mesh.AgentConfig.{
  ConfigParseState, client_id_option, interval_option, endpoint_option, queue_capacity_option,
  parse_positive_interval, parse_positive_capacity, parse_client_id, parse_interval, parse_endpoint,
  parse_queue_capacity, split_argument, parse_option, parse_argument, parse_arguments,
}
use pulse_mesh.AgentConfig.Reads.{value_if, values_of, non_empty, NotEmpty}
use pulse_mesh.AgentConfig.Meaning.{non_empty-some}

-- One of the four options.
pub data IsOption : Text → Type 0 where
  client : IsOption client_id_option
  interval : IsOption interval_option
  endpoint : IsOption endpoint_option
  capacity : IsOption queue_capacity_option

-- An argument that gives a value to one of them.
pub record IsKnown (a : Text) : Type 0 where
  pub option : Text
  pub value : Text
  pub splits : split_argument a ≡ some (option, value)
  pub known : IsOption option

-- An option that may be given once can be read: it is not given, or given for the first time.
abbrev pub Readable {ℓ} : {A : Type ℓ} → (Text → Option A) → Bool → List Text → Type ℓ
Readable {A = A} parse given values =
    (values ≡ [])
    ⊎ ((v : Text) × (values ≡ v ∷ []) × (given ≡ false) × ((z : A) × (parse v ≡ some z)))

pub record CanReadValues (s : ConfigParseState) (clients intervals endpoints capacities : List Text)
    : Type 0 where
  pub client : Readable non_empty s.has_client_id clients
  pub interval : Readable parse_positive_interval s.has_interval intervals
  pub endpoint : All NotEmpty endpoints
  pub capacity : Readable parse_positive_capacity s.has_queue_capacity capacities

abbrev pub CanRead : ConfigParseState → List Text → Type 0
CanRead s args =
    CanReadValues s (values_of client_id_option args) (values_of interval_option args)
      (values_of endpoint_option args) (values_of queue_capacity_option args)

-- Where the first argument splits like this.
abbrev CanReadSplit : ConfigParseState → Option (Text × Text) → List Text → Type 0
CanReadSplit s o rest =
    CanReadValues s (value_if client_id_option o ++ values_of client_id_option rest)
      (value_if interval_option o ++ values_of interval_option rest)
      (value_if endpoint_option o ++ values_of endpoint_option rest)
      (value_if queue_capacity_option o ++ values_of queue_capacity_option rest)

-- The first value of several is read, and then none is left.
read_first {ℓ} :
    {A : Type ℓ} (parse : Text → Option A) (given : Bool) (v : Text) (vs : List Text)
    → Readable parse given (v ∷ vs)
    → (given ≡ false) × ((z : A) × (parse v ≡ some z)) × (vs ≡ [])
read_first parse given v vs (inl e) = absurd (cc)
read_first parse given v vs (inr (w, e, g, (z, p))) =
    let same_value : w ≡ v = cc in (g, (z, subst (λ x. parse x ≡ some z) same_value p), cc)

non_empty-NotEmpty : (v w : Text) → non_empty v ≡ some w → is_empty v ≡ false
non_empty-NotEmpty v w h =
    let (e, n) = non_empty-some v w h in subst (λ x. is_empty x ≡ false) (sym e) n

-- One argument of a readable command line.
record Step (s : ConfigParseState) (o v : Text) (rest : List Text) : Type 0 where
  next : ConfigParseState
  parsed : parse_option s o v ≡ ok next
  readable : CanRead next rest

parse_option-Step :
    (s : ConfigParseState) (o v : Text) (rest : List Text)
    → IsOption o
    → CanReadSplit s (some (o, v)) rest
    → Step s o v rest
unfolding parse_option text_eq parse_client_id parse_interval parse_endpoint parse_queue_capacity
parse_option-Step s o v rest client r =
    let (once, (z, p), last) = read_first non_empty s.has_client_id v _ r.client in
    record {
      next = record s { config = record s.config { client_id = v }; has_client_id = true };
      parsed = rw (once, non_empty-NotEmpty v z p) refl;
      readable = record {
        client = inl last;
        interval = r.interval;
        endpoint = r.endpoint;
        capacity = r.capacity;
      };
    }
parse_option-Step s o v rest interval r =
    let (once, (z, p), last) = read_first parse_positive_interval s.has_interval v _ r.interval in
    record {
      next = record s { config = record s.config { collection_interval = z }; has_interval = true };
      parsed = rw (once, p, parse_interval) refl;
      readable = record {
        client = r.client;
        interval = inl last;
        endpoint = r.endpoint;
        capacity = r.capacity;
      };
    }
parse_option-Step s o v rest endpoint r = record {
  next = record s {
    config = record s.config { aggregator_endpoints = s.config.aggregator_endpoints ++ (v ∷ []) };
  };
  parsed = rw (r.endpoint.0) refl;
  readable = record {
    client = r.client;
    interval = r.interval;
    endpoint = r.endpoint.1;
    capacity = r.capacity;
  };
}
parse_option-Step s o v rest capacity r =
    let (once, (z, p), last) =
      read_first parse_positive_capacity s.has_queue_capacity v _ r.capacity in
    record {
      next = record s {
        config = record s.config { queue_capacity = z };
        has_queue_capacity = true;
      };
      parsed = rw (once, p, parse_queue_capacity) refl;
      readable = record {
        client = r.client;
        interval = r.interval;
        endpoint = r.endpoint;
        capacity = inl last;
      };
    }

parse_argument-known :
    (s : ConfigParseState) (a : Text) (k : IsKnown a)
    → parse_argument s a ≡ parse_option s k.option k.value
unfolding parse_argument
parse_argument-known s a k = rw (k.splits, parse_argument) refl

pub parse_arguments-CanRead :
    (args : List Text) (s : ConfigParseState)
    → All IsKnown args
    → CanRead s args
    → (t : ConfigParseState) × (parse_arguments s args ≡ ok t)
unfolding parse_arguments values_of
parse_arguments-CanRead [] s k r = (s, refl)
parse_arguments-CanRead (a ∷ rest) s k r =
    let step =
      parse_option-Step s k.0.option k.0.value rest k.0.known
        (subst (λ o. CanReadSplit s o rest) k.0.splits r) in
    let (t, e) = parse_arguments-CanRead rest step.next k.1 step.readable in
    (t, rw (parse_argument-known s a k.0 ∙ step.parsed, parse_arguments) e)
