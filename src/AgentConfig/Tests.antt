-- ===== src/AgentConfig/Tests.antt =====
-- Runs of agent_config.cpp on small command lines.
use pulse_mesh.Base.{
  ◌≡◌, ◌↔◌, All, refl, pos, arith, Text, text_eq, List, [], ◌∷◌, codes, ok, unexpected,
}
use pulse_mesh.Text.Digits.{from_chars_u64, from_chars_i64}
use pulse_mesh.AgentConfig.{
  AgentConfig, duplicate_option, missing_required_option, unknown_option, invalid_value,
  parse_agent_config,
}
use pulse_mesh.AgentConfig.Meaning.{Configured}
use pulse_mesh.AgentConfig.Readable.{IsKnown}
use pulse_mesh.AgentConfig.Complete.{parse_agent_config_iff}
use pulse_mesh.AgentConfig.Accepts.{arguments_of, parse_agent_config-arguments_of}

abbrev arguments : List Text
arguments =
    codes "--client-id=agent"
    ∷ codes "--endpoint=b:2"
    ∷ codes "--interval-ms=50"
    ∷ codes "--endpoint=a:1"
    ∷ []

abbrev configuration : AgentConfig
configuration = record {
  client_id = codes "agent";
  collection_interval = pos 50;
  aggregator_endpoints = codes "b:2" ∷ codes "a:1" ∷ [];
  queue_capacity = 256;
}

accepted : parse_agent_config arguments ≡ ok configuration
unfolding parse_agent_config text_eq from_chars_i64
accepted = refl

refused :
    (parse_agent_config (codes "--client-id=a" ∷ codes "--client-id=a" ∷ [])
      ≡ unexpected (record { code = duplicate_option; option = codes "--client-id=" }))
    × (parse_agent_config (codes "--endpoint=a" ∷ [])
        ≡ unexpected (record { code = missing_required_option; option = codes "--client-id=" }))
    × (parse_agent_config (codes "--interval=5" ∷ [])
        ≡ unexpected (record { code = unknown_option; option = codes "--interval=" }))
    × (parse_agent_config (codes "--queue-capacity=0" ∷ [])
        ≡ unexpected (record { code = invalid_value; option = codes "--queue-capacity=" }))
unfolding parse_agent_config text_eq from_chars_i64 from_chars_u64
refused = (refl, refl, refl, refl)

parse_agent_config_iff_example :
    (parse_agent_config arguments ≡ ok configuration)
    ↔ (All IsKnown arguments × Configured arguments configuration)
parse_agent_config_iff_example = parse_agent_config_iff arguments configuration

parse_agent_config-arguments_of_example :
    parse_agent_config (arguments_of configuration) ≡ ok configuration
parse_agent_config-arguments_of_example = parse_agent_config-arguments_of configuration (record {
  client_named = refl;
  endpoints_given = refl;
  endpoints_named = (refl, (refl, tt));
  interval_positive = refl;
  interval_fits = ground arith;
  capacity_positive = ground arith;
  capacity_fits = ground arith;
})
