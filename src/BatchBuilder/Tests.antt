-- ===== src/BatchBuilder/Tests.antt =====
-- Runs of batch_builder.cpp.
use pulse_mesh.Base.{◌≡◌, refl, pos, some, arith, inl, inr, List, [], ◌∷◌, codes}
use pulse_mesh.Base.Double.{Whole, whole_double}
use pulse_mesh.Text.Digits.{digits, to_string}
use pulse_mesh.Wire.{Metric}
use pulse_mesh.BatchBuilder.{
  BatchBuilder, make_session_nonce, new_session, hex16, batch_id_at, build,
}
use pulse_mesh.BatchBuilder.Session.{DisjointIds, build_all-DisjointIds}
use pulse_mesh.BatchBuilder.Built.{
  Outcome, build-Outcome, build_all, DistinctIds, build_all-DistinctIds,
}

abbrev load : Metric Whole
load = record {
  name = codes "load";
  value = some 3;
  tags = [];
  timestamp_ms = pos 10;
  source_client_id = [];
}

abbrev builder : BatchBuilder
builder = record { client_id = codes "agent"; session_nonce = 42; next_sequence = 1 }

printed : batch_id_at (codes "a-b") 42 10 ≡ codes "a-b-000000000000002a-10"
unfolding batch_id_at hex16 digits to_string
printed = refl

-- Two draws, one behind the other.
nonce_of_draws : make_session_nonce 0x12345678 0x9abcdef0 ≡ 0x123456789abcdef0
unfolding make_session_nonce
nonce_of_draws = refl

abbrev lists : List (List (Metric Whole))
lists = (load ∷ []) ∷ [] ∷ (load ∷ load ∷ []) ∷ []

build_all-DisjointIds_example :
    DisjointIds
      (build_all lists (new_session (codes "agent") 1 7))
      (build_all lists (new_session (codes "agent") 7 1))
build_all-DisjointIds_example =
    build_all-DisjointIds lists lists (codes "agent") (codes "agent") 1 7 7 1
      (record { first_fits = ground arith; second_fits = ground arith })
      (record { first_fits = ground arith; second_fits = ground arith })
      (inr (inl (λ h. absurd (omega (arith, h)))))

build-Outcome_example : Outcome (load ∷ []) builder (build (load ∷ []) builder)
build-Outcome_example = build-Outcome (load ∷ []) builder

build_all-DistinctIds_example : DistinctIds (build_all lists builder)
build_all-DistinctIds_example = build_all-DistinctIds lists builder (ground arith)
