-- ===== src/Examples/Upcasters.antt =====
-- A registry with two upcasters, the second of which leaves out a version.
use ironflow_go.Prelude.{◌≡◌, refl, ◌↔◌, [], ◌∷◌, ◌++◌, Text, codes, Bool, false, arith}
use ironflow_go.Upcaster.{
  data_ok, to_data, UpcasterFunc, UpcasterRegistry, new_upcaster_registry, register, latest_version,
  versions_of, upcaster_at, set_upcaster, upcast,
}
use ironflow_go.Upcaster.Chain.{Chain, stop, step, upcast_iff_Chain}
use ironflow_go.Prelude.{lookup, insert, text_eq}

abbrev placed : Text
placed = codes "order.placed"

abbrev append_one : UpcasterFunc
append_one event_data = to_data (event_data ++ 1 ∷ [])

abbrev never_redacted : Text → Bool
never_redacted event_data = false

abbrev to_version_two : UpcasterRegistry
to_version_two = record {
  upcasters = (placed, (1, append_one) ∷ []) ∷ [];
  latest_versions = (placed, 2) ∷ [];
}

registered_two : register placed 1 2 append_one new_upcaster_registry ≡ to_version_two
unfolding register latest_version lookup insert set_upcaster
registered_two = refl

one_link : Chain (versions_of to_version_two placed) 1 1 [] (1 ∷ [])
unfolding lookup text_eq upcaster_at
one_link = step append_one refl refl stop

upcast_iff_Chain_example :
    (upcast never_redacted to_version_two placed [] 1 2 ≡ data_ok (1 ∷ []))
    ↔ Chain (versions_of to_version_two placed) 1 1 [] (1 ∷ [])
upcast_iff_Chain_example =
    upcast_iff_Chain never_redacted to_version_two placed [] 1 2 (1 ∷ []) (omega arith) refl
