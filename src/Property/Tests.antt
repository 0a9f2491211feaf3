-- ===== src/Property/Tests.antt =====
-- The theorems about bpipe/properties.c at concrete tables and contracts.
use bpipe.Base.{
  ◌≡◌, ◌⊎◌, ◌++◌, ◌↔◌, true, false, some, List, [], ◌∷◌, arith, replicate, All, all_ports,
  has_bit-all_ports,
}
use bpipe.Err.{ok}
use bpipe.Property.{
  PropertyTable, property, Constraint, gte, Behavior, op_set, op_preserve, prop_data_type,
  prop_min_batch_capacity, prop_sample_period_ns, validate_connection, propagate,
}
use bpipe.Property.Rate.{get_sample_rate_hz, set_sample_rate_hz, get_sample_rate_hz-set}
use bpipe.Property.Validate.{Met, validate_connection-ok_iff}
use bpipe.Property.Propagate.{governs, IsInherited, IsGivenBy, propagate_decided}

abbrev table : PropertyTable
table = replicate 9 (record { known = true; value = 64 })

abbrev at_least : Constraint
at_least = record {
  property = prop_min_batch_capacity;
  op = gte;
  input_mask = all_ports;
  operand = 32;
}

abbrev keeps : Behavior
keeps = record { property = prop_data_type; op = op_preserve; output_mask = all_ports; operand = 0 }

abbrev sets : Behavior
sets = record {
  property = prop_sample_period_ns;
  op = op_set;
  output_mask = all_ports;
  operand = 1000;
}

validate_connection-ok_iff_example :
    (validate_connection (some table) (some (at_least ∷ [])) 0 ≡ ok)
    ↔ All (Met table 0) (at_least ∷ [])
validate_connection-ok_iff_example = validate_connection-ok_iff table (at_least ∷ []) 0

abbrev behaviors : List Behavior
behaviors = keeps ∷ sets ∷ []

propagate_decided_example :
    let x = property (propagate (table ∷ []) (some behaviors) 0) prop_sample_period_ns in
    (All (λ b. governs 0 prop_sample_period_ns b ≡ false) behaviors
      × IsInherited (table ∷ []) prop_sample_period_ns x)
    ⊎ ((before : List Behavior) × (b : Behavior) × (later : List Behavior) × (behaviors
          ≡ before ++ b ∷ later)
        × (governs 0 prop_sample_period_ns b ≡ true)
        × All (λ c. governs 0 prop_sample_period_ns c ≡ false) later
        × IsGivenBy b.op
            (table ∷ [])
            b
            prop_sample_period_ns
            (property (propagate (table ∷ []) (some before) 0) prop_sample_period_ns)
            x)
propagate_decided_example =
    propagate_decided (table ∷ []) behaviors 0 prop_sample_period_ns (omega arith)

apart : governs 0 prop_data_type sets ≡ false
apart = rw (has_bit-all_ports 0 (omega arith))

get_sample_rate_hz-set_example : get_sample_rate_hz (set_sample_rate_hz table 8000).1 ≡ some 8000
get_sample_rate_hz-set_example =
    get_sample_rate_hz-set table 8000 (omega arith) (omega arith) (omega arith)
