-- ===== src/Filter/Contract.antt =====
-- bpipe/properties.c: how a filter builds its contract, entry by entry and from the configuration
-- of its buffer. An operand is a pointer that may be NULL; a C `bool` result is a `Bool`.
use bpipe.Base.{
  ℕ, zero, suc, ◌+◌, ◌*◌, ◌/◌, ◌%◌, ◌^◌, ◌<◌, ◌≤◌, ◌≡◌, ◌≢◌, ◌↔◌, refl, sym, ap, ◌∙◌, Bool, true,
  false, not, ◌&&◌, ◌||◌, Option, none, some, List, [], ◌∷◌, ◌++◌, arith, ltb, leb, ◌==◌,
  if◌then◌else◌, length, all_ports,
}
use bpipe.Ring.{Config}
use bpipe.Property.{
  Constraint, ConstraintOp, exists, eq, gte, lte, multi_input_aligned, Behavior, BehaviorOp, op_set,
  op_preserve, low, prop_data_type, prop_min_batch_capacity, prop_max_batch_capacity,
  prop_sample_period_ns,
}
use bpipe.Filter.{Filter}
pub mod Buffered

-- MAX_CONSTRAINTS and MAX_BEHAVIORS
abbrev pub max_entries : ℕ
max_entries = 16

-- What the operand of a fresh entry holds: a period is read as 64 bits, all else as 32.
abbrev pub stored : ℕ → Option ℕ → ℕ
stored p none = 0
stored p (some v) = if p == prop_sample_period_ns then v else low v

abbrev needs_operand : ConstraintOp → Bool
needs_operand exists = false
needs_operand eq = true
needs_operand gte = true
needs_operand lte = true
needs_operand multi_input_aligned = false

abbrev is_given : Option ℕ → Bool
is_given none = false
is_given (some v) = true

-- `prop_append_constraint` of a filter that is not NULL.
unfoldable pub append_constraint : Filter → ℕ → ConstraintOp → Option ℕ → ℕ → Bool × Filter
append_constraint f p op operand mask =
    if needs_operand op && not (is_given operand)
    then (false, f)
    else if leb max_entries (length f.input_constraints)
    then (false, f)
    else (
      true,
      record f {
        input_constraints =
            f.input_constraints
            ++ record { property = p; op = op; input_mask = mask; operand = stored p operand } ∷ [];
      },
    )

abbrev is_set : BehaviorOp → Bool
is_set op_set = true
is_set op_preserve = false

-- `prop_append_behavior` of a filter that is not NULL.
unfoldable pub append_behavior : Filter → ℕ → BehaviorOp → Option ℕ → ℕ → Bool × Filter
append_behavior f p op operand mask =
    if is_set op && not (is_given operand)
    then (false, f)
    else if leb max_entries (length f.output_behaviors)
    then (false, f)
    else (
      true,
      record f {
        output_behaviors =
            f.output_behaviors
            ++ record { property = p; op = op; output_mask = mask; operand = stored p operand }
              ∷ [];
      },
    )

-- `prop_constraints_from_buffer_append` of pointers that are not NULL, for a capacity exponent
-- below 32.
unfoldable pub constraints_from_buffer_append : Filter → Config → Bool → Filter
constraints_from_buffer_append f c accepts_partial_fill =
    let capacity = 2 ^ c.batch_capacity_expo in
    let typed = (append_constraint f prop_data_type eq (some c.dtype) all_ports).1 in
    if accepts_partial_fill
    then (append_constraint
        (append_constraint typed prop_min_batch_capacity gte (some 1) all_ports).1
        prop_max_batch_capacity lte (some capacity) all_ports).1
    else (append_constraint
        (append_constraint typed prop_min_batch_capacity eq (some capacity) all_ports).1
        prop_max_batch_capacity eq (some capacity) all_ports).1

-- `prop_set_output_behavior_for_buffer_filter`, likewise.
unfoldable pub set_output_behavior_for_buffer_filter : Filter → Config → Bool → Bool → Filter
set_output_behavior_for_buffer_filter f c adapt_batch_size guarantee_full =
    let capacity = 2 ^ c.batch_capacity_expo in
    let typed = (append_behavior f prop_data_type op_preserve none all_ports).1 in
    let timed = (append_behavior typed prop_sample_period_ns op_preserve none all_ports).1 in
    if adapt_batch_size
    then timed
    else if guarantee_full
    then (append_behavior
        (append_behavior timed prop_min_batch_capacity op_set (some capacity) all_ports).1
        prop_max_batch_capacity op_set (some capacity) all_ports).1
    else (append_behavior
        (append_behavior timed prop_min_batch_capacity op_preserve none all_ports).1
        prop_max_batch_capacity op_preserve none all_ports).1
