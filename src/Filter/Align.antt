-- ===== src/Filter/Align.antt =====
-- bpipe/properties.c: prop_validate_multi_input_alignment, the check that the inputs of a filter
-- agree on a property.
use bpipe.Base.{
  ℕ, zero, suc, ◌+◌, ◌<◌, ◌≤◌, ◌≡◌, ◌≢◌, ◌↔◌, inl, inr, refl, sym, ◌∙◌, Bool, true, false, not,
  ◌&&◌, ◌||◌, List, [], ◌∷◌, arith, leb, ◌==◌, if◌then◌else◌, Bool-cases, has_bit, All, get_or,
  ==_iff, subst,
}
use bpipe.Err.{Ec, ok, invalid_config, property_mismatch}
use bpipe.Property.{
  Property, PropertyTable, property, table_init, Constraint, ConstraintOp, exists, eq, gte, lte,
  multi_input_aligned, low, is_bad_index, prop_count_mvp, prop_data_type, prop_sample_period_ns,
}
use bpipe.Property.Validate.{Indexed}
use bpipe.Filter.{Filter, input, max_inputs}
pub mod Agreed

unfoldable pub properties_match : Property → Property → ℕ → Bool
properties_match x y p =
    x.known
    && y.known
    && (if p == prop_data_type
        then low x.value == low y.value
        else if p == prop_sample_period_ns
        then x.value == y.value
        else low x.value == low y.value)

-- The four `continue` of the loop over the ports.
unfoldable pub is_skipped : Filter → Constraint → ℕ → ℕ → Bool
is_skipped f c new port =
    not (has_bit c.input_mask port)
    || port == new
    || leb new port
    || leb f.n_input_buffers port
    || input f port == 0

unfoldable pub existing : Filter → Constraint → ℕ → Property
existing f c port = property (get_or f.input_properties port table_init) c.property

unfoldable pub is_port_aligned : Filter → Property → Constraint → ℕ → ℕ → Bool
unfolding is_skipped properties_match
is_port_aligned f x c new port =
    is_skipped f c new port
    || ((existing f c port).known && properties_match x (existing f c port) c.property)

-- `n` rounds of that loop, from `port` on.
unfoldable pub are_ports_aligned : Filter → Property → Constraint → ℕ → ℕ → ℕ → Bool
unfolding is_port_aligned
are_ports_aligned f x c new zero port = true
are_ports_aligned f x c new (suc n) port =
    let rest = are_ports_aligned f x c new n (port + 1) in
    if is_port_aligned f x c new port then rest else false

abbrev pub is_alignment : ConstraintOp → Bool
is_alignment exists = false
is_alignment eq = false
is_alignment gte = false
is_alignment lte = false
is_alignment multi_input_aligned = true

-- The loop over the constraints.
unfoldable pub validate_alignment : Filter → ℕ → PropertyTable → List Constraint → Ec
unfolding are_ports_aligned
validate_alignment f new t [] = ok
validate_alignment f new t (c ∷ cs) =
    let rest = validate_alignment f new t cs in
    if not (is_alignment c.op)
    then rest
    else if not (has_bit c.input_mask new)
    then rest
    else if is_bad_index c.property
    then invalid_config
    else if not (property t c.property).known
    then property_mismatch
    else if are_ports_aligned f (property t c.property) c new max_inputs 0
    then rest
    else property_mismatch

-- `prop_validate_multi_input_alignment` of pointers that are not NULL.
unfoldable pub validate_multi_input_alignment : Filter → ℕ → PropertyTable → Ec
unfolding validate_alignment
validate_multi_input_alignment f new t = validate_alignment f new t f.input_constraints
