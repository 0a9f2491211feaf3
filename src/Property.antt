-- ===== src/Property.antt =====
-- bpipe/properties.h and bpipe/properties.c: tables of signal properties, the validation of a
-- connection against a contract, and the propagation through a filter. The texts that the code
-- writes for a failed check are left out. Arrays with a count are the lists of their entries.
pub mod Validate
pub mod Propagate
pub mod Rate
mod Tests
use bpipe.Base.{
  ℕ, ◌+◌, ◌*◌, ◌/◌, ◌%◌, ◌^◌, Bool, true, false, not, ◌&&◌, ◌||◌, Option, none, some, List, [], ◌∷◌,
  map, ltb, leb, ◌==◌, if◌then◌else◌, length, get_or, set, replicate, u32, has_bit,
}
use bpipe.Err.{Ec, ok, null_pointer, invalid_config, property_mismatch}
use bpipe.Ring.{Config, dtype_ndef}

-- `SignalProperty_t`: indices into a table, some of which the code checks against their range.
abbrev pub prop_data_type : ℕ
prop_data_type = 1

abbrev pub prop_min_batch_capacity : ℕ
prop_min_batch_capacity = 2

abbrev pub prop_max_batch_capacity : ℕ
prop_max_batch_capacity = 3

abbrev pub prop_sample_period_ns : ℕ
prop_sample_period_ns = 4

abbrev pub prop_max_total_samples : ℕ
prop_max_total_samples = 7

abbrev pub prop_count_mvp : ℕ
prop_count_mvp = 8

-- `Property_t`. The union of `dtype`, `u32` and `u64` is the number in its eight bytes, the first
-- two members being its low half on a little-endian machine.
pub record Property : Type 0 where
  pub known : Bool
  pub value : ℕ

abbrev pub low : ℕ → ℕ
low v = v % 2 ^ 32

-- The union after a write to `dtype` or `u32`.
abbrev pub set_low : ℕ → ℕ → ℕ
set_low v x = v / 2 ^ 32 * 2 ^ 32 + u32 x

abbrev pub zero_property : Property
zero_property = record { known = false; value = 0 }

abbrev pub PropertyTable : Type 0
PropertyTable = List Property

abbrev pub property : PropertyTable → ℕ → Property
property t p = get_or t p zero_property

-- `prop_table_init`; the table has an entry for index 0 too.
abbrev pub table_init : PropertyTable
table_init = replicate (prop_count_mvp + 1) zero_property

-- `prop_set_all_unknown`
abbrev pub set_all_unknown : PropertyTable → PropertyTable
set_all_unknown t = map (λ _. zero_property) t

-- The getters of a 32-bit and of a 64-bit property: `none` where the code returns false.
unfoldable pub get_low : PropertyTable → ℕ → Option ℕ
get_low t p = if (property t p).known then some (low (property t p).value) else none

unfoldable pub get_wide : PropertyTable → ℕ → Option ℕ
get_wide t p = if (property t p).known then some (property t p).value else none

pub data ConstraintOp : Type 0 where
  exists eq gte lte multi_input_aligned : ConstraintOp

pub data BehaviorOp : Type 0 where
  op_set op_preserve : BehaviorOp

-- `InputConstraint_t`; `operand` is the union, as in `Property`.
pub record Constraint : Type 0 where
  pub property : ℕ
  pub op : ConstraintOp
  pub input_mask : ℕ
  pub operand : ℕ

-- `OutputBehavior_t`
pub record Behavior : Type 0 where
  pub property : ℕ
  pub op : BehaviorOp
  pub output_mask : ℕ
  pub operand : ℕ

-- The properties whose value is the whole union.
abbrev pub is_wide : ℕ → Bool
is_wide p = p == prop_sample_period_ns || p == prop_max_total_samples

-- The switch of `validate_constraint`, on the operator, the index, the property and the operand.
unfoldable pub check : ConstraintOp → ℕ → Property → ℕ → Bool
check exists p x v = x.known
check eq p x v =
    x.known
    && (if p == prop_data_type
        then low x.value == low v
        else if is_wide p
        then x.value == v
        else low x.value == low v)
check gte p x v =
    x.known && (if is_wide p then not (ltb x.value v) else not (ltb (low x.value) (low v)))
check lte p x v =
    x.known && (if is_wide p then not (ltb v x.value) else not (ltb (low v) (low x.value)))
check multi_input_aligned p x v = true

unfoldable pub validate_constraint : Property → Constraint → Bool
unfolding check
validate_constraint x c = check c.op c.property x c.operand

-- `property > PROP_COUNT_MVP || property < 1`
abbrev pub is_bad_index : ℕ → Bool
is_bad_index p = ltb prop_count_mvp p || ltb p 1

-- The loop of `prop_validate_connection`.
pub validate_all : PropertyTable → ℕ → List Constraint → Ec
validate_all t port [] = ok
validate_all t port (c ∷ cs) =
    let rest = validate_all t port cs in
    if not (has_bit c.input_mask port)
    then rest
    else if is_bad_index c.property
    then invalid_config
    else if not (validate_constraint (property t c.property) c)
    then property_mismatch
    else rest

-- `prop_validate_connection`, where either pointer may be NULL.
unfoldable pub validate_connection : Option PropertyTable → Option (List Constraint) → ℕ → Ec
unfolding validate_all
validate_connection none _ port = null_pointer
validate_connection (some t) none port = null_pointer
validate_connection (some t) (some cs) port = validate_all t port cs

-- BEHAVIOR_OP_PRESERVE: the property of the chosen input, of the first one if there is no such.
pub preserved : Property → ℕ → ℕ → List PropertyTable → Property
preserved x p idx [] = x
preserved x p idx (t ∷ ts) =
    property (if leb (length (t ∷ ts)) idx then t else get_or (t ∷ ts) idx t) p

-- `apply_behavior`
unfoldable pub apply_behavior : Property → Behavior → List PropertyTable → Property
unfolding preserved
apply_behavior x b inputs = elim b.op [
  | op_set ↦ record {
    known = true;
    value =
        if b.property == prop_data_type
        then set_low x.value (low b.operand)
        else if is_wide b.property
        then b.operand
        else set_low x.value (low b.operand);
  }
  | op_preserve ↦ preserved x b.property (low b.operand) inputs
]

-- The loop of `prop_propagate` over the behaviours.
pub apply_all : List PropertyTable → ℕ → List Behavior → PropertyTable → PropertyTable
apply_all inputs port [] t = t
apply_all inputs port (b ∷ bs) t = apply_all inputs port bs (
    if not (has_bit b.output_mask port) || is_bad_index b.property
    then t
    else set t b.property (apply_behavior (property t b.property) b inputs))

abbrev pub inherited : List PropertyTable → PropertyTable
inherited [] = set_all_unknown table_init
inherited (t ∷ ts) = t

-- `prop_propagate`, for the properties of the input ports (none for a source) and the behaviours
-- of the contract, which may be NULL.
unfoldable pub propagate : List PropertyTable → Option (List Behavior) → ℕ → PropertyTable
unfolding apply_all
propagate inputs none port = inherited inputs
propagate inputs (some bs) port = apply_all inputs port bs (inherited inputs)

abbrev put_known : ℕ → ℕ → PropertyTable → PropertyTable
put_known p v t = set t p (record { known = true; value = set_low (property t p).value v })

-- `prop_from_buffer_config` of a configuration that is not NULL, with a capacity exponent below 32.
unfoldable pub from_buffer_config : Config → PropertyTable
from_buffer_config c =
    let typed =
      if c.dtype == dtype_ndef then table_init else put_known prop_data_type c.dtype table_init in
    let capacity = 2 ^ c.batch_capacity_expo in
    if ltb 0 capacity
    then put_known prop_max_batch_capacity capacity
        (put_known prop_min_batch_capacity capacity typed)
    else typed
