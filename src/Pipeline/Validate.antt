-- ===== src/Pipeline/Validate.antt =====
-- pipeline_validate_properties of bpipe/pipeline.c. The filters are a store that their numbers
-- point into; the external inputs are a list, empty for NULL. There is no answer where the code
-- reads past `output_properties`.
use bpipe.Base.{
  ℕ, zero, suc, ◌+◌, Bool, true, false, not, ◌&&◌, ◌||◌, Option, none, some, List, [], ◌∷◌, ltb,
  leb, ◌==◌, if◌then◌else◌, get_or, set, has_bit,
}
use bpipe.Err.{Ec, ok, is_ok, invalid_config, property_mismatch}
use bpipe.Property.{
  Property, PropertyTable, property, table_init, set_all_unknown, Constraint, Behavior, propagate,
  validate_connection,
}
use bpipe.Filter.{Filter, max_outputs}
use bpipe.Filter.Align.{is_alignment}
use bpipe.Pipeline.{FilterRef, null, Connection, Mapping, Pipeline}
use bpipe.Pipeline.Sort.{topological_sort}
pub mod Collect
pub mod Fed
pub mod Frame
pub mod Final

abbrev pub Store : Type 0
Store = FilterRef → Filter

-- Over the first `n` mappings, and as many external inputs as there are.
pub find_external_input :
    ℕ → List Mapping → List PropertyTable → FilterRef → ℕ → Option PropertyTable
find_external_input zero ms ts f port = none
find_external_input (suc n) [] ts f port = none
find_external_input (suc n) (m ∷ ms) [] f port = none
find_external_input (suc n) (m ∷ ms) (t ∷ ts) f port =
    if m.filter == f && m.port == port then some t else find_external_input n ms ts f port

-- The first connection to the port.
pub find_connection : List Connection → FilterRef → ℕ → Option Connection
find_connection [] f port = none
find_connection (c ∷ cs) f port =
    if c.to_filter == f && c.to_port == port then some c else find_connection cs f port

abbrev pub is_none : List PropertyTable → Bool
is_none [] = true
is_none (t ∷ ts) = false

abbrev pub unknown : PropertyTable
unknown = set_all_unknown table_init

-- An input port without an upstream filter.
pub unconnected : Pipeline → List PropertyTable → FilterRef → ℕ → Option (Ec × PropertyTable)
unconnected p externals f port =
    if f == p.input_filter && port == p.input_port && is_none externals
    then some (ok, unknown)
    else some (invalid_config, unknown)

pub connected : Store → FilterRef → ℕ → Connection → Option (Ec × PropertyTable)
connected filters f port c =
    let t = get_or (filters c.from_filter).output_properties c.from_port table_init in
    if leb max_outputs c.from_port
    then none
    else some (validate_connection (some t) (some (filters f).input_constraints) port, t)

-- What an input port receives; the table counts only beside `ok`.
pub collect_port :
    Pipeline → Store → List PropertyTable → FilterRef → ℕ → Option (Ec × PropertyTable)
unfolding find_external_input find_connection unconnected connected
collect_port p filters externals f port =
    elim (find_external_input p.n_external_inputs p.external_input_mappings externals f port) [
      | some t ↦ some (ok, t)
      | none ↦ elim (find_connection p.connections f port) [
        | some c ↦
            if c.from_filter == null
            then unconnected p externals f port
            else connected filters f port c
        | none ↦ unconnected p externals f port
      ]
    ]

-- `n` rounds of the loop over the input ports, from `port` on, which fills `input_properties`.
pub collect_ports :
    Pipeline
    → Store
    → List PropertyTable
    → FilterRef
    → ℕ
    → ℕ
    → List PropertyTable
    → Option (Ec × List PropertyTable)
unfolding collect_port
collect_ports p filters externals f zero port inputs = some (ok, inputs)
collect_ports p filters externals f (suc n) port inputs =
    elim (collect_port p filters externals f port) [
      | none ↦ none
      | some (e, t) ↦ elim (is_ok e) [
        | true ↦ collect_ports p filters externals f n (port + 1) (set inputs port t)
        | false ↦ some (e, inputs)
      ]
    ]

abbrev is_same_known : Bool → Bool → Bool
is_same_known true true = true
is_same_known false false = true
is_same_known true false = false
is_same_known false true = false

-- The comparison with the first property of the mask, over the whole unions.
abbrev differ : Property → Property → Bool
differ x y = not (is_same_known x.known y.known) || (x.known && y.known && not (x.value == y.value))

-- `n` rounds of the loop over the ports of an alignment constraint, with `first_prop`, for a
-- property of the table.
are_inputs_aligned : Constraint → List PropertyTable → Option Property → ℕ → ℕ → Bool
are_inputs_aligned c inputs first zero port = true
are_inputs_aligned c inputs first (suc n) port =
    let x = property (get_or inputs port table_init) c.property in
    elim (has_bit c.input_mask port) [
      | false ↦ are_inputs_aligned c inputs first n (port + 1)
      | true ↦ elim first [
        | none ↦ are_inputs_aligned c inputs (some x) n (port + 1)
        | some y ↦ elim (differ x y) [
          | true ↦ false
          | false ↦ are_inputs_aligned c inputs (some y) n (port + 1)
        ]
      ]
    ]

validate_inputs : List Constraint → List PropertyTable → ℕ → Ec
unfolding are_inputs_aligned
validate_inputs [] inputs n = ok
validate_inputs (c ∷ cs) inputs n =
    if is_alignment c.op && not (are_inputs_aligned c inputs none n 0)
    then property_mismatch
    else validate_inputs cs inputs n

-- `n` rounds of the loop over the output ports, from `port` on.
propagate_outputs :
    List PropertyTable → List Behavior → ℕ → ℕ → List PropertyTable → List PropertyTable
propagate_outputs inputs bs zero port outputs = outputs
propagate_outputs inputs bs (suc n) port outputs =
    propagate_outputs inputs bs n (port + 1) (set outputs port (propagate inputs (some bs) port))

-- The first `n` tables.
first_inputs : ℕ → List PropertyTable → List PropertyTable
first_inputs zero ts = []
first_inputs (suc n) [] = []
first_inputs (suc n) (t ∷ ts) = t ∷ first_inputs n ts

abbrev pub put : Store → FilterRef → Filter → Store
put filters f x = λ g. if g == f then x else filters g

-- The filter once its inputs have been collected, and have passed.
pub propagated : Filter → List PropertyTable → Filter
unfolding propagate_outputs first_inputs
propagated x inputs = record x {
  input_properties = inputs;
  output_properties =
      propagate_outputs (first_inputs x.n_input_buffers inputs) x.output_behaviors x.n_outputs 0
        x.output_properties;
}

-- After the inputs have been collected.
pub finish : Store → FilterRef → Ec × List PropertyTable → Ec × Store
unfolding validate_inputs propagated
finish filters f (e, inputs) =
    let x = filters f in
    let stored = put filters f (record x { input_properties = inputs }) in
    let aligned = validate_inputs x.input_constraints inputs x.n_input_buffers in
    if not (is_ok e)
    then (e, stored)
    else if not (is_ok aligned)
    then (aligned, stored)
    else (ok, put filters f (propagated x inputs))

-- One round of the loop over the sorted filters; a source collects no inputs. The number of output
-- ports is at most `MAX_OUTPUTS`.
unfoldable pub validate_filter :
    Pipeline → List PropertyTable → FilterRef → Store → Option (Ec × Store)
unfolding collect_ports finish
validate_filter p externals f filters =
    let x = filters f in
    elim (f == null) [
      | true ↦ some (ok, filters)
      | false ↦ elim (x.n_input_buffers == 0) [
        | true ↦ some (
          ok,
          put filters f (record x {
            output_properties =
                propagate_outputs [] x.output_behaviors x.n_outputs 0 x.output_properties;
          }),
        )
        | false ↦
            elim (collect_ports p filters externals f x.n_input_buffers 0 x.input_properties) [
              | none ↦ none
              | some r ↦ some (finish filters f r)
            ]
      ]
    ]

pub validate_sorted : Pipeline → List PropertyTable → List FilterRef → Store → Option (Ec × Store)
unfolding validate_filter
validate_sorted p externals [] filters = some (ok, filters)
validate_sorted p externals (f ∷ fs) filters = elim (validate_filter p externals f filters) [
  | none ↦ none
  | some (e, filters') ↦ elim (is_ok e) [
    | true ↦ validate_sorted p externals fs filters'
    | false ↦ some (e, filters')
  ]
]

pub has_source : Store → List FilterRef → Bool
has_source filters [] = false
has_source filters (f ∷ fs) =
    (not (f == null) && (filters f).n_input_buffers == 0) || has_source filters fs

-- `pipeline_validate_properties` of a pipeline that is not NULL.
unfoldable pub validate_properties : Pipeline → List PropertyTable → Store → Option (Ec × Store)
unfolding validate_sorted has_source
validate_properties p externals filters =
    if is_none externals && p.input_filter == null && not (has_source filters p.filters)
    then some (invalid_config, filters)
    else elim (topological_sort p (λ f. (filters f).n_input_buffers)) [
      | none ↦ none
      | some (e, sorted) ↦ elim (is_ok e) [
        | true ↦ validate_sorted p externals sorted filters
        | false ↦ some (e, filters)
      ]
    ]
