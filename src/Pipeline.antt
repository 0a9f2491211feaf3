-- ===== src/Pipeline.antt =====
-- bpipe/pipeline.h and bpipe/pipeline.c: the graph of filters that a pipeline holds.
use bpipe.Base.{
  ℕ, ◌+◌, Bool, true, false, ◌&&◌, ◌||◌, List, [], ◌∷◌, ltb, leb, ◌==◌, if◌then◌else◌, set,
}
use bpipe.Err.{Ec, ok, null_pointer, invalid_config}
pub mod Sort
pub mod Validate
pub mod Lifecycle
pub mod Setup
mod Tests

-- A `Filter_t *` is a number, and NULL is 0.
abbrev pub FilterRef : Type 0
FilterRef = ℕ

abbrev pub null : FilterRef
null = 0

abbrev pub max_inputs : ℕ
max_inputs = 10

pub record Connection : Type 0 where
  pub from_filter : FilterRef
  pub from_port : ℕ
  pub to_filter : FilterRef
  pub to_port : ℕ

-- `ExternalInputMapping_t`
pub record Mapping : Type 0 where
  pub filter : FilterRef
  pub port : ℕ

-- `Pipeline_t` without its base filter, which Filter.antt models. `external_input_mappings` has
-- `MAX_INPUTS` slots.
pub record Pipeline : Type 0 where
  pub filters : List FilterRef
  pub connections : List Connection
  pub input_filter : FilterRef
  pub input_port : ℕ
  pub output_filter : FilterRef
  pub output_port : ℕ
  pub external_input_mappings : List Mapping
  pub n_external_inputs : ℕ

unfoldable pub contains_filter : List FilterRef → FilterRef → Bool
contains_filter [] f = false
contains_filter (g ∷ gs) f = g == f || contains_filter gs f

unfoldable pub declare_external_input : Pipeline → ℕ → FilterRef → ℕ → Ec × Pipeline
unfolding contains_filter
declare_external_input p index f port =
    if f == null
    then (null_pointer, p)
    else if leb max_inputs index
    then (invalid_config, p)
    else if contains_filter p.filters f
    then (
      ok,
      record p {
        external_input_mappings =
            set p.external_input_mappings index (record { filter = f; port = port });
        n_external_inputs =
            if leb p.n_external_inputs index then index + 1 else p.n_external_inputs;
      },
    )
    else (invalid_config, p)
