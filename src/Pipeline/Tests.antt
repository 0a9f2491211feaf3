-- ===== src/Pipeline/Tests.antt =====
-- The sort of bpipe/pipeline.c on two filters, the second of which feeds the first.
use bpipe.Base.{
  Option, none, true, false, replicate, arith, ◌==◌, if◌then◌else◌, ◌≡◌, ◌⊎◌, ◌↔◌, inl, inr, refl,
  ap, some, List, [], ◌∷◌,
}
use bpipe.Err.{Ec, ok, invalid_config, is_ok}
use bpipe.Pipeline.{FilterRef, Connection, Pipeline}
use bpipe.Pipeline.Sort.{topological_sort}
use bpipe.Property.{table_init, validate_connection, propagate}
use bpipe.Pipeline.Validate.{Store, validate_properties}
use bpipe.Pipeline.Validate.Collect.{IsFed}
use bpipe.Pipeline.Validate.Final.{validate_properties-IsFed}
use bpipe.Pipeline.Sort.Visit.{Closed, Cycle}
use bpipe.Pipeline.Sort.Correct.{IsTopological, topological_sort_total, topological_sort-ok_iff}

abbrev feed : Connection
feed = record { from_filter = 2; from_port = 0; to_filter = 1; to_port = 0 }

abbrev two_filters : Pipeline
two_filters = record {
  filters = 1 ∷ 2 ∷ [];
  connections = feed ∷ [];
  input_filter = 0;
  input_port = 0;
  output_filter = 1;
  output_port = 0;
  external_input_mappings = [];
  n_external_inputs = 0;
}

two_filters-Closed : Closed two_filters.filters two_filters.connections
two_filters-Closed c (inl e) = inl (ap (λ d. d.to_filter) e)
two_filters-Closed c (inr h) = absurd h

topological_sort_total_example :
    ((l : List FilterRef) × (topological_sort two_filters (λ f. 0) ≡ some (ok, l))
      × IsTopological two_filters.filters two_filters.connections l)
    ⊎ ((l : List FilterRef) × (topological_sort two_filters (λ f. 0) ≡ some (invalid_config, l))
        × Cycle two_filters.filters two_filters.connections)
topological_sort_total_example = topological_sort_total two_filters two_filters-Closed (λ f. 0)

topological_sort-ok_iff_example :
    ((l : List FilterRef) × (topological_sort two_filters (λ f. 0) ≡ some (ok, l)))
    ↔ ¬ Cycle two_filters.filters two_filters.connections
topological_sort-ok_iff_example = topological_sort-ok_iff two_filters two_filters-Closed (λ f. 0)

two_filters_sorted : topological_sort two_filters (λ f. 0) ≡ some (ok, 2 ∷ 1 ∷ [])
unfolding topological_sort is_ok
two_filters_sorted = refl

-- The filter 2 is a source of floats; the filter 1 has one input, of any kind of property.
abbrev filters : Store
filters f = record {
  filt_type = 2;
  running = false;
  has_worker = true;
  worker_err = ok;
  n_batches = 0;
  samples_processed = 0;
  timeout_us = 1000;
  max_supported_sinks = 1;
  n_input_buffers = if f == 2 then 0 else 1;
  n_sinks = 0;
  data_width = 4;
  input_buffers = f ∷ replicate 9 0;
  sinks = replicate 10 0;
  input_constraints = [];
  output_behaviors = [];
  output_properties = replicate 8 table_init;
  n_outputs = 1;
  input_properties = replicate 10 table_init;
  output_batch_samples = 0;
  size_detected = false;
}

abbrev store_of : Option (Ec × Store) → Store
store_of none = filters
store_of (some r) = r.1

-- The filters as the validation leaves them.
finished : Store
unfolding validate_properties topological_sort is_ok validate_connection propagate
finished = store_of (validate_properties two_filters [] filters)

two_filters_pass : validate_properties two_filters [] filters ≡ some (ok, finished)
unfolding finished validate_properties topological_sort is_ok validate_connection propagate
two_filters_pass = refl

validate_properties-IsFed_example : IsFed two_filters [] finished 1 0
validate_properties-IsFed_example =
    validate_properties-IsFed two_filters [] filters finished 1 0 two_filters-Closed
      two_filters_pass (inl refl) (λ e. omega arith) (omega arith)
