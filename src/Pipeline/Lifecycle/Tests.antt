-- ===== src/Pipeline/Lifecycle/Tests.antt =====
-- pipeline_start of bpipe/pipeline.c on two filters, the second of which gets no thread.
use bpipe.Base.{◌≡◌, ◌⊎◌, refl, true, false, [], ◌∷◌, replicate, ◌==◌, All}
use bpipe.Err.{ok, is_ok, thread_create_fail}
use bpipe.Ring.{zeroed}
use bpipe.Property.{table_init}
use bpipe.Filter
use bpipe.Filter.{Filter}
use bpipe.Pipeline.{FilterRef, Pipeline}
use bpipe.Pipeline.Lifecycle.{World, Ops, pipeline_start}
use bpipe.Pipeline.Lifecycle.Default.{default_ops, Reliable-default}
use bpipe.Pipeline.Lifecycle.Rollback.{pipeline_start_rolls_back}

abbrev idle_filter : Filter
idle_filter = record {
  filt_type = 2;
  running = false;
  has_worker = true;
  worker_err = ok;
  n_batches = 0;
  samples_processed = 0;
  timeout_us = 1000;
  max_supported_sinks = 1;
  n_input_buffers = 1;
  n_sinks = 0;
  data_width = 4;
  input_buffers = 1 ∷ replicate 9 0;
  sinks = replicate 10 0;
  input_constraints = [];
  output_behaviors = [];
  output_properties = replicate 8 table_init;
  n_outputs = 1;
  input_properties = replicate 10 table_init;
  output_batch_samples = 0;
  size_detected = false;
}

abbrev pair : Pipeline
pair = record {
  filters = 1 ∷ 2 ∷ [];
  connections = [];
  input_filter = 1;
  input_port = 0;
  output_filter = 2;
  output_port = 0;
  external_input_mappings = [];
  n_external_inputs = 0;
}

abbrev world : World
world = record { filters = λ f. idle_filter; heap = λ r. zeroed; running = false }

-- Only the first filter gets a thread.
abbrev ops : FilterRef → Ops
ops f = default_ops (f == 1) true

pipeline_start_rolls_back_example :
    (((pipeline_start ops pair world).0 ≡ ok)
      × All (λ g. ((pipeline_start ops pair world).1.filters g).running ≡ true) pair.filters)
    ⊎ ((is_ok (pipeline_start ops pair world).0 ≡ false)
        × (((pipeline_start ops pair world).1.filters 1).running ≡ false))
pipeline_start_rolls_back_example =
    pipeline_start_rolls_back ops (λ f. Reliable-default (f == 1) true) pair world 1 (λ g. refl)

-- The first filter has been stopped again.
pair_fails : (pipeline_start ops pair world).0 ≡ thread_create_fail
unfolding pipeline_start Filter.start is_ok
pair_fails = refl
