-- ===== src/Pipeline/Setup/Tests.antt =====
-- pipeline_init of bpipe/pipeline.c on two filters, the first of which feeds the second.
use bpipe.Base.{◌≡◌, refl, true, [], ◌∷◌, replicate, ◌==◌, if◌then◌else◌}
use bpipe.Err.{ok, is_ok}
use bpipe.Ring.{zeroed}
use bpipe.Buffer.Setup
use bpipe.Filter.{Filter, sink_connect}
use bpipe.Filter.Lifecycle
use bpipe.Filter.Lifecycle.{cleared}
use bpipe.Filter.Kind.{Platform}
use bpipe.Pipeline.{contains_filter}
use bpipe.Pipeline.Validate.{Store}
use bpipe.Pipeline.Setup.{
  World, Granted, PipelineConfig, are_known, connect_one, connect_all, share_input, pipeline_init,
}
use bpipe.Pipeline.Setup.Joined.{IsSized, default_ops}
use bpipe.Pipeline.Setup.Built.{IsBuilt, pipeline_init-IsBuilt}

abbrev idle : Filter
idle = record cleared {
  filt_type = 1;
  max_supported_sinks = 1;
  n_input_buffers = 1;
  input_buffers = 1 ∷ replicate 9 0;
}

-- The buffer of the filter 1 is the buffer 1, that of any other filter the buffer 2.
abbrev idle_filters : Store
idle_filters f = record idle { input_buffers = (if f == 1 then 1 else 2) ∷ replicate 9 0 }

idle_filters-IsSized : IsSized idle_filters
idle_filters-IsSized f = refl

abbrev blank : World
blank = record {
  pipeline = record {
    filters = [];
    connections = [];
    input_filter = 0;
    input_port = 0;
    output_filter = 0;
    output_port = 0;
    external_input_mappings = [];
    n_external_inputs = 0;
  };
  base = record { filter = cleared; heap = λ r. zeroed };
  filters = idle_filters;
}

abbrev platform : Platform
platform = record {
  sizeof_filter = 1;
  size = 2;
  answers =
      record {
        pointer = 3;
        granted = record {
          batch_ring = true;
          data_ring = true;
          mutex = true;
          not_empty = true;
          not_full = true;
        };
      }
      ∷ [];
  mutex = true;
}

abbrev chain : PipelineConfig
chain = record {
  buff_config = record {
    dtype = 1;
    batch_capacity_expo = 2;
    ring_capacity_expo = 2;
    overflow_behaviour = 0;
  };
  timeout_us = 1000;
  filters = 1 ∷ 2 ∷ [];
  connections = record { from_filter = 1; from_port = 0; to_filter = 2; to_port = 0 } ∷ [];
  input_filter = 1;
  input_port = 0;
  output_filter = 2;
  output_port = 0;
}

abbrev granted : Granted
granted = record { listed = true; linked = true }

abbrev set_up : World
set_up = (pipeline_init default_ops platform granted chain blank).1

chain_set_up : pipeline_init default_ops platform granted chain blank ≡ (ok, set_up)
unfolding pipeline_init connect_all connect_one are_known contains_filter share_input Lifecycle.init
    Setup.init sink_connect is_ok
chain_set_up = refl

pipeline_init-IsBuilt_example : IsBuilt chain set_up
pipeline_init-IsBuilt_example =
    pipeline_init-IsBuilt platform granted chain blank set_up idle_filters-IsSized chain_set_up
