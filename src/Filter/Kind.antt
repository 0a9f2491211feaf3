-- ===== src/Filter/Kind.antt =====
-- What the initialisations of the kinds of filters share: the call of filt_init (bpipe/core.c) with
-- the configuration of the kind, and the contract that they build with bpipe/properties.c.
use bpipe.Base.{ℕ, Bool, true, none, some, List, [], all_ports, set}
use bpipe.Err.{Ec}
use bpipe.Ring.{Config}
use bpipe.Property.{
  op_set, op_preserve, prop_data_type, prop_sample_period_ns, prop_min_batch_capacity,
  prop_max_batch_capacity, propagate,
}
use bpipe.Filter.{Filter, Heap, State}
use bpipe.Filter.Lifecycle
use bpipe.Filter.Lifecycle.{FilterConfig, Answer}
use bpipe.Filter.Contract.{append_behavior}

-- `sizeof(Filter_t)`, the size of the kind's own structure, and what filt_init is granted.
pub record Platform : Type 0 where
  pub sizeof_filter : ℕ
  pub size : ℕ
  pub answers : List Answer
  pub mutex : Bool

abbrev pub kind_config : Platform → (filt_type n_inputs sinks : ℕ) → Config → ℕ → FilterConfig
kind_config p filt_type n_inputs sinks c timeout_us = record {
  filt_type = filt_type;
  size = p.size;
  n_inputs = n_inputs;
  max_supported_sinks = sinks;
  buff_config = c;
  timeout_us = timeout_us;
  has_worker = true;
}

abbrev pub kind_init : Platform → FilterConfig → Heap → Ec × State
kind_init p c h = Lifecycle.init p.sizeof_filter c p.answers p.mutex h

abbrev pub on_filter : (Filter → Filter) → State → State
on_filter g s = record s { filter = g s.filter }

-- The behaviours of a filter that makes batches of its own, up to a capacity.
unfoldable pub own_batches : (dtype max_batch : ℕ) → Filter → Filter
own_batches dtype max_batch f =
    let typed = (append_behavior f prop_data_type op_set (some dtype) all_ports).1 in
    let timed = (append_behavior typed prop_sample_period_ns op_preserve none all_ports).1 in
    let lower = (append_behavior timed prop_min_batch_capacity op_set (some 1) all_ports).1 in
    (append_behavior lower prop_max_batch_capacity op_set (some max_batch) all_ports).1

-- The properties of the first output, without any input.
unfoldable pub with_output : Filter → Filter
with_output f = record f {
  output_properties = set f.output_properties 0 (propagate [] (some f.output_behaviors) 0);
}
