-- ===== src/Filter/Tests.antt =====
-- The theorems about bpipe/core.c and the contracts of bpipe/properties.c at concrete filters.
use bpipe.Base.{
  List, set, ◌<◌, ◌^◌, zero, suc, ◌⊎◌, ◌↔◌, ℕ, ◌≡◌, ◌≢◌, refl, true, false, none, some, [], ◌∷◌,
  arith, replicate, all_ports, All,
}
use bpipe.Err.{ok, is_ok}
use bpipe.Filter.Ops.{default_ops, get_backlog, get_backlog-unread}
use bpipe.Ring.{BatchBuff, Config, zeroed, zero_batch}
use bpipe.Buffer.Inv.{IsValid}
use bpipe.Property.{
  validate_connection, from_buffer_config, eq, PropertyTable, table_init, multi_input_aligned,
  prop_sample_period_ns, prop_max_total_samples,
}
use bpipe.Filter.Contract.{append_constraint, constraints_from_buffer_append}
use bpipe.Filter.{sink, input, sink_disconnect, Heap, Filter, State, sink_connect, stop}
use bpipe.Buffer.Setup
use bpipe.Filter.Lifecycle
use bpipe.Filter.Lifecycle.{FilterConfig, Answer}
use bpipe.Filter.Lifecycle.Created.{IsMade, init-IsMade}
use bpipe.Filter.Connect.{connect}
use bpipe.Filter.Sinks.{CanConnect, sink_connect_cases}
use bpipe.Filter.Sinks.Wired.{IsWired, sinks-IsWired, disconnect-connect}
use bpipe.Filter.Join.{connect-ok_iff, IsJoint, joined}
use bpipe.Filter.Align.{validate_multi_input_alignment}
use bpipe.Filter.Align.Agreed.{Aligned, validate_multi_input_alignment-ok_iff}
use bpipe.Filter.Stop.{IsWokenHead, IsWokenTail, stop_wakes_sink, stop_wakes_input, stop_leaves}
use bpipe.Filter.Contract.Buffered.{Fits, buffered-ok_iff, total_samples-ok_iff}

abbrev open_buffer : BatchBuff
open_buffer = record zeroed { dtype = 1; data_ring = true; running = true; batch_capacity_expo = 6 }

abbrev heap : Heap
heap r = open_buffer

-- A running filter with an input buffer 1 and the sinks 2 and 3.
abbrev filter : Filter
filter = record {
  filt_type = 2;
  running = true;
  has_worker = true;
  worker_err = ok;
  n_batches = 0;
  samples_processed = 0;
  timeout_us = 1000;
  max_supported_sinks = 4;
  n_input_buffers = 1;
  n_sinks = 2;
  data_width = 4;
  input_buffers = 1 ∷ replicate 9 0;
  sinks = 2 ∷ 3 ∷ replicate 8 0;
  input_constraints = [];
  output_behaviors = [];
  output_properties = replicate 8 table_init;
  n_outputs = 1;
  input_properties = replicate 10 table_init;
  output_batch_samples = 0;
  size_detected = false;
}

abbrev state : State
state = record { filter = filter; heap = heap }

abbrev known_table : PropertyTable
known_table = replicate 9 (record { known = true; value = 5_000_000_000 })

-- A sink of two inputs whose periods have to agree; port 0 is connected.
abbrev aligned_filter : Filter
aligned_filter = record filter {
  n_input_buffers = 2;
  input_buffers = 4 ∷ 5 ∷ replicate 8 0;
  input_constraints =
      record {
        property = prop_sample_period_ns;
        op = multi_input_aligned;
        input_mask = all_ports;
        operand = 0;
      }
      ∷ [];
  input_properties = known_table ∷ replicate 9 table_init;
}

abbrev config : Config
config = record {
  dtype = 1;
  batch_capacity_expo = 6;
  ring_capacity_expo = 4;
  overflow_behaviour = 0;
}

sink_connect_cases_example :
    (CanConnect state 2 7
      × ((sink_connect state 2 7).0 ≡ ok)
      × ((sink_connect state 2 7).1.filter.sinks ≡ set filter.sinks 2 7))
    ⊎ ((¬ CanConnect state 2 7)
        × ((sink_connect state 2 7).0 ≢ ok)
        × ((sink_connect state 2 7).1 ≡ state))
sink_connect_cases_example = sink_connect_cases state 2 7

sinks-IsWired_example :
    IsWired (sink_connect state 2 7).1.filter × IsWired (sink_disconnect filter 2).1
sinks-IsWired_example = sinks-IsWired state 2 7 (refl, refl)

disconnect-connect_example :
    ((sink_disconnect (sink_connect state 2 7).1.filter 2).0 ≡ ok)
    × ((sink_disconnect (sink_connect state 2 7).1.filter 2).1.sinks ≡ filter.sinks)
    × ((sink_disconnect (sink_connect state 2 7).1.filter 2).1.n_sinks ≡ 2)
disconnect-connect_example =
    disconnect-connect state 2 7 refl
      (λ e. omega arith, omega arith, omega arith, refl, λ n i. refl)

validate_multi_input_alignment-ok_iff_example :
    (validate_multi_input_alignment aligned_filter 1 known_table ≡ ok)
    ↔ All (Aligned aligned_filter 1 known_table) aligned_filter.input_constraints
validate_multi_input_alignment-ok_iff_example =
    validate_multi_input_alignment-ok_iff aligned_filter 1 known_table

abbrev connected : State
connected = (sink_connect state 2 4).1

connect-ok_iff_example :
    (connect sink_connect state 2 aligned_filter 0
      ≡ some (ok, connected, joined sink_connect state 2 aligned_filter 0))
    ↔ (IsJoint sink_connect state 2 aligned_filter 0 connected
        × (joined sink_connect state 2 aligned_filter 0
            ≡ joined sink_connect state 2 aligned_filter 0))
connect-ok_iff_example =
    connect-ok_iff sink_connect state 2 aligned_filter 0 connected
      (joined sink_connect state 2 aligned_filter 0)

stop_wakes_sink_example :
    ((stop none true state).1.filter.running ≡ false)
    × IsWokenHead ((stop none true state).1.heap 3)
stop_wakes_sink_example =
    stop_wakes_sink true state 1 (λ e. omega arith) refl (omega arith) (λ e. omega arith)

stop_wakes_input_example :
    IsWokenHead ((stop none true state).1.heap 1) × IsWokenTail ((stop none true state).1.heap 1)
stop_wakes_input_example =
    stop_wakes_input true state 0 (λ e. omega arith) refl (omega arith) (λ e. omega arith) refl

-- The filter after its first sink has been disconnected: 3 is still a sink, at index 1.
abbrev gapped : State
gapped = record state { filter = record filter { sinks = 0 ∷ 3 ∷ replicate 8 0; n_sinks = 1 } }

gapped_disconnect : (sink_disconnect filter 0).1 ≡ gapped.filter
unfolding sink_disconnect
gapped_disconnect = refl

stop_leaves_example : (stop none true gapped).1.heap 3 ≡ open_buffer
stop_leaves_example = stop_leaves true gapped 3 (λ e. omega arith) refl first only
  where
    first : (i : ℕ) → i < 1 → sink gapped.filter i ≢ 3
    first zero h e = omega arith
    first (suc i) h e = omega arith

    only : (i : ℕ) → i < 1 → input gapped.filter i ≢ 3
    only zero h e = omega arith
    only (suc i) h e = omega arith

buffered-ok_iff_example :
    (validate_connection
        (some (from_buffer_config config))
        (some (constraints_from_buffer_append filter config true).input_constraints)
        0
      ≡ ok)
    ↔ Fits config (λ e. omega arith) config true
buffered-ok_iff_example =
    buffered-ok_iff config (λ e. omega arith) config 0 (omega arith) (omega arith) filter true refl
      (omega arith)

total_samples-ok_iff_example :
    (validate_connection
        (some known_table)
        (some
          (append_constraint filter prop_max_total_samples eq
            (some 5_000_000_000)
            all_ports).1.input_constraints)
        0
      ≡ ok)
    ↔ (5_000_000_000 < 2 ^ 32)
total_samples-ok_iff_example =
    total_samples-ok_iff filter known_table 5_000_000_000 0 refl (omega arith) refl

abbrev filter_config : FilterConfig
filter_config = record {
  filt_type = 2;
  size = 500;
  n_inputs = 1;
  max_supported_sinks = 4;
  buff_config = record config { batch_capacity_expo = 1; ring_capacity_expo = 1 };
  timeout_us = 1000;
  has_worker = true;
}

abbrev answers : List Answer
answers =
    record {
      pointer = 7;
      granted = record {
        batch_ring = true;
        data_ring = true;
        mutex = true;
        not_empty = true;
        not_full = true;
      };
    }
    ∷ []

abbrev created : State
created = (Lifecycle.init 400 filter_config answers true heap).1

init-created : Lifecycle.init 400 filter_config answers true heap ≡ (ok, created)
unfolding Lifecycle.init Setup.init is_ok
init-created = refl

init-IsMade_example : IsMade created.heap (input created.filter 0)
init-IsMade_example =
    init-IsMade 400 filter_config answers true heap created 0 init-created (omega arith)

-- An input buffer with two unread batches, in a ring of four.
abbrev filled : BatchBuff
filled = record open_buffer {
  head = 1;
  tail = 3;
  ring_capacity_expo = 2;
  batch_ring = replicate 4 zero_batch;
}

abbrev loaded : State
loaded = record { filter = filter; heap = λ r. filled }

filled-IsValid : IsValid filled
filled-IsValid = record {
  slots = refl;
  small = omega arith;
  some_slot = omega arith;
  head_in = omega arith;
  tail_in = omega arith;
}

get_backlog-unread_example : get_backlog default_ops (some loaded) ≡ 2
get_backlog-unread_example = get_backlog-unread loaded ((λ e. filled-IsValid), tt) (omega arith)
