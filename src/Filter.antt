-- ===== src/Filter.antt =====
-- bpipe/core.h and bpipe/core.c: the filter that every component extends, its initialisation, its
-- connections and its lifecycle. A `Batch_buff_t *` is a number (NULL is 0) into the heap of
-- buffers. An operation of `FilterOps` that a component has replaced enters as an argument.
pub mod Lifecycle
pub mod Kind
pub mod Align
pub mod Sinks
pub mod Connect
pub mod Join
pub mod Stop
pub mod Ops
pub mod Contract
mod Tests
use bpipe.Base.{
  ℕ, zero, suc, ◌+◌, ◌-◌, ◌%◌, ◌^◌, Bool, true, false, not, ◌&&◌, ◌||◌, Option, none, some, List,
  [], ◌∷◌, ◌++◌, ltb, leb, ◌==◌, if◌then◌else◌, length, get_or, set, replicate,
}
use bpipe.Err.{
  Ec, ok, null_filter, null_buff, invalid_sink_idx, connection_occupied, dtype_mismatch,
  null_pointer, invalid_config, invalid_config_timeout, invalid_config_filter_t,
  invalid_config_filter_size, invalid_config_max_sinks, invalid_config_max_inputs,
  invalid_config_worker, mutex_init_fail, alloc, already_running, thread_create_fail,
  thread_join_fail, filter_stopping, is_ok, property_mismatch,
}
use bpipe.Ring.{BatchBuff, Config, zeroed, occupancy, data_size_lut}
use bpipe.Buffer.Setup
use bpipe.Buffer.Setup.{Alloc}
use bpipe.Property.{
  PropertyTable, Constraint, Behavior, table_init, property, validate_connection, ConstraintOp,
  multi_input_aligned, is_bad_index, Property, prop_data_type, prop_sample_period_ns, low,
}

abbrev pub BufRef : Type 0
BufRef = ℕ

abbrev pub max_sinks : ℕ
max_sinks = 10

abbrev pub max_inputs : ℕ
max_inputs = 10

abbrev pub max_outputs : ℕ
max_outputs = 8

-- `CORE_FILT_T`, which counts on from FILT_T_MAP_STATE = 1.
abbrev pub filt_t_ndef : ℕ
filt_t_ndef = 0

abbrev pub filt_t_batch_matcher : ℕ
filt_t_batch_matcher = 7

abbrev pub filt_t_max : ℕ
filt_t_max = 10

-- The buffers that filters point to.
abbrev pub Heap : Type 0
Heap = BufRef → BatchBuff

abbrev pub write : Heap → BufRef → BatchBuff → Heap
write h r b s = if s == r then b else h s

-- `Filter_t`. Left out: the name, the size, the thread and mutex, `n_sink_buffers` (always 0), and
-- what `worker_err_info` says beside the code. `has_worker` says whether `worker` is set.
-- `output_batch_samples` and `size_detected` are the two fields of `BatchMatcher_t` that the
-- default sink_connect writes for a filter of that type.
pub record Filter : Type 0 where
  pub filt_type : ℕ
  pub running : Bool
  pub has_worker : Bool
  pub worker_err : Ec
  pub n_batches : ℕ
  pub samples_processed : ℕ
  pub timeout_us : ℕ
  pub max_supported_sinks : ℕ
  pub n_input_buffers : ℕ
  pub n_sinks : ℕ
  pub data_width : ℕ
  pub input_buffers : List BufRef
  pub sinks : List BufRef
  pub input_constraints : List Constraint
  pub output_behaviors : List Behavior
  pub output_properties : List PropertyTable
  pub n_outputs : ℕ
  pub input_properties : List PropertyTable
  pub output_batch_samples : ℕ
  pub size_detected : Bool

pub record State : Type 0 where
  pub filter : Filter
  pub heap : Heap

abbrev pub input : Filter → ℕ → BufRef
input f i = get_or f.input_buffers i 0

abbrev pub sink : Filter → ℕ → BufRef
sink f i = get_or f.sinks i 0

-- The tail of default_sink_connect, once the slot is known to be free.
pub attach : State → ℕ → BufRef → Ec × State
attach s port ref =
    let f = s.filter in
    let connected = record f { sinks = set f.sinks port ref; n_sinks = f.n_sinks + 1 } in
    (
      ok,
      record s {
        filter =
            if f.filt_type == filt_t_batch_matcher && port == 0
            then record connected {
              output_batch_samples = 2 ^ (s.heap ref).batch_capacity_expo;
              size_detected = true;
            }
            else connected;
      },
    )

-- `default_sink_connect` of a filter that is not NULL.
unfoldable pub sink_connect : State → ℕ → BufRef → Ec × State
unfolding attach
sink_connect s port ref =
    let f = s.filter in
    if ref == 0
    then (null_buff, s)
    else if leb max_sinks port
    then (invalid_sink_idx, s)
    else if leb f.max_supported_sinks port
    then (invalid_sink_idx, s)
    else if not (sink f port == 0)
    then (connection_occupied, s)
    else if ltb 0 f.n_input_buffers
        && not (input f 0 == 0)
        && not ((s.heap ref).dtype == (s.heap (input f 0)).dtype)
    then (dtype_mismatch, s)
    else attach s port ref

-- `filt_sink_disconnect`
unfoldable pub sink_disconnect : Filter → ℕ → Ec × Filter
sink_disconnect f port =
    if leb max_sinks port
    then (invalid_sink_idx, f)
    else if sink f port == 0
    then (ok, f)
    else (ok, record f { sinks = set f.sinks port 0; n_sinks = f.n_sinks - 1 })

-- What a call of a replaced operation does, if the component has replaced it.
abbrev pub Custom : Type 0
Custom = Option (State → Ec × State)

-- `filt_start`; `created` says whether `pthread_create` succeeds.
unfoldable pub start : Custom → Bool → State → Ec × State
start custom created s =
    if s.filter.filt_type == filt_t_ndef then (invalid_config, s) else elim custom [
      | some op ↦ op s
      | none ↦
          if s.filter.running
          then (already_running, s)
          else if not s.filter.has_worker
          then (ok, record s { filter = record s.filter { running = true } })
          else if created
          then (ok, record s { filter = record s.filter { running = true } })
          else (thread_create_fail, record s { filter = record s.filter { running = false } })
    ]

-- The three loops of `filt_stop`: over the first `n` input buffers that hold data (`force` is
-- bb_force_return_head or bb_force_return_tail), and over the first `n` sinks.
force_inputs : (BatchBuff → BatchBuff) → ℕ → List BufRef → Heap → Heap
force_inputs force zero rs h = h
force_inputs force (suc n) [] h = h
force_inputs force (suc n) (r ∷ rs) h =
    force_inputs force n rs (if not (r == 0) && (h r).data_ring then write h r (force (h r)) else h)

pub force_sinks : ℕ → List BufRef → Heap → Heap
force_sinks zero rs h = h
force_sinks (suc n) [] h = h
force_sinks (suc n) (r ∷ rs) h =
    force_sinks n rs (if r == 0 then h else write h r (Setup.forced_head filter_stopping (h r)))

pub wake_all : Filter → Heap → Heap
unfolding force_inputs
wake_all f h = force_inputs (Setup.forced_tail filter_stopping) f.n_input_buffers f.input_buffers (
    force_sinks f.n_sinks f.sinks
      (force_inputs (Setup.forced_head filter_stopping) f.n_input_buffers f.input_buffers h))

-- `filt_stop`; `joined` says whether `pthread_join` succeeds.
unfoldable pub stop : Custom → Bool → State → Ec × State
unfolding wake_all force_sinks
stop custom joined s =
    if s.filter.filt_type == filt_t_ndef then (invalid_config, s) else elim custom [
      | some op ↦ op s
      | none ↦ if not s.filter.running then (ok, s) else (
        if joined then ok else thread_join_fail,
        record { filter = record s.filter { running = false }; heap = wake_all s.filter s.heap },
      )
    ]
