-- ===== src/Passthrough.antt =====
-- bpipe/passthrough.h and bpipe/passthrough.c: the filter that copies its input to its output; and
-- matched_passthroug of bpipe/core.c, an earlier worker of the same kind.
use bpipe.Base.{
  ℕ, ◌+◌, ◌^◌, Bool, true, false, not, ◌&&◌, ◌||◌, List, [], ◌∷◌, ◌++◌, ltb, leb, ◌==◌,
  if◌then◌else◌, take, u64,
}
use bpipe.Err.{
  Ec, ok, complete, timeout, stopped, filter_stopping, invalid_config, no_sink, null_buff,
  invalid_sink_idx, capacity_mismatch, already_running, invalid_dtype, dtype_mismatch,
  dtype_invalid, invalid_config_max_inputs, is_ok,
}
use bpipe.Batches.{overwrite}
use bpipe.Ring.{Batch, Config, dtype_ndef, dtype_max}
use bpipe.Filter.{Filter, State, Heap, input, sink, filt_t_ndef}
use bpipe.Filter.Kind.{Platform, kind_config, kind_init, on_filter}
use bpipe.Filter.Contract.{constraints_from_buffer_append, set_output_behavior_for_buffer_filter}
pub mod Copies
mod Tests

-- What bb_get_tail hands to a worker: a batch, with the result of the bb_submit of what becomes of
-- it, or a code other than `Bp_EC_OK`.
pub data Fetch : Type 0 where
  fetched : Batch → (submitted : Ec) → Fetch
  missed : Ec → Fetch

-- A worker's `err`, the code that it has recorded in the filter, the counters, and the batches that
-- bb_submit has taken.
pub record Work : Type 0 where
  pub err : Ec
  pub worker_err : Ec
  pub samples_processed : ℕ
  pub n_batches : ℕ
  pub sent : List Batch

-- The worker goes on, leaves its loop, or leaves its function.
pub data Exit : Type 0 where
  goes_on : Work → Exit
  breaks : Work → Exit
  returns : Work → Exit

-- The end of the worker that `BP_WORKER_ASSERT` makes.
abbrev pub asserted : Ec → Work → Exit
asserted e w = returns (record w { worker_err = e })

-- The output batch made of `slot`.
abbrev pub copied : Batch → Batch → Batch
copied b slot = record {
  head = b.head;
  t_ns = b.t_ns;
  period_ns = b.period_ns;
  batch_id = b.batch_id;
  ec = b.ec;
  samples = overwrite 0 (take b.head b.samples) slot.samples;
}

-- A code with which the worker ends on purpose.
pub is_clean : Ec → Bool
is_clean ok = true
is_clean stopped = true
is_clean filter_stopping = true
is_clean _ = false

-- `slot` is what bb_get_head finds once the batches of the list have been submitted.
module _ (slot : List Batch → Batch) where
  pub submitted_as : Batch → Ec → Work → Exit
  unfolding is_ok
  submitted_as b filter_stopping w = breaks (record w { err = filter_stopping })
  submitted_as b e w =
      if is_ok e
      then goes_on (record w {
        err = ok;
        sent = w.sent ++ copied b (slot w.sent) ∷ [];
        samples_processed = u64 (w.samples_processed + b.head);
        n_batches = u64 (w.n_batches + 1);
      })
      else asserted e w

  -- An end mark is passed on, whatever comes of it.
  end_passed : Ec → Work → Work
  unfolding is_ok
  end_passed e w = record w {
    err = ok;
    sent =
        if is_ok e then w.sent ++ record (slot w.sent) { ec = complete; head = 0 } ∷ [] else w.sent;
  }

  pub on_batch : Ec → Batch → Ec → Work → Exit
  unfolding submitted_as end_passed
  on_batch complete b submitted w = breaks (end_passed submitted w)
  on_batch ok b submitted w = submitted_as b submitted w
  on_batch e b submitted w = asserted e w

  pub on_miss : Ec → Work → Exit
  on_miss timeout w = goes_on (record w { err = timeout })
  on_miss e w = breaks (record w { err = e })

  unfoldable pub on_fetch : Fetch → Work → Exit
  unfolding on_batch on_miss
  on_fetch (fetched b submitted) w = on_batch b.ec b submitted w
  on_fetch (missed e) w = on_miss e w

  -- What follows the loop.
  pub left : Work → Work
  unfolding is_clean
  left w = if is_clean w.err then w else record w { worker_err = w.err }

  -- The loop, over what it fetches while it finds `running` set.
  pub fetches : List Fetch → Work → Work
  unfolding on_fetch left
  fetches [] w = left w
  fetches (i ∷ is) w = elim (on_fetch i w) [
    | goes_on w' ↦ fetches is w'
    | breaks w' ↦ left w'
    | returns w' ↦ w'
  ]

  -- `passthrough_worker`
  unfoldable pub passthrough_worker : Filter → List Fetch → Work → Work
  unfolding fetches
  passthrough_worker f is w =
      if not (f.n_input_buffers == 1)
      then record w { worker_err = invalid_config }
      else if sink f 0 == 0
      then record w { worker_err = no_sink }
      else fetches is w

-- `passthrough_validate_connection`
unfoldable pub passthrough_validate_connection : State → ℕ → Ec
passthrough_validate_connection s idx =
    let f = s.filter in
    if leb f.max_supported_sinks idx
    then invalid_sink_idx
    else if sink f idx == 0
    then null_buff
    else if ltb 0 f.n_input_buffers
        && not (input f 0 == 0)
        && not (
            2 ^ (s.heap (input f 0)).batch_capacity_expo
            == 2 ^ (s.heap (sink f idx)).batch_capacity_expo)
    then capacity_mismatch
    else ok

abbrev pub filt_t_matched_passthrough : ℕ
filt_t_matched_passthrough = 2

-- `passthrough_init` of pointers that are not NULL; the state is that of the filter before.
unfoldable pub passthrough_init : Platform → Config → ℕ → State → Ec × State
passthrough_init p c timeout_us s =
    let (e, s') = kind_init p (kind_config p filt_t_matched_passthrough 1 1 c timeout_us) s.heap in
    let contract : Filter → Filter = λ f.
      set_output_behavior_for_buffer_filter (constraints_from_buffer_append f c true) c false
        false in
    if not (s.filter.filt_type == filt_t_ndef)
    then (already_running, s)
    else if c.dtype == dtype_ndef || leb dtype_max c.dtype
    then (invalid_dtype, s)
    else if not (is_ok e)
    then (e, s')
    else (ok, on_filter contract s')

-- The output batch of `matched_passthroug`: all `size` samples are copied, the code is not.
abbrev pub matched : ℕ → Batch → Batch → Batch
matched size b slot = record slot {
  head = b.head;
  t_ns = b.t_ns;
  period_ns = b.period_ns;
  batch_id = b.batch_id;
  samples = overwrite 0 (take size b.samples) slot.samples;
}

module _ (slot : List Batch → Batch) (size : ℕ) where
  -- The end mark keeps the number of samples that its slot had.
  pub matched_end : Ec → Work → Work
  unfolding is_ok
  matched_end submitted w =
      if is_ok submitted
      then record w {
        worker_err = complete;
        sent = w.sent ++ record (slot w.sent) { ec = complete } ∷ [];
      }
      else record w { worker_err = submitted }

  pub matched_batch : Ec → Batch → Ec → Work → Exit
  unfolding matched_end is_ok
  matched_batch complete b submitted w = returns (matched_end submitted w)
  matched_batch e b submitted w =
      if is_ok submitted
      then goes_on (record w {
        sent = w.sent ++ matched size b (slot w.sent) ∷ [];
        n_batches = u64 (w.n_batches + 1);
      })
      else asserted submitted w

  pub matched_fetch : Fetch → Work → Exit
  unfolding matched_batch
  matched_fetch (fetched b submitted) w = matched_batch b.ec b submitted w
  matched_fetch (missed e) w = asserted e w

  pub matched_fetches : List Fetch → Work → Work
  unfolding matched_fetch
  matched_fetches [] w = w
  matched_fetches (i ∷ is) w = elim (matched_fetch i w) [
    | goes_on w' ↦ matched_fetches is w'
    | breaks w' ↦ w'
    | returns w' ↦ w'
  ]

-- `matched_passthroug`; bb_del_tail of an input buffer that holds a batch succeeds.
unfoldable pub matched_passthroug : (List Batch → Batch) → State → List Fetch → Work → Work
unfolding matched_fetches
matched_passthroug slot s is w =
    let f = s.filter in
    let from = s.heap (input f 0) in
    let to = s.heap (sink f 0) in
    if not (f.n_input_buffers == 1)
    then record w { worker_err = invalid_config_max_inputs }
    else if sink f 0 == 0
    then record w { worker_err = null_buff }
    else if not (to.dtype == from.dtype)
    then record w { worker_err = dtype_mismatch }
    else if not (to.batch_capacity_expo == from.batch_capacity_expo)
    then record w { worker_err = capacity_mismatch }
    else if not (ltb to.dtype dtype_max)
    then record w { worker_err = dtype_invalid }
    else matched_fetches slot (2 ^ to.batch_capacity_expo) is w
