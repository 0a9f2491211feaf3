-- ===== src/Aligner.antt =====
-- bpipe/sample_aligner.c: the filter that moves the timestamps of its input onto multiples of the
-- sample period. It passes the samples on as they are.
use bpipe.Base.{
  ℕ, ◌+◌, ◌-◌, ◌*◌, ◌/◌, ◌%◌, ◌^◌, Bool, true, false, not, ◌&&◌, ◌||◌, List, [], ◌∷◌, ◌++◌, ltb,
  ◌==◌, if◌then◌else◌, take, min, u64,
}
use bpipe.Err.{
  Ec, ok, complete, timeout, stopped, invalid_data, no_sink, type_error, alloc, thread_create_fail,
  is_ok,
}
use bpipe.Batches.{overwrite}
use bpipe.Ring.{Batch}
use bpipe.Filter.{Filter, State, sink, input}
pub mod Stamps
pub mod Setup
mod Tests

-- `AlignmentStrategy_e`
pub data Alignment : Type 0 where
  align_nearest align_backward align_forward : Alignment

-- `InterpolationMethod_e`
pub data Interpolation : Type 0 where
  interp_nearest interp_linear interp_cubic interp_sinc : Interpolation

-- `SampleAligner_t`, less what the base filter keeps and what nothing reads. `history_buffer` says
-- whether the pointer is set.
pub record Aligner : Type 0 where
  pub method : Interpolation
  pub alignment : Alignment
  pub sinc_taps : ℕ
  pub period_ns : ℕ
  pub next_output_ns : ℕ
  pub initialized : Bool
  pub history_buffer : Bool
  pub history_size : ℕ
  pub samples_interpolated : ℕ
  pub max_phase_correction_ns : ℕ

dtype_supports_interpolation : ℕ → Bool
dtype_supports_interpolation dtype = dtype == 1 || dtype == 2 || dtype == 3

history_size_for : Interpolation → ℕ
history_size_for interp_cubic = 4
history_size_for interp_sinc = 64
history_size_for _ = 2

is_sinc : Interpolation → Bool
is_sinc interp_sinc = true
is_sinc _ = false

abbrev failed : Ec → State → State
failed e s = record s { filter = record s.filter { worker_err = e } }

-- `sample_aligner_start`; `allocated` and `created` are what `calloc` and `pthread_create` answer.
unfoldable pub aligner_start : Bool → Bool → Aligner → State → Ec × Aligner × State
unfolding dtype_supports_interpolation history_size_for is_sinc
aligner_start allocated created sa s =
    let size =
      if is_sinc sa.method && ltb 0 sa.sinc_taps
      then sa.sinc_taps
      else history_size_for sa.method in
    let sa' = record sa { history_size = size; history_buffer = allocated } in
    if sink s.filter 0 == 0
    then (no_sink, sa, failed no_sink s)
    else if not (dtype_supports_interpolation (s.heap (input s.filter 0)).dtype)
    then (type_error, sa, failed type_error s)
    else if not allocated
    then (alloc, sa', failed alloc s)
    else if created
    then (ok, sa', record s { filter = record s.filter { running = true } })
    else (
      thread_create_fail,
      record sa' { history_buffer = false },
      record s { filter = record s.filter { running = false } },
    )

-- The time of the first output, from that of the first input and the period.
unfoldable pub first_output : Alignment → ℕ → ℕ → ℕ
first_output align_nearest t_ns period =
    let phase_offset = t_ns % period in
    if ltb phase_offset (period / 2)
    then t_ns - phase_offset
    else u64 (t_ns + (period - phase_offset))
first_output align_backward t_ns period = t_ns - t_ns % period
first_output align_forward t_ns period = u64 (t_ns + (period - t_ns % period))

-- What the worker does at its first batch.
unfoldable pub initialize : Batch → Aligner → Aligner
unfolding first_output
initialize b sa =
    let phase_offset = b.t_ns % b.period_ns in
    record sa {
      period_ns = b.period_ns;
      next_output_ns = first_output sa.alignment b.t_ns b.period_ns;
      initialized = true;
      max_phase_correction_ns =
          if ltb sa.max_phase_correction_ns phase_offset
          then phase_offset
          else sa.max_phase_correction_ns;
    }

-- The worker's state: the filter's counters, and `sent`, the batches that bb_submit has taken.
pub record Work : Type 0 where
  pub sa : Aligner
  pub samples_processed : ℕ
  pub n_batches : ℕ
  pub sent : List Batch

-- What bb_get_tail hands to the worker: a batch, with the result of the bb_submit of what becomes
-- of it, or a code other than `Bp_EC_OK`.
pub data Fetch : Type 0 where
  fetched : Batch → (submitted : Ec) → Fetch
  missed : Ec → Fetch

-- The worker goes on, or has left its function with the code that it recorded, `ok` for none.
pub data Exit : Type 0 where
  goes_on : Work → Exit
  left : Ec → Work → Exit

-- The output batch, made of `slot`, the head batch of the sink.
abbrev pub restamped : ℕ → Aligner → Batch → Batch → Batch
restamped to_copy sa b slot = record {
  head = to_copy;
  t_ns = sa.next_output_ns;
  period_ns = sa.period_ns;
  batch_id = b.batch_id;
  ec = ok;
  samples = overwrite 0 (take to_copy b.samples) slot.samples;
}

abbrev pub advanced : ℕ → Aligner → Aligner
advanced to_copy sa = record sa {
  next_output_ns = u64 (sa.next_output_ns + to_copy * sa.period_ns);
  samples_interpolated = u64 (sa.samples_interpolated + to_copy);
}

-- `slot` is what bb_get_head finds once the batches of the list have been submitted; `capacity` is
-- that of the sink's batches.
module _ (slot : List Batch → Batch) (capacity : ℕ) where
  -- An input batch that is no end mark and has passed the checks.
  unfoldable pub pass_on : Batch → Ec → Work → Exit
  unfolding initialize is_ok
  pass_on b submitted w =
      let sa = if w.sa.initialized then w.sa else initialize b w.sa in
      let to_copy = min b.head capacity in
      let w' = record w {
        sa = advanced to_copy sa;
        samples_processed = u64 (w.samples_processed + to_copy);
        n_batches = u64 (w.n_batches + 1);
      } in
      if is_ok submitted
      then goes_on (record w' { sent = w.sent ++ restamped to_copy sa b (slot w.sent) ∷ [] })
      else left submitted w'

  -- An end mark is passed on, and then the worker asserts that its code is `Bp_EC_OK`.
  pass_end : Ec → Work → Exit
  pass_end submitted w = left complete (
      if is_ok submitted
      then record w { sent = w.sent ++ record (slot w.sent) { ec = complete; head = 0 } ∷ [] }
      else w)

  pub on_batch : Ec → Batch → Ec → Work → Exit
  unfolding pass_on pass_end
  on_batch complete b submitted w = pass_end submitted w
  on_batch ok b submitted w =
      if ltb 0 b.period_ns then pass_on b submitted w else left invalid_data w
  on_batch e b submitted w = left e w

  on_miss : Ec → Work → Exit
  on_miss timeout w = goes_on w
  on_miss stopped w = left ok w
  on_miss e w = left e w

  unfoldable pub on_fetch : Fetch → Work → Exit
  unfolding on_batch on_miss
  on_fetch (fetched b submitted) w = on_batch b.ec b submitted w
  on_fetch (missed e) w = on_miss e w

  -- `sample_aligner_worker`
  unfoldable pub aligner_worker : List Fetch → Work → Exit
  unfolding on_fetch
  aligner_worker [] w = goes_on w
  aligner_worker (i ∷ is) w = elim (on_fetch i w) [
    | goes_on w' ↦ aligner_worker is w'
    | left e w' ↦ left e w'
  ]
