-- ===== src/MapFilter.antt =====
-- bpipe/map.c: the worker that applies a function to the samples of its input and packs the results
-- into full batches.
use bpipe.Base.{
  ℕ, zero, suc, ◌+◌, ◌-◌, ◌*◌, ◌^◌, Bool, true, false, not, ◌&&◌, ◌||◌, Option, none, some, List,
  [], ◌∷◌, ◌++◌, ltb, leb, ◌==◌, if◌then◌else◌, take, drop, min, u64,
}
use bpipe.Err.{Ec, ok, timeout, stopped, invalid_config, is_ok}
use bpipe.Batches.{overwrite}
use bpipe.Ring.{Batch, dtype_ndef, dtype_max}
pub mod Stream
pub mod Fill
pub mod Repack
pub mod Setup
mod Tests

-- What bb_get_tail hands to the worker: a batch, or a code other than `Bp_EC_OK`.
pub data Fetch : Type 0 where
  fetched : Batch → Fetch
  missed : Ec → Fetch

-- The worker's variables and those of `Map_filt_t`; `pending` is what bb_get_tail will give, and
-- `sent` holds the batches that bb_submit has taken, oldest first. `input` and `output` are `none`
-- for NULL.
pub record Work : Type 0 where
  pub input : Option Batch
  pub input_consumed : ℕ
  pub input_t_ns : ℕ
  pub input_period_ns : ℕ
  pub output : Option Batch
  pub samples_processed : ℕ
  pub n_batches : ℕ
  pub pending : List Fetch
  pub sent : List Batch

-- A round of the loop goes on, leaves the loop with the value of `err`, or waits for input.
pub data Round : Type 0 where
  goes_on : Work → Round
  breaks : Ec → Work → Round
  waits : Work → Round

-- The test of the configuration at the start, for the data types of the input and of the sink.
unfoldable pub misconfigured : Bool → Bool → ℕ → ℕ → Bool
misconfigured has_sink has_fcn input_dtype sink_dtype =
    not has_sink
    || not has_fcn
    || not (input_dtype == sink_dtype)
    || input_dtype == dtype_ndef
    || leb dtype_max input_dtype

-- `slot` is what bb_get_head finds, and `accepts` what bb_submit returns, once the batches of the
-- list have been submitted; `map_fcn` is the function of the configuration, on samples; `size` is
-- the capacity of the sink's batches. `input_consumed` and `head` stay within the batches, so
-- their sums and differences do not wrap.
module _ (slot : List Batch → Batch) (accepts : List Batch → Ec) (map_fcn : List ℕ → Ec × List ℕ)
    (size : ℕ) where
  -- The output batch, a new one if there is none.
  unfoldable pub output_of : Work → Batch
  output_of w = elim w.output [ some out ↦ out | none ↦ record (slot w.sent) { head = 0 } ]

  -- The end of a round: a full batch is submitted.
  unfoldable pub submit_full : Batch → Work → Round
  submit_full out w =
      let held = record w { output = some out } in
      if leb size out.head
      then (if is_ok (accepts w.sent)
          then goes_on (record w {
            output = none;
            sent = w.sent ++ out ∷ [];
            n_batches = u64 (w.n_batches + 1);
          })
          else breaks (accepts w.sent) held)
      else goes_on held

  -- The output batch with `n` results; its time is that of the first sample in it.
  unfoldable pub filled : ℕ → List ℕ → Batch → Work → Batch
  filled n results out w =
      let out' = record out {
        samples = overwrite out.head results out.samples;
        head = out.head + n;
      } in
      if out'.head == n
      then record out' {
        t_ns = u64 (w.input_t_ns + w.input_consumed * w.input_period_ns);
        period_ns = w.input_period_ns;
      }
      else out'

  abbrev pub consumed : ℕ → Work → Work
  consumed n w = record w {
    input_consumed = w.input_consumed + n;
    samples_processed = u64 (w.samples_processed + n);
  }

  -- The rest of a round that has an input batch.
  unfoldable pub transform : Batch → Work → Round
  unfolding output_of submit_full filled
  transform b w =
      let out = output_of w in
      let n = min (b.head - w.input_consumed) (size - out.head) in
      let (e, results) = map_fcn (take n (drop w.input_consumed b.samples)) in
      if ltb 0 n
      then (if is_ok e
          then submit_full (filled n results out w) (consumed n w)
          else breaks e (record w { output = some out }))
      else submit_full out w

  abbrev pub loaded : Batch → List Fetch → Work → Work
  loaded b is w = record w {
    input = some b;
    input_consumed = 0;
    input_t_ns = b.t_ns;
    input_period_ns = b.period_ns;
    pending = is;
  }

  -- A round that needs a new input batch; the one before it is deleted.
  unfoldable pub fetch : List Fetch → Work → Round
  unfolding transform
  fetch [] w = waits w
  fetch (fetched b ∷ is) w = transform b (loaded b is w)
  fetch (missed timeout ∷ is) w = goes_on (record w { input = none; pending = is })
  fetch (missed e ∷ is) w = breaks e (record w { input = none; pending = is })

  unfoldable pub round : Work → Round
  unfolding fetch transform
  round w = elim w.input [
    | none ↦ fetch w.pending w
    | some b ↦ if leb b.head w.input_consumed then fetch w.pending w else transform b w
  ]

  -- The loop, which finds `running` set at its first `rounds` tests; `err` is its last value.
  unfoldable pub rounds_of : ℕ → Work → Round
  unfolding round
  rounds_of zero w = breaks ok w
  rounds_of (suc rounds) w = elim (round w) [
    | goes_on w' ↦ rounds_of rounds w'
    | breaks e w' ↦ breaks e w'
    | waits w' ↦ waits w'
  ]

  -- After the loop: the code that is recorded, `ok` for none, and the last batch.
  unfoldable pub leave : Ec → Work → Ec × Work
  leave e w = (
    elim e [ timeout ↦ ok | stopped ↦ ok | e ↦ e ],
    elim w.output [
      | none ↦ w
      | some out ↦
          if ltb 0 out.head && is_ok (accepts w.sent)
          then record w { sent = w.sent ++ out ∷ [] }
          else w
    ],
  )

  pub left_with : Round → Option (Ec × Work)
  left_with (breaks e w) = some (leave e w)
  left_with _ = none

  -- `map_worker`; `none` while it waits for input.
  unfoldable pub map_worker : Bool → Bool → ℕ → ℕ → ℕ → Work → Option (Ec × Work)
  unfolding left_with rounds_of leave misconfigured
  map_worker has_sink has_fcn input_dtype sink_dtype rounds w =
      if misconfigured has_sink has_fcn input_dtype sink_dtype
      then some (invalid_config, w)
      else left_with (rounds_of rounds w)
