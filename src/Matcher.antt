-- ===== src/Matcher.antt =====
-- bpipe/batch_matcher.c: the worker that cuts its input into batches of the size of the sink's,
-- each starting on a multiple of the batch period.
use bpipe.Base.{
  ℕ, zero, suc, ◌+◌, ◌-◌, ◌*◌, ◌/◌, ◌%◌, ◌^◌, Bool, true, false, not, ◌&&◌, Option, none, some,
  List, [], ◌∷◌, ◌++◌, ltb, leb, ◌==◌, if◌then◌else◌, length, take, drop, min, u64,
}
use bpipe.Err.{
  Ec, ok, no_sink, timeout, complete, stopped, invalid_config, phase_error, malloc_fail, is_ok,
}
use bpipe.Batches.{overwrite}
use bpipe.Ring.{Batch}
pub mod Cut
pub mod Stream
pub mod Boundary
pub mod Flush
pub mod Whole
pub mod Stuck
pub mod Control
pub mod Setup
mod Tests

-- `BatchMatcher_t`, less what the base filter keeps. `accumulator` says whether the pointer is set;
-- the worker allocates it and never writes through it.
pub record Matcher : Type 0 where
  pub output_batch_samples : ℕ
  pub size_detected : Bool
  pub period_ns : ℕ
  pub batch_period_ns : ℕ
  pub next_boundary_ns : ℕ
  pub accumulator : Bool
  pub accumulator_capacity : ℕ
  pub accumulated : ℕ
  pub data_width : ℕ
  pub samples_processed : ℕ
  pub batches_matched : ℕ
  pub samples_skipped : ℕ

-- The worker's variables. `output` is what `output_batch` points to, `none` for NULL. The worker
-- ignores what bb_submit returns; `sent` holds the batches it passed to it, oldest first.
pub record Work : Type 0 where
  pub first_batch : Bool
  pub bm : Matcher
  pub output : Option Batch
  pub sent : List Batch
  pub input_idx : ℕ
  pub current_timestamp : ℕ

abbrev pub skip : Work → Work
skip w = record w {
  bm = record w.bm { samples_skipped = u64 (w.bm.samples_skipped + 1) };
  input_idx = u64 (w.input_idx + 1);
  current_timestamp = u64 (w.current_timestamp + w.bm.period_ns);
}

-- The batch that the worker sets up from `slot`, the head batch of the sink.
abbrev pub opened : Matcher → Batch → Batch
opened bm slot = record slot {
  t_ns = bm.next_boundary_ns;
  period_ns = bm.period_ns;
  head = 0;
  ec = ok;
}

-- The samples to copy next: what is left of the input, what fits in the output, and what lies
-- before the end of the output batch's time.
abbrev pub amount : Matcher → ℕ → ℕ → ℕ
amount bm remaining current =
    let n = min remaining (u64 (bm.output_batch_samples + 2 ^ 64 - bm.accumulated)) in
    let boundary = u64 (bm.next_boundary_ns + bm.batch_period_ns) in
    if ltb boundary (u64 (current + n * bm.period_ns))
    then u64 (boundary + 2 ^ 64 - current) / bm.period_ns
    else n

-- The output batch and the matcher after a copy of `n` samples.
abbrev pub filled : Batch → ℕ → Batch → Matcher → Work → Batch
filled input n out bm w = record out {
  samples = overwrite bm.accumulated (take n (drop w.input_idx input.samples)) out.samples;
}

abbrev pub counted : ℕ → Matcher → Matcher
counted n bm = record bm {
  accumulated = u64 (bm.accumulated + n);
  samples_processed = u64 (bm.samples_processed + n);
}

-- The worker goes on with the output batch, or has submitted it.
abbrev pub keep : ℕ → Batch → Matcher → Work → Work
keep n out bm w = record {
  first_batch = w.first_batch;
  bm = bm;
  output = some out;
  sent = w.sent;
  input_idx = u64 (w.input_idx + n);
  current_timestamp = u64 (w.current_timestamp + n * bm.period_ns);
}

abbrev pub send : ℕ → Batch → Matcher → Work → Work
send n out bm w = record {
  first_batch = w.first_batch;
  bm = record bm {
    batches_matched = u64 (bm.batches_matched + 1);
    next_boundary_ns = u64 (bm.next_boundary_ns + bm.batch_period_ns);
  };
  output = none;
  sent = w.sent ++ record out { head = bm.accumulated; batch_id = bm.batches_matched } ∷ [];
  input_idx = u64 (w.input_idx + n);
  current_timestamp = u64 (w.current_timestamp + n * bm.period_ns);
}

-- The copy of `n` samples, and the submission of the batch if it is full then.
pub copy : Batch → ℕ → Batch → Matcher → Work → Work
copy input n out bm w =
    let out' = filled input n out bm w in
    let bm' = counted n bm in
    if bm'.accumulated == bm'.output_batch_samples then send n out' bm' w else keep n out' bm' w

-- `slot` is what bb_get_head finds once the batches of the list have been submitted.
module _ (slot : List Batch → Batch) where
  -- A round of the loop over the samples of `input`.
  unfoldable pub round : Batch → Work → Work
  unfolding copy
  round input w = if ltb w.current_timestamp w.bm.next_boundary_ns then skip w else elim w.output [
    | none ↦
        let bm = record w.bm { accumulated = 0 } in
        copy input (amount bm (input.head - w.input_idx) w.current_timestamp)
          (opened bm (slot w.sent)) bm w
    | some out ↦ copy input (amount w.bm (input.head - w.input_idx) w.current_timestamp) out w.bm w
  ]

  -- The loop, which finds `f->running` set at its first `rounds` tests.
  unfoldable pub process : ℕ → Batch → Work → Work
  process zero input w = w
  process (suc rounds) input w =
      let rest = process rounds input (round input w) in
      if ltb w.input_idx input.head then rest else w

-- The search for the batch boundary at or before the first sample, `none` out of fuel.
unfoldable pub find_boundary : ℕ → ℕ → ℕ → ℕ → Option ℕ
find_boundary zero period t_ns boundary = none
find_boundary (suc fuel) period t_ns boundary =
    let rest = find_boundary fuel period t_ns (u64 (boundary + period)) in
    if leb (u64 (boundary + period)) t_ns then rest else some boundary

-- What a step of the worker comes to: it goes on, it has left its function with the code it
-- recorded (`ok` if none), or the search for a boundary does not end.
pub data Exit (A : Type 0) : Type 0 where
  goes_on : A → Exit A
  left : Ec → A → Exit A
  hangs : Exit A

abbrev pub with_period : Batch → Matcher → Matcher
with_period input bm = record bm {
  period_ns = input.period_ns;
  batch_period_ns = u64 (input.period_ns * bm.output_batch_samples);
}

abbrev pub with_boundary : ℕ → Bool → Batch → Matcher → Matcher
with_boundary boundary allocated input bm = record (with_period input bm) {
  next_boundary_ns = boundary;
  accumulator_capacity = u64 (bm.output_batch_samples * bm.data_width);
  accumulator = allocated;
}

-- What the worker does at its first batch, before its samples; `allocated` says whether `malloc`
-- succeeds.
unfoldable pub first : ℕ → Bool → Batch → Matcher → Exit Matcher
unfolding find_boundary
first fuel allocated input bm =
    if input.period_ns == 0
    then left invalid_config (record bm { period_ns = 0 })
    else if not (input.t_ns % input.period_ns == 0)
    then left phase_error (record bm { period_ns = input.period_ns })
    else elim (find_boundary fuel (with_period input bm).batch_period_ns input.t_ns 0) [
      | none ↦ hangs
      | some boundary ↦
          let bm' = with_boundary boundary allocated input bm in
          if allocated then goes_on bm' else left malloc_fail bm'
    ]

-- What bb_get_tail hands to the worker: a batch, for which the loop over the samples finds
-- `f->running` set at its first tests, `rounds` of them, or a code other than `Bp_EC_OK`.
pub data Fetch : Type 0 where
  fetched : (rounds : ℕ) → Batch → Fetch
  missed : Ec → Fetch

abbrev pub cut_short : Batch → Matcher → Batch
cut_short out bm = record out { head = bm.accumulated; batch_id = bm.batches_matched }

-- The samples that wait for the rest of their batch are sent as they are.
unfoldable pub flush : Work → Work
flush w = elim w.output [
  | none ↦ w
  | some out ↦
      if ltb 0 w.bm.accumulated
      then record w {
        bm = record w.bm { batches_matched = u64 (w.bm.batches_matched + 1) };
        output = none;
        sent = w.sent ++ cut_short out w.bm ∷ [];
      }
      else w
]

-- The worker before its first fetch.
abbrev pub fresh : Matcher → Work
fresh bm = record {
  first_batch = true;
  bm = bm;
  output = none;
  sent = [];
  input_idx = 0;
  current_timestamp = 0;
}

abbrev pub released : Work → Work
released w = record w { bm = record w.bm { accumulator = false } }

module _ (slot : List Batch → Batch) where
  -- The end of the stream: the rest is flushed, and a batch of no samples says so to the sink.
  unfoldable pub finish : Work → Work
  unfolding flush
  finish w =
      let w' = flush w in
      record w' { sent = w'.sent ++ record (slot w'.sent) { head = 0; ec = complete } ∷ [] }

  pub on_samples : ℕ → Batch → Work → Exit Work
  unfolding process
  on_samples rounds input w =
      goes_on
        (process slot rounds input (record w { input_idx = 0; current_timestamp = input.t_ns }))

  -- What the worker does with a batch; `fuel` is for the search at the first one.
  on_batch : ℕ → Bool → ℕ → Batch → Work → Exit Work
  unfolding on_samples first
  on_batch fuel allocated rounds input w =
      if w.first_batch
      then elim (first fuel allocated input w.bm) [
        | goes_on bm ↦ on_samples rounds input (record w { first_batch = false; bm = bm })
        | left e bm ↦ left e (record w { bm = bm })
        | hangs ↦ hangs
      ]
      else on_samples rounds input w

  -- What it does when bb_get_tail fails. After the loop the accumulator is freed.
  on_miss : Ec → Work → Exit Work
  unfolding finish
  on_miss timeout w = goes_on w
  on_miss complete w = left ok (released (finish w))
  on_miss stopped w = left ok (released (finish w))
  on_miss e w = left e w

  unfoldable pub on_fetch : ℕ → Bool → Fetch → Work → Exit Work
  unfolding on_batch on_miss
  on_fetch fuel allocated (fetched rounds input) w = on_batch fuel allocated rounds input w
  on_fetch fuel allocated (missed e) w = on_miss e w

  -- The loop of the worker over what it fetches, as long as that goes.
  unfoldable pub fetches : ℕ → Bool → List Fetch → Work → Exit Work
  unfolding on_fetch
  fetches fuel allocated [] w = goes_on w
  fetches fuel allocated (i ∷ is) w = elim (on_fetch fuel allocated i w) [
    | goes_on w' ↦ fetches fuel allocated is w'
    | left e w' ↦ left e w'
    | hangs ↦ hangs
  ]

  -- `batch_matcher_worker`, from the matcher that it is started with.
  unfoldable pub worker : ℕ → Bool → List Fetch → Matcher → Exit Work
  unfolding fetches
  worker fuel allocated is bm =
      if bm.size_detected then fetches fuel allocated is (fresh bm) else left no_sink (fresh bm)
