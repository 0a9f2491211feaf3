-- ===== src/Generator.antt =====
-- bpipe/signal_generator.h and bpipe/signal_generator.c: the source that sends a waveform. The
-- waveforms are computed in floating point: what they give at a time is an argument.
use bpipe.Base.{
  ℕ, zero, suc, ◌+◌, ◌-◌, ◌*◌, ◌^◌, Bool, true, false, not, ◌&&◌, ◌||◌, List, [], ◌∷◌, ◌++◌, ltb,
  leb, ◌==◌, if◌then◌else◌, length, min, some, all_ports, get_or, u32, u64,
}
use bpipe.Err.{Ec, ok, complete, no_sink, invalid_config, is_ok}
use bpipe.Batches.{overwrite}
use bpipe.Ring.{Batch, Config}
use bpipe.Property.{
  op_set, prop_data_type, prop_sample_period_ns, prop_min_batch_capacity, prop_max_batch_capacity,
  prop_max_total_samples,
}
use bpipe.Filter.{Filter, State, Heap, BufRef, max_sinks}
use bpipe.Filter.Kind.{Platform, kind_config, kind_init, on_filter, with_output}
use bpipe.Filter.Contract.{append_behavior}
pub mod Samples
pub mod Waves
mod Tests

-- `WaveformType_e`, without values out of its range.
pub data Waveform : Type 0 where
  sine square sawtooth triangle : Waveform

-- `SignalGenerator_t` without the base filter and the numbers of the waveform.
pub record Generator : Type 0 where
  pub waveform : Waveform
  pub period_ns : ℕ
  pub next_t_ns : ℕ
  pub samples_generated : ℕ
  pub max_samples : ℕ
  pub allow_aliasing : Bool
  pub start_time_ns : ℕ

-- The worker's state: `running`, the code it has recorded, the counters, and the batches that
-- bb_submit has taken at each sink.
pub record Work : Type 0 where
  pub sg : Generator
  pub running : Bool
  pub worker_err : Ec
  pub samples_processed : ℕ
  pub n_batches : ℕ
  pub sent : ℕ → List Batch

-- A round of the loop goes on, leaves it, or leaves the worker.
pub data Exit : Type 0 where
  goes_on : Work → Exit
  breaks : Work → Exit
  returns : Work → Exit

abbrev pub appended : ℕ → Batch → (ℕ → List Batch) → ℕ → List Batch
appended i b sent j = if j == i then sent j ++ b ∷ [] else sent j

-- `wave` is the sample of a waveform at a time in nanoseconds.
module _ (wave : Waveform → ℕ → ℕ) where
  -- `generate_waveform` from the sample `i` on; the time is computed on 64 bits.
  unfoldable pub generated : Waveform → ℕ → ℕ → ℕ → ℕ → List ℕ
  generated form t_start period_ns i zero = []
  generated form t_start period_ns i (suc n) =
      wave form (u64 (t_start + i * period_ns)) ∷ generated form t_start period_ns (i + 1) n

  -- The number of samples of the next batch.
  abbrev pub next_size : ℕ → Generator → ℕ
  next_size capacity sg =
      if sg.max_samples == 0
      then capacity
      else min capacity (u64 (sg.max_samples + 2 ^ 64 - sg.samples_generated))

  -- The batch made of `slot`; its number stays what it was, and its period has 32 bits.
  abbrev pub next_batch : ℕ → Generator → Batch → Batch
  next_batch n sg slot = record slot {
    t_ns = sg.next_t_ns;
    period_ns = u32 sg.period_ns;
    head = n;
    ec = ok;
    samples = overwrite 0 (generated sg.waveform sg.next_t_ns sg.period_ns 0 n) slot.samples;
  }

  abbrev pub advanced : ℕ → Generator → Generator
  advanced n sg = record sg {
    next_t_ns = u64 (sg.next_t_ns + n * sg.period_ns);
    samples_generated = u64 (sg.samples_generated + n);
  }

  -- `slot i` is what bb_get_head finds at the sink `i` once the batches of the list have been
  -- submitted there; `capacity` is that of the batches of the first sink.
  module _ (slot : ℕ → List Batch → Batch) (capacity : ℕ) where
    -- A round of the loop, with the result of its bb_submit.
    unfoldable pub round : Ec → Work → Exit
    unfolding generated is_ok
    round submitted w =
        let n = next_size capacity w.sg in
        let sg = advanced n w.sg in
        let w' = record w {
          sg = sg;
          sent = appended 0 (next_batch n w.sg (slot 0 (w.sent 0))) w.sent;
          samples_processed = u64 (w.samples_processed + n);
          n_batches = u64 (w.n_batches + 1);
        } in
        if not (is_ok submitted)
        then returns (record w { sg = sg; worker_err = submitted; running = false })
        else if not (sg.max_samples == 0) && leb sg.max_samples sg.samples_generated
        then breaks (record w' { running = false })
        else goes_on w'

    -- `send_completion_to_sinks`, over the sinks from `i` on; `ended` says what bb_submit returns.
    unfoldable pub send_completion : (ℕ → Ec) → ℕ → List BufRef → Work → Work
    unfolding is_ok
    send_completion ended i [] w = w
    send_completion ended i (r ∷ rs) w = send_completion ended (i + 1) rs (
        if r == 0 || not (is_ok (ended i)) then w else record w {
          sent = appended i (record (slot i (w.sent i)) { ec = complete; head = 0 }) w.sent;
        })

    -- The loop, over the results of bb_submit in the rounds that find `running` set.
    unfoldable pub rounds : (ℕ → Ec) → List BufRef → List Ec → Work → Work
    unfolding round send_completion
    rounds ended sinks [] w = send_completion ended 0 sinks w
    rounds ended sinks (e ∷ es) w = elim (round e w) [
      | goes_on w' ↦ rounds ended sinks es w'
      | breaks w' ↦ send_completion ended 0 sinks w'
      | returns w' ↦ w'
    ]

    -- `signal_generator_worker`, with the sinks below `n_sinks`; `slow` is the floating-point test
    -- `frequency_hz <= nyquist_hz`.
    unfoldable pub generator_worker : Bool → (ℕ → Ec) → List BufRef → List Ec → Work → Work
    unfolding rounds
    generator_worker slow ended sinks es w =
        if length sinks == 0 || get_or sinks 0 0 == 0
        then record w { worker_err = no_sink; running = false }
        else if not w.sg.allow_aliasing && not slow
        then record w { worker_err = invalid_config; running = false }
        else rounds ended sinks es
            (record w { sg = record w.sg { next_t_ns = w.sg.start_time_ns } })

-- The contract of the source.
unfoldable pub generator_contract : Config → (period_ns max_samples : ℕ) → Filter → Filter
generator_contract c period_ns max_samples f =
    let capacity = 2 ^ c.batch_capacity_expo in
    let typed = (append_behavior f prop_data_type op_set (some c.dtype) all_ports).1 in
    let timed = (append_behavior typed prop_sample_period_ns op_set (some period_ns) all_ports).1 in
    let lower =
      (append_behavior timed prop_min_batch_capacity op_set (some capacity) all_ports).1 in
    let sized =
      (append_behavior lower prop_max_batch_capacity op_set (some capacity) all_ports).1 in
    with_output (
      if ltb 0 max_samples
      then (append_behavior sized prop_max_total_samples op_set (some max_samples) all_ports).1
      else sized)

-- `signal_generator_init` of a generator that is not NULL; `oscillates` is the floating-point test
-- `frequency_hz > 0`, and `wanted` holds the configured values.
unfoldable pub signal_generator_init :
    Platform → Config → ℕ → Bool → Generator → Generator × State → Ec × Generator × State
unfolding generator_contract
signal_generator_init p c timeout_us oscillates wanted (sg, s) =
    let (e, s') = kind_init p (kind_config p 1 0 max_sinks c timeout_us) s.heap in
    if not oscillates
    then (invalid_config, sg, s)
    else if wanted.period_ns == 0
    then (invalid_config, sg, s)
    else if not (is_ok e)
    then (e, sg, s')
    else (
      ok,
      record wanted { next_t_ns = 0; samples_generated = 0 },
      on_filter (generator_contract c wanted.period_ns wanted.max_samples) s',
    )
