-- ===== src/CsvSource.antt =====
-- bpipe/csv_source.h and bpipe/csv_source.c: the filter that reads rows of numbers from a file and
-- hands each data column to a sink of its own. CsvSource/Text is the reading of one line.
use mathlib.Core.List.{map}
use bpipe.Base.{
  ℕ, ◌+◌, ◌-◌, ◌*◌, ◌^◌, Bool, true, false, not, ◌&&◌, Option, none, some, List, [], ◌∷◌, ◌++◌, ltb,
  leb, ◌==◌, if◌then◌else◌, get_or, set, u32, u64,
}
use bpipe.Err.{Ec, ok, complete, stopped, no_sink, invalid_config, invalid_data, malloc_fail, is_ok}
use bpipe.Ring.{Batch, BatchBuff, zero_batch, dtype_ndef, dtype_max}
use bpipe.CsvSource.Text.{Source, Numbers, Line, Parsed, parsed, failed, parse_line, is_cut_off}
pub mod Text
pub mod Rows
pub mod Batched
pub mod Timed
pub mod Taken
pub mod Written
pub mod Loop
pub mod Setup
mod Tests

-- `BatchState` with the worker's counters. `batches` is empty while the pointers in it are NULL.
-- `rewound` says that the next line is the header after a rewind. `sent` holds what is passed to
-- bb_submit, in rounds of one batch for each column.
pub record Work : Type 0 where
  pub batches : List Batch
  pub batch_start_time : ℕ
  pub expected_delta : ℕ
  pub delta_established : Bool
  pub rewound : Bool
  pub current_line : ℕ
  pub samples_processed : ℕ
  pub n_batches : ℕ
  pub worker_err : Ec
  pub sent : List (List Batch)

-- What `fgets` answers: a line, NULL at the end of the file, or NULL after an error.
pub data Answer : Type 0 where
  got : Line → Answer
  end : Answer
  broken : Answer

-- The worker goes on, leaves its loop, or leaves its function with a code that it recorded.
pub data Exit : Type 0 where
  goes_on : Work → Exit
  leaves : Work → Exit
  asserts : Ec → Work → Exit

-- The number of samples in the batch of the first column.
abbrev pub filled : Work → ℕ
filled w = (get_or w.batches 0 zero_batch).head

abbrev pub is_null : List Batch → Bool
is_null [] = true
is_null (b ∷ bs) = false

-- The batch that is submitted for a column.
abbrev pub stamped : Work → Batch → Batch
stamped w b = record b {
  t_ns = w.batch_start_time;
  period_ns = u32 (if w.delta_established then w.expected_delta else 0);
  ec = ok;
}

-- The worker's submission of the current batches, if they have samples.
unfoldable pub submit_batches : Work → Work
submit_batches w =
    if not (is_null w.batches) && ltb 0 (filled w)
    then record w {
      sent = w.sent ++ map (stamped w) w.batches ∷ [];
      samples_processed = u64 (w.samples_processed + filled w);
      n_batches = u64 (w.n_batches + 1);
    }
    else w

-- What bb_get_head finds, as the worker resets it for a batch and for the end mark.
abbrev pub emptied : Batch → Batch
emptied b = record b { head = 0 }

abbrev pub ended : Batch → Batch
ended b = record b { head = 0; ec = complete }

-- `slot col sent` is what bb_get_head finds at the sink of a column once the rounds of the list
-- have been submitted.
module _ (slot : ℕ → List (List Batch) → Batch) where
  -- bb_get_head for each sink from `col` on, reset.
  unfoldable pub heads : (Batch → Batch) → List (List Batch) → ℕ → List BatchBuff → List Batch
  heads reset sent col [] = []
  heads reset sent col (s ∷ ss) = reset (slot col sent) ∷ heads reset sent (col + 1) ss

  unfoldable pub submit_and_get_new_batches : List BatchBuff → Work → Work
  unfolding submit_batches heads
  submit_and_get_new_batches sinks w =
      let w' = submit_batches w in
      record w' { batches = heads emptied w'.sent 0 sinks; delta_established = false }

  -- What follows the loop.
  unfoldable pub finish : List BatchBuff → Work → Work
  unfolding submit_batches heads is_ok
  finish sinks w =
      let w' = submit_batches w in
      record w' {
        sent = w'.sent ++ heads ended w'.sent 0 sinks ∷ [];
        worker_err = if is_ok w'.worker_err then stopped else w'.worker_err;
      }

-- The capacity is that of the first sink; `1 << batch_capacity_expo` is an `int`.
unfoldable pub need_new_batches : Source → ℕ → Work → ℕ → Bool
need_new_batches self batch_capacity w timestamp =
    if is_null w.batches
    then true
    else if not self.detect_regular_timing && ltb 0 (filled w)
    then true
    else if leb batch_capacity (filled w)
    then true
    else if self.detect_regular_timing && ltb 1 (filled w)
    then not (timestamp == u64 (w.batch_start_time + filled w * w.expected_delta))
    else false

-- The times that the first and the second sample of a batch set.
unfoldable pub timed : ℕ → Work → Work
timed timestamp w =
    if filled w == 0
    then record w { batch_start_time = timestamp; delta_established = false }
    else if filled w == 1
    then record w {
      expected_delta = u64 (timestamp + 2 ^ 64 - w.batch_start_time);
      delta_established = true;
    }
    else w

module _ (numbers : Numbers) where
  -- A value written to the sample `idx` of a column, by the type of its sink.
  abbrev pub written : ℕ → BatchBuff → ℕ → Batch → Batch
  written idx s value b = record b {
    head = b.head + 1;
    samples =
        if ltb dtype_ndef s.dtype && ltb s.dtype dtype_max
        then set b.samples idx (numbers.narrowed s.dtype value)
        else b.samples;
  }

  unfoldable pub write_columns : ℕ → List ℕ → ℕ → List BatchBuff → List Batch → List Batch
  write_columns idx values col [] bs = bs
  write_columns idx values col (s ∷ ss) [] = []
  write_columns idx values col (s ∷ ss) (b ∷ bs) =
      written idx s (get_or values col 0) b ∷ write_columns idx values (col + 1) ss bs

  unfoldable pub write_sample_to_batches : List BatchBuff → ℕ → List ℕ → Work → Work
  unfolding write_columns timed
  write_sample_to_batches sinks timestamp values w = record (timed timestamp w) {
    batches = write_columns (filled w) values 0 sinks w.batches;
  }

  module _ (slot : ℕ → List (List Batch) → Batch) (self : Source) (sinks : List BatchBuff) where
    -- A row that parse_line has read.
    unfoldable pub on_row : ℕ → List ℕ → Work → Work
    unfolding need_new_batches submit_and_get_new_batches write_sample_to_batches
    on_row timestamp values w =
        let fresh =
          if need_new_batches self (2 ^ (get_or sinks 0 bpipe.Ring.zeroed).batch_capacity_expo) w
            timestamp
          then submit_and_get_new_batches slot sinks w
          else w in
        write_sample_to_batches sinks timestamp values fresh

    unfoldable pub on_parsed : Parsed → Work → Exit
    unfolding on_row
    on_parsed (parsed timestamp values) w = goes_on (on_row timestamp values w)
    on_parsed (failed e) w = if self.skip_invalid then goes_on w else asserts e w

    unfoldable pub on_line : Line → Work → Exit
    unfolding on_parsed
    on_line line w =
        if is_cut_off line
        then asserts invalid_data w
        else on_parsed (parse_line numbers self line)
            (record w { current_line = u64 (w.current_line + 1) })

    -- A round of the loop; after a rewind, the `fgets` that passes over the header.
    unfoldable pub on_answer : Answer → Bool → Work → Exit
    unfolding on_line
    on_answer answer true w = goes_on (record w { rewound = false })
    on_answer (got line) false w = on_line line w
    on_answer end false w =
        if self.loop then goes_on (record w { rewound = self.has_header }) else leaves w
    on_answer broken false w = asserts invalid_data w

    -- The loop, over the answers that it asks for while it finds `running` set.
    unfoldable pub read_all : List Answer → Work → Work
    unfolding on_answer finish
    read_all [] w = finish slot sinks w
    read_all (a ∷ answers) w = elim (on_answer a w.rewound w) [
      | goes_on w' ↦ read_all answers w'
      | leaves w' ↦ finish slot sinks w'
      | asserts e w' ↦ record w' { worker_err = e }
    ]

-- The sinks, if none of them is NULL.
unfoldable pub connected : List (Option BatchBuff) → Option (List BatchBuff)
connected [] = some []
connected (none ∷ ss) = none
connected (some s ∷ ss) = elim (connected ss) [ none ↦ none | some rest ↦ some (s ∷ rest) ]

unfoldable pub have_capacity : ℕ → List BatchBuff → Bool
have_capacity expo [] = true
have_capacity expo (s ∷ ss) = s.batch_capacity_expo == expo && have_capacity expo ss

abbrev pub same_capacity : List BatchBuff → Bool
same_capacity [] = true
same_capacity (s ∷ ss) = have_capacity s.batch_capacity_expo ss

-- `csvsource_worker` with the sinks of its data columns; `granted` is whether `malloc` has room
-- for the values of a row.
unfoldable pub csvsource_worker :
    Numbers
    → (ℕ → List (List Batch) → Batch)
    → Source
    → List (Option BatchBuff)
    → Bool
    → List Answer
    → Work
    → Work
unfolding connected have_capacity read_all
csvsource_worker numbers slot self refs granted answers w = elim (connected refs) [
  | none ↦ record w { worker_err = no_sink }
  | some sinks ↦
      if not (same_capacity sinks)
      then record w { worker_err = invalid_config }
      else if not granted
      then record w { worker_err = malloc_fail }
      else read_all numbers slot self sinks answers w
]
