-- ===== src/CsvSource/Loop.antt =====
-- The loop of the worker of a CSV source (bpipe/csv_source.c): what a row, a line and all lines do
-- to what a column has been given.
use bpipe.Base.{ℕ, ◌^◌, ◌<◌, false, Option, some, List, [], ◌∷◌, length, get_or}
use bpipe.Err.{ok}
use bpipe.Ring.{BatchBuff, zeroed}
use bpipe.CsvSource.Text.{Numbers}
use bpipe.CsvSource.{Work}

module _ (numbers : Numbers) (sinks : List BatchBuff) (c : ℕ) (inside : c < length sinks) where
  abbrev dtype : ℕ
  dtype = (get_or sinks c zeroed).dtype

  abbrev capacity : ℕ
  capacity = 2 ^ (get_or sinks 0 zeroed).batch_capacity_expo

-- What the loop starts with.
abbrev pub start : Work
start = record {
  batches = [];
  batch_start_time = 0;
  expected_delta = 0;
  delta_established = false;
  rewound = false;
  current_line = 0;
  samples_processed = 0;
  n_batches = 0;
  worker_err = ok;
  sent = [];
}

abbrev pub present : List BatchBuff → List (Option BatchBuff)
present [] = []
present (s ∷ ss) = some s ∷ present ss
