-- ===== src/CsvSource/Setup.antt =====
-- bpipe/csv_source.c: csvsource_init and csvsource_destroy. What the C library answers when the
-- source is opened is an argument.
use bpipe.Base.{
  ℕ, Bool, true, false, not, Option, none, some, List, ltb, ◌==◌, if◌then◌else◌, length, replicate,
  take, all_ports,
}
use bpipe.Err.{Ec, ok, null_pointer, malloc_fail, invalid_config, invalid_data, is_ok}
use bpipe.Ring.{Config}
use bpipe.Property.{op_set, prop_data_type, prop_min_batch_capacity, prop_max_batch_capacity}
use bpipe.Filter.{Filter, State}
use bpipe.Filter.Lifecycle
use bpipe.Filter.Lifecycle.{cleared}
use bpipe.Filter.Kind.{Platform, kind_config, kind_init, on_filter, with_output}
use bpipe.Filter.Contract.{append_behavior}
use bpipe.CsvSource.Text.{Text, Source, Line, max_columns, parse_header}

-- `CsvSource_config_t`, without the name and the threshold, which nothing uses. The delimiter is 0
-- for the default; `data_column_names` ends at the first NULL or at the end of its array.
pub record CsvConfig : Type 0 where
  pub has_path : Bool
  pub delimiter : ℕ
  pub has_header : Bool
  pub ts_column_name : Option Text
  pub data_column_names : List Text
  pub detect_regular_timing : Bool
  pub loop : Bool
  pub skip_invalid : Bool
  pub timeout_us : ℕ

-- Why `fopen` fails.
pub data Opening : Type 0 where
  opened no_entry no_access other_failure : Opening

-- The answers to `strdup`, `fopen` and `malloc`, the header's line and its list of names.
pub record Granted : Type 0 where
  pub path_copied : Bool
  pub opening : Opening
  pub buffered : Bool
  pub header : Option Line
  pub listed : Bool

-- The pointers that csvsource_destroy frees, by whether they are set.
pub record Held : Type 0 where
  pub file : Bool
  pub path : Bool
  pub line_buffer : Bool
  pub names : Bool

abbrev nothing : Held
nothing = record { file = false; path = false; line_buffer = false; names = false }

pub record Csv : Type 0 where
  pub source : Source
  pub held : Held
  pub base : State

-- The source that the configuration describes, before any column is found.
unfoldable pub described : CsvConfig → Text → Source
described c ts_name =
    let names = take max_columns c.data_column_names in
    record {
      delimiter = if c.delimiter == 0 then b',' else c.delimiter;
      has_header = c.has_header;
      ts_column_name = ts_name;
      data_column_names = names;
      ts_column_index = none;
      data_column_indices = replicate (length names) none;
      n_header_columns = 0;
      detect_regular_timing = c.detect_regular_timing;
      loop = c.loop;
      skip_invalid = c.skip_invalid;
    }

-- `filt_deinit` of the base filter comes last; its result is ignored.
unfoldable pub csvsource_destroy : Csv → Csv
csvsource_destroy s = record s { held = nothing; base = (Lifecycle.deinit none s.base).1 }

-- The contract of a source of floats (`DTYPE_FLOAT` is 1), in batches of any size.
unfoldable pub source_contract : Filter → Filter
source_contract f =
    let typed = (append_behavior f prop_data_type op_set (some 1) all_ports).1 in
    let lower = (append_behavior typed prop_min_batch_capacity op_set (some 1) all_ports).1 in
    with_output (append_behavior lower prop_max_batch_capacity op_set (some all_ports) all_ports).1

-- The configuration of the buffers that a source does not have.
abbrev dummy : Config
dummy = record {
  dtype = 1;
  batch_capacity_expo = 6;
  ring_capacity_expo = 8;
  overflow_behaviour = 0;
}

-- The base filter, once the file is open and its header read.
unfoldable pub init_base : Platform → ℕ → Csv → Ec × Csv
unfolding source_contract
init_base p timeout_us s =
    let columns = length s.source.data_column_names in
    let (e, base) = kind_init p (kind_config p 1 0 columns dummy timeout_us) s.base.heap in
    if not (is_ok e)
    then (e, record s { base = base })
    else (ok, record s { base = on_filter source_contract base })

abbrev failure : Opening → Ec
failure other_failure = invalid_data
failure _ = invalid_config

abbrev is_open : Opening → Bool
is_open opened = true
is_open _ = false

-- `csvsource_init` of a source that is not NULL.
unfoldable pub csvsource_init : Platform → Granted → CsvConfig → Csv → Ec × Csv
unfolding described csvsource_destroy init_base
csvsource_init p g c s = elim c.ts_column_name [
  | none ↦ (null_pointer, s)
  | some ts_name ↦
      let source = described c ts_name in
      let blank : Csv = record {
        source = source;
        held = nothing;
        base = record { filter = cleared; heap = s.base.heap };
      } in
      let unopened : Csv = record blank { held = record nothing { path = true } } in
      let ready : Csv = record blank {
        held = record nothing { path = true; file = true; line_buffer = true };
      } in
      let (e, found) = parse_header g.header g.listed source in
      let read : Csv = record ready {
        source = found;
        held = record {
          path = true;
          file = true;
          line_buffer = true;
          names = ltb 0 found.n_header_columns;
        };
      } in
      if not c.has_path
      then (null_pointer, s)
      else if not g.path_copied
      then (malloc_fail, blank)
      else if length source.data_column_names == 0
      then (invalid_config, unopened)
      else if not (is_open g.opening)
      then (failure g.opening, unopened)
      else if not g.buffered
      then (malloc_fail, record ready { held = record ready.held { line_buffer = false } })
      else if not c.has_header
      then init_base p c.timeout_us ready
      else if not (is_ok e)
      then (e, csvsource_destroy read)
      else init_base p c.timeout_us read
]
