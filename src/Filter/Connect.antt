-- ===== src/Filter/Connect.antt =====
-- filt_connect of bpipe/core.c: connecting two filters.
use bpipe.Base.{ℕ, not, Option, none, some, ltb, leb, if◌then◌else◌, length, get_or, set}
use bpipe.Err.{Ec, ok, is_ok, invalid_sink_idx}
use bpipe.Property.{table_init, validate_connection}
use bpipe.Filter.{BufRef, Filter, State, max_outputs, input}
use bpipe.Filter.Align.{validate_multi_input_alignment}

-- `filt_connect` of two different filters that are not NULL; `op` is the source's `sink_connect`.
-- There is no answer where the code reads past `output_properties`.
unfoldable pub connect :
    (State → ℕ → BufRef → Ec × State) → State → ℕ → Filter → ℕ → Option (Ec × State × Filter)
connect op s out f port =
    let t = get_or s.filter.output_properties out table_init in
    let contract =
      if ltb 0 (length f.input_constraints)
      then validate_connection (some t) (some f.input_constraints) port
      else ok in
    let aligned = validate_multi_input_alignment f port t in
    let joined = op s out (input f port) in
    if leb f.n_input_buffers port
    then some (invalid_sink_idx, s, f)
    else if leb max_outputs out
    then none
    else if not (is_ok contract)
    then some (contract, s, f)
    else if not (is_ok aligned)
    then some (aligned, s, f)
    else some (joined.0, joined.1, record f { input_properties = set f.input_properties port t })
