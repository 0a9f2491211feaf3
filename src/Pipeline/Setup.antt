-- ===== src/Pipeline/Setup.antt =====
-- bpipe/pipeline.c: pipeline_init.
use bpipe.Base.{
  ℕ, Bool, true, false, not, ◌&&◌, List, [], ◌∷◌, none, length, ◌==◌, if◌then◌else◌, set,
}
use bpipe.Err.{Ec, ok, null_pointer, null_filter, alloc, invalid_config, is_ok}
use bpipe.Ring.{Config, zeroed}
use bpipe.Filter.{State, Heap, BufRef, input, write}
use bpipe.Filter.Lifecycle
use bpipe.Filter.Kind.{Platform, kind_config, kind_init}
use bpipe.Pipeline.{FilterRef, null, Connection, Pipeline, contains_filter}
use bpipe.Pipeline.Validate.{Store, put}
pub mod Joined
pub mod Built
mod Tests

abbrev pub filt_t_pipeline : ℕ
filt_t_pipeline = 9

-- `Pipeline_config_t` without the name; an array that is NULL is empty.
pub record PipelineConfig : Type 0 where
  pub buff_config : Config
  pub timeout_us : ℕ
  pub filters : List FilterRef
  pub connections : List Connection
  pub input_filter : FilterRef
  pub input_port : ℕ
  pub output_filter : FilterRef
  pub output_port : ℕ

-- What the two calls of `malloc` grant.
pub record Granted : Type 0 where
  pub listed : Bool
  pub linked : Bool

-- A pipeline with its base filter and the buffers, and the filters that it may hold. An array that
-- has been freed is empty.
pub record World : Type 0 where
  pub pipeline : Pipeline
  pub base : State
  pub filters : Store

unfoldable pub are_known : List FilterRef → List Connection → Bool
unfolding contains_filter
are_known fs [] = true
are_known fs (c ∷ cs) =
    contains_filter fs c.from_filter && contains_filter fs c.to_filter && are_known fs cs

-- The operation `sink_connect` of a filter.
abbrev pub Connects : Type 0
Connects = State → ℕ → BufRef → Ec × State

module _ (ops : FilterRef → Connects) where
  -- `filt_sink_connect` for a connection; its ports are within the arrays of its filters.
  unfoldable pub connect_one : Connection → Store → Heap → Ec × Store × Heap
  connect_one c fs h =
      let ref = input (fs c.to_filter) c.to_port in
      let (e, s) =
        ops c.from_filter (record { filter = fs c.from_filter; heap = h }) c.from_port ref in
      if c.from_filter == null
      then (null_filter, fs, h)
      else (e, put fs c.from_filter s.filter, s.heap)

  -- The loop that makes the internal connections.
  unfoldable pub connect_all : List Connection → Store → Heap → Ec × Store × Heap
  unfolding connect_one
  connect_all [] fs h = (ok, fs, h)
  connect_all (c ∷ cs) fs h =
      let (e, fs', h') = connect_one c fs h in
      let rest = connect_all cs fs' h' in if is_ok e then rest else (e, fs', h')

-- `pipeline_init` gives up: the array of filters is freed, and filt_deinit, whose operation is still
-- the default one, ends the base filter.
abbrev pub given_up : World → World
given_up w = record w {
  pipeline = record w.pipeline { filters = [] };
  base = (Lifecycle.deinit none w.base).1;
}

-- The array of connections is freed.
abbrev pub unlinked : World → World
unlinked w = record w { pipeline = record w.pipeline { connections = [] } }

-- The pipeline takes the buffer of its input filter in place of its own, which is freed.
unfoldable pub share_input : FilterRef → ℕ → World → World
share_input f port w =
    let b = w.base.filter in
    let own = input b 0 in
    let shared = input (w.filters f) port in
    record w {
      base = record {
        filter = record b { input_buffers = set b.input_buffers 0 shared; has_worker = false };
        heap = if own == 0 then w.base.heap else write w.base.heap own zeroed;
      };
    }

-- `pipeline_init` of a pipeline that is not NULL.
unfoldable pub pipeline_init :
    (FilterRef → Connects) → Platform → Granted → PipelineConfig → World → Ec × World
unfolding are_known connect_all share_input
pipeline_init ops p g c w =
    let (e, base) =
      kind_init p (kind_config p filt_t_pipeline 1 1 c.buff_config c.timeout_us) w.base.heap in
    let made = record w { base = base } in
    let listed = record made { pipeline = record w.pipeline { filters = c.filters } } in
    let (e', fs, h) = connect_all ops c.connections w.filters base.heap in
    let joined : World = record {
      pipeline = record listed.pipeline { connections = c.connections };
      base = record base { heap = h };
      filters = fs;
    } in
    let exposed : World = record joined {
      pipeline = record joined.pipeline {
        n_external_inputs = 0;
        input_filter = c.input_filter;
        input_port = c.input_port;
        output_filter = c.output_filter;
        output_port = c.output_port;
      };
    } in
    if length c.filters == 0
    then (null_pointer, w)
    else if c.input_filter == null
    then (null_pointer, w)
    else if c.output_filter == null
    then (null_pointer, w)
    else if not (is_ok e)
    then (e, made)
    else if not g.listed
    then (alloc, given_up made)
    else if not (are_known c.filters c.connections)
    then (invalid_config, given_up listed)
    else if not (length c.connections == 0) && not g.linked
    then (alloc, given_up listed)
    else if not (is_ok e')
    then (e', given_up (unlinked joined))
    else if not
        (contains_filter c.filters c.input_filter && contains_filter c.filters c.output_filter)
    then (invalid_config, given_up (unlinked exposed))
    else (ok, share_input c.input_filter c.input_port exposed)
