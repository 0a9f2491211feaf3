-- ===== src/Pipeline/Lifecycle.antt =====
-- bpipe/pipeline.c: starting and stopping the filters of a pipeline, its output and its end.
use bpipe.Base.{
  ℕ, Bool, true, false, not, List, [], ◌∷◌, ◌++◌, Option, none, some, ◌==◌, if◌then◌else◌, set,
}
use bpipe.Err.{Ec, ok, null_filter, invalid_sink_idx, is_ok}
use bpipe.Filter
use bpipe.Filter.{Filter, State, Heap, Custom, BufRef}
use bpipe.Pipeline.{FilterRef, null, Pipeline}
use bpipe.Pipeline.Validate.{Store, put}
pub mod Rollback
pub mod Default
mod Tests

-- The operations that a filter has replaced, and what the threads library answers it.
pub record Ops : Type 0 where
  pub start_op : Custom
  pub stop_op : Custom
  pub created : Bool
  pub joined : Bool

-- The filters of a pipeline, the buffers, and whether the pipeline itself is marked as running.
pub record World : Type 0 where
  pub filters : Store
  pub heap : Heap
  pub running : Bool

abbrev pub state_of : World → FilterRef → State
state_of w f = record { filter = w.filters f; heap = w.heap }

abbrev pub updated : FilterRef → State → World → World
updated f s w = record w { filters = put w.filters f s.filter; heap = s.heap }

module _ (ops : FilterRef → Ops) where
  -- filt_start and filt_stop of a filter of the pipeline.
  pub start_at : FilterRef → World → Ec × World
  start_at f w =
      let (e, s) = Filter.start (ops f).start_op (ops f).created (state_of w f) in
      if f == null then (null_filter, w) else (e, updated f s w)

  pub stop_at : FilterRef → World → World
  stop_at f w =
      let (e, s) = Filter.stop (ops f).stop_op (ops f).joined (state_of w f) in
      if f == null then w else updated f s w

  -- The results of filt_stop are ignored.
  pub stop_all : List FilterRef → World → World
  unfolding stop_at
  stop_all [] w = w
  stop_all (f ∷ fs) w = stop_all fs (stop_at f w)

  -- The loop of `pipeline_start` over the filters that are left; `started` are those before them,
  -- last one first, which are stopped in this order when one does not start.
  pub start_all : List FilterRef → List FilterRef → World → Ec × World
  unfolding start_at stop_all
  start_all [] started w = (ok, record w { running = true })
  start_all (f ∷ fs) started w =
      let (e, w') = start_at f w in
      let rest = start_all fs (f ∷ started) w' in if is_ok e then rest else (e, stop_all started w')

  unfoldable pub pipeline_start : Pipeline → World → Ec × World
  unfolding start_all
  pipeline_start p w = start_all p.filters [] w

  backwards : List FilterRef → List FilterRef
  backwards [] = []
  backwards (f ∷ fs) = backwards fs ++ f ∷ []

  unfoldable pub pipeline_stop : Pipeline → World → Ec × World
  unfolding stop_all backwards
  pipeline_stop p w = (ok, stop_all (backwards p.filters) (record w { running = false }))

-- `connect` is filt_sink_connect of the output filter.
unfoldable pub pipeline_sink_connect :
    (FilterRef → World → ℕ → BufRef → Ec × World) → Pipeline → World → ℕ → BufRef → Ec × World
pipeline_sink_connect connect p w port ref =
    if not (port == 0) then (invalid_sink_idx, w) else connect p.output_filter w p.output_port ref

-- `pipeline_deinit`: the arrays of filters and connections are freed; the input buffer belongs to
-- the input filter, so the pipeline only forgets it.
unfoldable pub pipeline_deinit : Pipeline → Filter → Ec × Pipeline × Filter
pipeline_deinit p base = (
  ok,
  record p { filters = []; connections = [] },
  record base { input_buffers = set base.input_buffers 0 0 },
)
