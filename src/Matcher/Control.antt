-- ===== src/Matcher/Control.antt =====
-- bpipe/batch_matcher.c: the operations that the batch matcher puts in the place of the filter's,
-- from the connection that tells it the size of its output.
use bpipe.Base.{
  ℕ, zero, suc, Bool, true, false, not, ◌&&◌, ◌||◌, List, [], ◌∷◌, if◌then◌else◌, ◌==◌,
}
use bpipe.Err.{Ec, ok, no_sink, already_running, thread_create_fail, thread_join_fail, null_filter}
use bpipe.Ring.{zeroed}
use bpipe.Filter.{BufRef, Heap, State, write, sink}

-- `batch_matcher_start_impl`; `created` says whether `pthread_create` succeeds.
unfoldable pub start_impl : Bool → State → Ec × State
start_impl created s =
    let f = s.filter in
    if not f.size_detected || sink f 0 == 0
    then (no_sink, s)
    else if f.running
    then (already_running, s)
    else if created
    then (ok, record s { filter = record f { running = true } })
    else (thread_create_fail, record s { filter = record f { running = false } })

-- The loop that stops the first `n` input buffers that hold data.
stop_inputs : ℕ → List BufRef → Heap → Heap
stop_inputs zero rs h = h
stop_inputs (suc n) [] h = h
stop_inputs (suc n) (r ∷ rs) h =
    stop_inputs n rs
      (if not (r == 0) && (h r).data_ring then write h r (record (h r) { running = false }) else h)

-- `batch_matcher_stop`; `joined` says whether `pthread_join` succeeds.
unfoldable pub stop_impl : Bool → State → Ec × State
unfolding stop_inputs
stop_impl joined s =
    let f = s.filter in
    if not f.running then (ok, s) else (
      if joined then ok else thread_join_fail,
      record {
        filter = record f { running = false };
        heap = stop_inputs f.n_input_buffers f.input_buffers s.heap;
      },
    )

-- The loop of `batch_matcher_deinit`, which ends at the first buffer that bb_deinit refuses.
drop_inputs : ℕ → List BufRef → Heap → Ec × Heap
drop_inputs zero rs h = (ok, h)
drop_inputs (suc n) [] h = (ok, h)
drop_inputs (suc n) (r ∷ rs) h =
    let rest = drop_inputs n rs (write h r zeroed) in if r == 0 then (null_filter, h) else rest

-- `batch_matcher_deinit`, but for the accumulator.
unfoldable pub deinit_impl : State → Ec × State
unfolding drop_inputs
deinit_impl s =
    let (e, h) = drop_inputs s.filter.n_input_buffers s.filter.input_buffers s.heap in
    (e, record s { heap = h })
