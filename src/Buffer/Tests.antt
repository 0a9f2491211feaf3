-- ===== src/Buffer/Tests.antt =====
-- The theorems about bpipe/batch_buffer.c at a ring of four slots.
use bpipe.Base.{◌≡◌, ◌≢◌, ◌↔◌, refl, true, false, none, some, [], ◌∷◌, arith}
use bpipe.Err.{ok, stopped, filter_stopping}
use bpipe.Ring.{is_empty, BatchBuff, Config, zero_batch, zeroed, is_full, get_head}
use bpipe.Buffer.{Wake, waiting, returned, submit, await_notfull, get_tail, await_notempty}
use bpipe.Buffer.Inv.{IsValid}
use bpipe.Buffer.Queue
use bpipe.Buffer.Queue.{Op, produce, consume, enqueue}
use bpipe.Buffer.Refine.{contents}
use bpipe.Buffer.Submit.{IsOpen, Holds, submit_refines}
use bpipe.Buffer.Run.{run, run_refines}
use bpipe.Buffer.Wait.{IsHeldUp, Ends, consuming, submit_waits}
use bpipe.Buffer.Setup.{
  Alloc, init, stop, force_return_head, opened, configured, reaches_producer, reaches_consumer,
  woken_by,
}
use bpipe.Buffer.Setup.Laws.{IsAccepted, Granted, init-ok_iff}
use bpipe.Buffer.Setup.Waiters.{
  lowered, stop_ends_submit, force_return_head_ends_submit, stop_ends_get_tail,
}

abbrev config : Config
config = record {
  dtype = 1;
  batch_capacity_expo = 1;
  ring_capacity_expo = 2;
  overflow_behaviour = 0;
}

abbrev granted : Alloc
granted = record {
  batch_ring = true;
  data_ring = true;
  mutex = true;
  not_empty = true;
  not_full = true;
}

-- Three unread batches, round the end of the ring.
abbrev full_buffer : BatchBuff
full_buffer = record (opened (configured config)) { head = 1; tail = 2; total_batches = 5 }

full_buffer-IsValid : IsValid full_buffer
full_buffer-IsValid = record {
  slots = refl;
  small = omega arith;
  some_slot = omega arith;
  head_in = omega arith;
  tail_in = omega arith;
}

full_buffer-IsOpen : IsOpen full_buffer
full_buffer-IsOpen = record { started = refl; no_head_force = refl; no_tail_force = refl }

is_full_full : is_full full_buffer ≡ true
unfolding is_full
is_full_full = refl

run_refines_example :
    run 0 (produce zero_batch ∷ consume ∷ []) full_buffer
    ≡ Queue.run 3 0 (produce zero_batch ∷ consume ∷ []) (contents full_buffer)
run_refines_example =
    run_refines 0 (produce zero_batch ∷ consume ∷ []) full_buffer-IsValid full_buffer-IsOpen

submit_refines_example :
    Holds full_buffer
      (submit 0 [] full_buffer)
      (enqueue 3 0 (contents full_buffer) (get_head full_buffer))
submit_refines_example = submit_refines full_buffer-IsValid full_buffer-IsOpen 0

init-ok_iff_example :
    ((init (some zeroed) config granted).0 ≡ ok) ↔ (IsAccepted config × Granted granted)
init-ok_iff_example = init-ok_iff zeroed config granted

init_runs : init (some zeroed) config granted ≡ (ok, some (opened (configured config)))
unfolding init
init_runs = refl

full_buffer-IsHeldUp : IsHeldUp full_buffer
full_buffer-IsHeldUp = record {
  valid = full_buffer-IsValid;
  wide = omega arith;
  full = is_full_full;
  started = refl;
  no_force = refl;
  no_drop_head = λ e. omega arith;
  no_drop_tail = λ e. omega arith;
}

-- A wait that returns once for nothing, and then after two deletions.
submit_waits_example : Ends full_buffer (submit 0 (consuming (0 ∷ 2 ∷ [])) full_buffer) (some 2)
submit_waits_example = submit_waits 0 (0 ∷ 2 ∷ []) full_buffer full_buffer-IsHeldUp

-- A wake-up without a change.
abbrev spurious : Wake
spurious = record { ret = 0; others = λ b. b }

submit_blocked : submit 5 (spurious ∷ []) full_buffer ≡ waiting
unfolding submit await_notfull is_full
submit_blocked = refl

stop_ends_submit_example :
    submit 5 (spurious ∷ woken_by reaches_producer (stop (some full_buffer))) full_buffer
    ≡ returned (stopped, record full_buffer { running = false })
stop_ends_submit_example = stop_ends_submit 5 (spurious ∷ []) full_buffer submit_blocked

filter_stopping-ne-ok : filter_stopping ≢ ok
filter_stopping-ne-ok e = cc

force_return_head_ends_submit_example :
    let woken = woken_by reaches_producer (force_return_head (some full_buffer) filter_stopping) in
    (submit 5 (spurious ∷ woken) full_buffer
      ≡ returned (filter_stopping, lowered filter_stopping full_buffer))
    × (await_notfull 5 [] (lowered filter_stopping full_buffer) ≡ waiting)
force_return_head_ends_submit_example =
    force_return_head_ends_submit 5 (spurious ∷ []) full_buffer filter_stopping
      filter_stopping-ne-ok submit_blocked

abbrev empty_buffer : BatchBuff
empty_buffer = opened (configured config)

get_tail_blocked : get_tail (spurious ∷ []) empty_buffer ≡ waiting
unfolding get_tail await_notempty is_empty
get_tail_blocked = refl

stop_ends_get_tail_example :
    get_tail (spurious ∷ woken_by reaches_consumer (stop (some empty_buffer))) empty_buffer
    ≡ returned (stopped, none, record empty_buffer { running = false })
stop_ends_get_tail_example = stop_ends_get_tail (spurious ∷ []) empty_buffer get_tail_blocked
