-- ===== src/Buffer/Spsc/Tests.antt =====
-- The two threads of bpipe/batch_buffer.c at a ring of two slots: a producer that waits while the
-- consumer reads.
use bpipe.Base.{true, false, ℕ, ◌≡◌, refl, List, [], ◌∷◌, ◌++◌, arith, get_or}
use bpipe.Err.{filter_stopping, is_ok}
use bpipe.Ring.{Batch, BatchBuff, Config, zero_batch, get_head, put_head, is_full, is_empty}
use bpipe.Buffer.{publish, leave_head}
use bpipe.Buffer.Inv.{IsValid}
use bpipe.Buffer.Setup.{opened, configured}
use bpipe.Buffer.Spsc.{
  Event, fill, enter, decide, wake, proceed, peek, delete, advance, force_head, steps, holding,
}
use bpipe.Buffer.Spsc.Fifo.{Fair, begin, steps-holding}

abbrev two_slots : Config
two_slots = record {
  dtype = 1;
  batch_capacity_expo = 0;
  ring_capacity_expo = 1;
  overflow_behaviour = 0;
}

abbrev buffer : BatchBuff
buffer = record (opened (configured two_slots)) { running = true }

buffer-IsValid : IsValid buffer
buffer-IsValid = record {
  slots = refl;
  small = omega arith;
  some_slot = omega arith;
  head_in = omega arith;
  tail_in = omega arith;
}

abbrev numbered : ℕ → Batch
numbered n = record zero_batch { batch_id = n }

-- The second submit looks at the indices before the consumer deletes the first batch.
abbrev schedule : List Event
schedule =
    fill (numbered 1)
    ∷ enter
    ∷ decide
    ∷ peek
    ∷ fill (numbered 2)
    ∷ enter
    ∷ delete
    ∷ decide
    ∷ wake
    ∷ advance
    ∷ wake
    ∷ proceed
    ∷ force_head filter_stopping
    ∷ peek
    ∷ []

fails : is_ok filter_stopping ≡ false
unfolding is_ok
fails = refl

schedule-Fair : Fair schedule
schedule-Fair =
    (tt, (tt, (tt, (tt, (tt, (tt, (tt, (tt, (tt, (tt, (tt, (tt, (fails, (tt, tt))))))))))))))

slot_held : (steps schedule (begin buffer)).consumer ≡ holding 1
unfolding steps is_full is_empty get_head put_head publish is_ok leave_head
slot_held = refl

steps-holding_example :
    (later : List Batch) × ((steps schedule (begin buffer)).sent
      ≡ (steps schedule (begin buffer)).taken
        ++ get_or (steps schedule (begin buffer)).buffer.batch_ring 1 zero_batch ∷ later)
steps-holding_example =
    steps-holding schedule buffer 1 buffer-IsValid (λ e. absurd (omega arith)) refl schedule-Fair
      slot_held
