-- ===== src/Buffer/Spsc.antt =====
-- A producer and a consumer thread at one batch buffer (bpipe/batch_buffer.c), whose accesses to
-- `head` and `tail` interleave in any order. An event is one access, with what its thread does
-- on its own up to the next one; the accesses are taken as sequentially consistent. An event that
-- its thread is not ready for changes nothing. The code's own lock only guards waiting.
use bpipe.Base.{
  ℕ, ◌+◌, ◌≡◌, Bool, true, false, not, ◌&&◌, Option, none, some, List, [], ◌∷◌, ◌++◌, ◌==◌,
  if◌then◌else◌, get_or, u64,
}
use bpipe.Err.{Ec, ok, timeout, is_ok}
use bpipe.Ring.{
  Batch, BatchBuff, zero_batch, masked, is_empty, get_head, put_head, get_tail_idx,
  overflow_drop_head,
}
use bpipe.Buffer.{publish, leave_head, blocked_head}
use bpipe.Buffer.Setup.{forced_head, forced_tail}
pub mod Inv
pub mod Fifo
mod Tests

-- Where the producer stands: it fills in its batch; it has read `tail` for a bb_submit, which has
-- computed `next_head`; it waits for room; its wait has succeeded.
pub data Producer : Type 0 where
  idle : Producer
  loaded : (next_head tail : ℕ) → Producer
  awaiting : (next_head : ℕ) → Producer
  ready : (next_head : ℕ) → Producer

-- Where the consumer stands: it has no batch; it reads the one that bb_get_tail has given it, in
-- the slot `idx`; it has read `tail` for a bb_del_tail.
pub data Consumer : Type 0 where
  free : Consumer
  holding : (idx : ℕ) → Consumer
  deleting : (tail : ℕ) → Consumer

-- `sent` and `taken` record the batches that were submitted and deleted.
pub record System : Type 0 where
  pub producer : Producer
  pub consumer : Consumer
  pub buffer : BatchBuff
  pub sent : List Batch
  pub taken : List Batch

pub data Event : Type 0 where
  -- The producer's: it writes to its batch, enters bb_submit, decides there, leaves its wait with
  -- the loop's test or the time limit, and goes on after it.
  fill : Batch → Event
  enter decide wake give_up proceed : Event
  -- The consumer's: it gets the batch at the tail, enters bb_del_tail, and stores the new tail.
  peek delete advance : Event
  -- Another thread's: bb_stop, and the two calls that force a waiting thread to return.
  halt : Event
  force_head force_tail : Ec → Event

-- The end of bb_submit.
abbrev pub published : ℕ → System → System
published next_head s = record s {
  producer = idle;
  buffer = (publish next_head s.buffer).1;
  sent = s.sent ++ get_head s.buffer ∷ [];
}

abbrev pub resumed : ℕ → Ec × BatchBuff → System → System
resumed next_head (e, b) s = record s {
  producer = if is_ok e then ready next_head else idle;
  buffer = b;
}

-- What bb_submit does once it has both indices; only OVERFLOW_DROP_HEAD and OVERFLOW_BLOCK.
pub decided : ℕ → ℕ → System → System
decided next_head tail s =
    if next_head == tail
    then (if s.buffer.overflow_behaviour == overflow_drop_head
        then record s {
          producer = idle;
          buffer = record s.buffer { dropped_batches = u64 (s.buffer.dropped_batches + 1) };
        }
        else record s { producer = awaiting next_head })
    else published next_head s

pub produce_step : Event → Producer → System → System
unfolding decided
produce_step (fill x) idle s = record s { buffer = put_head s.buffer x }
produce_step enter idle s = record s {
  producer = loaded (masked s.buffer (s.buffer.head + 1)) s.buffer.tail;
}
produce_step decide (loaded next_head tail) s = decided next_head tail s
produce_step wake (awaiting next_head) s =
    if blocked_head s.buffer then s else resumed next_head (leave_head (ok, s.buffer)) s
produce_step give_up (awaiting next_head) s = resumed next_head (leave_head (timeout, s.buffer)) s
produce_step proceed (ready next_head) s = published next_head s
produce_step _ _ s = s

pub consume_step : Event → Consumer → System → System
consume_step peek free s =
    if is_empty s.buffer then s else record s { consumer = holding (get_tail_idx s.buffer) }
consume_step delete (holding idx) s =
    if s.buffer.tail == s.buffer.head then s else record s { consumer = deleting s.buffer.tail }
consume_step advance (deleting tail) s = record s {
  consumer = free;
  buffer = record s.buffer { tail = masked s.buffer (tail + 1) };
  taken = s.taken ++ get_or s.buffer.batch_ring (masked s.buffer tail) zero_batch ∷ [];
}
consume_step _ _ s = s

pub step : Event → System → System
unfolding produce_step consume_step
step peek s = consume_step peek s.consumer s
step delete s = consume_step delete s.consumer s
step advance s = consume_step advance s.consumer s
step halt s = record s { buffer = record s.buffer { running = false } }
step (force_head code) s = record s { buffer = forced_head code s.buffer }
step (force_tail code) s = record s { buffer = forced_tail code s.buffer }
step e s = produce_step e s.producer s

unfoldable pub steps : List Event → System → System
unfolding step
steps [] s = s
steps (e ∷ es) s = steps es (step e s)
