-- ===== src/Buffer.antt =====
-- bpipe/batch_buffer.c: waiting, reading, deleting and submitting.
-- Each function is one call that runs alone; what other threads do while a call waits enters as
-- the list of its wake-ups.
use bpipe.Base.{
  ℕ, ◌+◌, Bool, false, not, ◌&&◌, ◌||◌, Option, none, some, List, [], ◌∷◌, ◌==◌, if◌then◌else◌,
  get_or, u64,
}
use bpipe.Err.{Ec, ok, stopped, timeout, pthread_unkown, buffer_empty, is_ok}
use bpipe.Ring.{
  BatchBuff, Batch, zero_batch, masked, get_tail_idx, is_empty, is_full, overflow_drop_head,
  overflow_drop_tail,
}
pub mod Inv
pub mod Queue
pub mod Segment
pub mod Refine
pub mod Submit
pub mod Run
pub mod Await
pub mod Wait
pub mod Setup
pub mod Spsc
mod Tests

-- One return of `pthread_cond_wait` or `pthread_cond_timedwait`: the code that it returns, and
-- what the other threads have made of the buffer by then.
pub record Wake : Type 0 where
  pub ret : ℕ
  pub others : BatchBuff → BatchBuff

-- A call that still waits after its last wake-up has not returned.
pub data Outcome (A : Type 0) : Type 0 where
  waiting : Outcome A
  returned : A → Outcome A

abbrev pub etimedout : ℕ
etimedout = 110

abbrev pub blocked_head : BatchBuff → Bool
blocked_head b = is_full b && b.running && not b.force_return_head

abbrev pub blocked_tail : BatchBuff → Bool
blocked_tail b = is_empty b && b.running && not b.force_return_tail

-- The loop of `bb_await_notfull`; a zero timeout waits without limit.
pub wait_notfull : ℕ → List Wake → BatchBuff → Outcome (Ec × BatchBuff)
wait_notfull timeout_us [] b = if blocked_head b then waiting else returned (ok, b)
wait_notfull timeout_us (w ∷ ws) b =
    let rest = wait_notfull timeout_us ws (w.others b) in
    if blocked_head b
    then (if timeout_us == 0 || w.ret == 0 then rest else returned (timeout, w.others b))
    else returned (ok, b)

-- What follows the loop: the forced code, then the check of `running`.
pub leave_head : Ec × BatchBuff → Ec × BatchBuff
leave_head (ec, b) =
    let (ec', b') =
      if b.force_return_head
      then (b.force_return_head_code, record b { force_return_head = false })
      else (ec, b) in
    (if is_ok ec' && not b'.running then stopped else ec', b')

pub after : {A B : Type 0} → (A → B) → Outcome A → Outcome B
after f waiting = waiting
after f (returned a) = returned (f a)

unfoldable pub await_notfull : ℕ → List Wake → BatchBuff → Outcome (Ec × BatchBuff)
unfolding after leave_head wait_notfull
await_notfull timeout_us ws b = after leave_head (wait_notfull timeout_us ws b)

-- The loop of `bb_await_notempty`, where any code but 0 ends the wait.
wait_notempty : List Wake → BatchBuff → Outcome (Ec × BatchBuff)
wait_notempty [] b = if blocked_tail b then waiting else returned (ok, b)
wait_notempty (w ∷ ws) b =
    let rest = wait_notempty ws (w.others b) in
    if blocked_tail b
    then (if w.ret == etimedout
        then returned (timeout, w.others b)
        else if not (w.ret == 0)
        then returned (pthread_unkown, w.others b)
        else rest)
    else returned (ok, b)

leave_tail : Ec × BatchBuff → Ec × BatchBuff
leave_tail (ec, b) =
    let (ec', b') =
      if b.force_return_tail
      then (b.force_return_tail_code, record b { force_return_tail = false })
      else (ec, b) in
    (if is_ok ec' && not b'.running then stopped else ec', b')

-- The time limit only says when a wait may return `etimedout`.
unfoldable pub await_notempty : List Wake → BatchBuff → Outcome (Ec × BatchBuff)
unfolding after leave_tail wait_notempty
await_notempty ws b = after leave_tail (wait_notempty ws b)

-- The batch at the tail is returned in place of a pointer to it; `none` is NULL. Every caller
-- passes an `err` to write to.
pub get_tail_woken : Ec × BatchBuff → Ec × Option Batch × BatchBuff
get_tail_woken (rc, b) =
    if is_ok rc
    then (rc, some (get_or b.batch_ring (get_tail_idx b) zero_batch), b)
    else (rc, none, b)

unfoldable pub get_tail : List Wake → BatchBuff → Outcome (Ec × Option Batch × BatchBuff)
unfolding after get_tail_woken await_notempty
get_tail ws b =
    if not (is_empty b)
    then returned (ok, some (get_or b.batch_ring (get_tail_idx b) zero_batch), b)
    else after get_tail_woken (await_notempty ws b)

unfoldable pub del_tail : BatchBuff → Ec × BatchBuff
del_tail b =
    if b.tail == b.head then (buffer_empty, b) else (ok, record b { tail = masked b (b.tail + 1) })

-- The fast path at the end of `bb_submit`, with `next_head` as it was computed on entry.
pub publish : ℕ → BatchBuff → Ec × BatchBuff
publish next_head b = (ok, record b { head = next_head; total_batches = u64 (b.total_batches + 1) })

-- `OVERFLOW_DROP_TAIL`: the tail is advanced if the buffer is still full under the lock.
pub drop_oldest : BatchBuff → BatchBuff
drop_oldest b =
    if is_full b
    then record b {
      tail = masked b (b.tail + 1);
      dropped_by_producer = u64 (b.dropped_by_producer + 1);
    }
    else b

pub submit_waited : ℕ → Ec × BatchBuff → Ec × BatchBuff
submit_waited next_head (rc, b) = if is_ok rc then publish next_head b else (rc, b)

unfoldable pub submit : ℕ → List Wake → BatchBuff → Outcome (Ec × BatchBuff)
unfolding publish drop_oldest submit_waited after await_notfull
submit timeout_us ws b =
    let next_head = masked b (b.head + 1) in
    if next_head == b.tail
    then (if b.overflow_behaviour == overflow_drop_head
        then returned (ok, record b { dropped_batches = u64 (b.dropped_batches + 1) })
        else if b.overflow_behaviour == overflow_drop_tail
        then returned (publish next_head (drop_oldest b))
        else after (submit_waited next_head) (await_notfull timeout_us ws b))
    else returned (publish next_head b)
