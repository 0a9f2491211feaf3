-- ===== src/Buffer/Run.antt =====
-- A producer and a consumer that take turns at one batch buffer: fill in the head batch and submit
-- it, read the tail batch and delete it (bpipe/batch_buffer.c).
use bpipe.Base.{
  ℕ, ◌-◌, ◌^◌, ◌≡◌, refl, ap, ap₂, ◌∙◌, true, false, inl, inr, Option, none, some, List, [], ◌∷◌,
  arith, if◌then◌else◌, Bool-cases, get_or,
}
use bpipe.Err.{Ec, ok, is_ok}
use bpipe.Ring.{Batch, BatchBuff, zero_batch, n_batches, is_empty, get_head, put_head, get_tail_idx}
use bpipe.Buffer.{Outcome, waiting, returned, submit, get_tail, del_tail}
use bpipe.Buffer.Inv.{IsValid, empty_iff}
use bpipe.Buffer.Refine.{
  contents, contents-put_head, put_head-IsValid, get_head-put_head, advanced-IsValid,
  contents-advanced, del_tail-ok,
}
use bpipe.Buffer.Submit.{IsOpen, SameConfig, Holds, submit_refines, contents-nil}
use bpipe.Buffer.Queue
use bpipe.Buffer.Queue.{Op, produce, consume, Reply, submitted, would_wait, failed, got, enqueue}

produced : (BatchBuff → List Reply) → Outcome (Ec × BatchBuff) → List Reply
produced more waiting = would_wait ∷ []
produced more (returned (e, b)) = (if is_ok e then submitted else failed e) ∷ more b

consumed : (BatchBuff → List Reply) → Outcome (Ec × Option Batch × BatchBuff) → List Reply
consumed more waiting = would_wait ∷ []
consumed more (returned (e, none, b)) = failed e ∷ more b
consumed more (returned (e, some x, b)) = got x ∷ more (del_tail b).1

-- The calls of the clients in order, with what each returns; `t` is the timeout they pass.
unfoldable pub run : ℕ → List Op → BatchBuff → List Reply
unfolding produced consumed
run t [] b = []
run t (produce x ∷ ops) b = produced (run t ops) (submit t [] (put_head b x))
run t (consume ∷ ops) b = consumed (run t ops) (get_tail [] b)

get_tail-batch :
    (b : BatchBuff)
    → is_empty b ≡ false
    → get_tail [] b ≡ returned (ok, some (get_or b.batch_ring (get_tail_idx b) zero_batch), b)
unfolding get_tail
get_tail-batch b h = rw h

get_tail-waits : (b : BatchBuff) → is_empty b ≡ true → IsOpen b → get_tail [] b ≡ waiting
unfolding get_tail
get_tail-waits b h o = ground arith

-- One submit, and whatever the client sees after it.
produced_agrees :
    (b : BatchBuff) (more : BatchBuff → List Reply) (more_q : List Batch → List Reply)
    → ((b' : BatchBuff) → IsValid b' → IsOpen b' → SameConfig b b' → more b' ≡ more_q (contents b'))
    → (r : Outcome (Ec × BatchBuff)) (q : Option (List Batch)) → Holds b r q
    → produced more r ≡ Queue.enqueued more_q q
unfolding produced Queue.enqueued is_ok
produced_agrees b more more_q next waiting none h = refl
produced_agrees b more more_q next waiting (some q) h = absurd h
produced_agrees b more more_q next (returned r) none h = absurd h
produced_agrees b more more_q next (returned (e, b')) (some q) (ok_e, holds, v, o, c) =
    rw (ok_e, ← holds) (ap (◌∷◌ submitted) (next b' v o c))

-- No sequence of calls tells an open, valid batch buffer from the queue of its unread batches,
-- bounded by one less than the slots of the ring, under the configured overflow behaviour.
pub run_refines :
    (t : ℕ) (ops : List Op) {b : BatchBuff}
    → IsValid b
    → IsOpen b
    → run t ops b ≡ Queue.run (n_batches b - 1) b.overflow_behaviour ops (contents b)
unfolding run Queue.run put_head
run_refines t [] v o = refl
run_refines t (produce x ∷ ops) {b} v o =
    produced_agrees (put_head b x) (run t ops)
      (Queue.run (n_batches b - 1) b.overflow_behaviour ops)
      (λ b' v' o' c.
        run_refines t ops v' o'
        ∙ ap₂ (λ (e p : ℕ). Queue.run (2 ^ e - 1) p ops (contents b')) c.same_ring c.same_policy)
      (submit t [] (put_head b x))
      (enqueue (n_batches b - 1) b.overflow_behaviour (contents (put_head b x))
        (get_head (put_head b x)))
      (submit_refines (put_head-IsValid x v) (ground (arith, o)) t)
    ∙ ap₂
        (λ q y.
          Queue.enqueued (Queue.run (n_batches b - 1) b.overflow_behaviour ops)
            (enqueue (n_batches b - 1) b.overflow_behaviour q y))
        (contents-put_head x v) (get_head-put_head x v)
run_refines t (consume ∷ ops) {b} v o = elim (Bool-cases (is_empty b)) [
  | inl e ↦ rw (get_tail-waits b e o, contents-nil b ((empty_iff v).0 e))
  | inr ne ↦
      rw (get_tail-batch b ne, contents-advanced v ne, del_tail-ok b ne)
        (ap (◌∷◌ (got (get_or b.batch_ring (get_tail_idx b) zero_batch)))
          (run_refines t ops (advanced-IsValid v) (ground (arith, o))))
]
