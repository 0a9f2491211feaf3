-- ===== src/Buffer/Queue.antt =====
-- What a batch buffer promises: a queue of at most `cap` batches, oldest first, with what the
-- overflow behaviour of its configuration does to a batch that does not fit.
use bpipe.Base.{ℕ, Option, none, some, List, [], ◌∷◌, ◌++◌, ltb, ◌==◌, if◌then◌else◌, length}
use bpipe.Err.{Ec}
use bpipe.Ring.{Batch, overflow_drop_head, overflow_drop_tail}

pub data Op : Type 0 where
  produce : Batch → Op  -- fill the head batch in and submit it
  consume : Op  -- read the tail batch and delete it

-- What a call of the client gives. `would_wait` is a call that does not return while the other
-- thread does nothing; after it the client makes no more calls.
pub data Reply : Type 0 where
  submitted would_wait : Reply
  failed : Ec → Reply
  got : Batch → Reply

-- The queue without its oldest element.
abbrev pub rest : List Batch → List Batch
rest [] = []
rest (x ∷ q) = q

unfoldable pub enqueued : (List Batch → List Reply) → Option (List Batch) → List Reply
enqueued more none = would_wait ∷ []
enqueued more (some q) = submitted ∷ more q

dequeued : (List Batch → List Reply) → List Batch → List Reply
dequeued more [] = would_wait ∷ []
dequeued more (x ∷ q) = got x ∷ more q

module _ (cap policy : ℕ) where
  -- `none`: no room, and the producer has to wait.
  unfoldable pub enqueue : List Batch → Batch → Option (List Batch)
  enqueue q x =
      if ltb (length q) cap
      then some (q ++ x ∷ [])
      else if policy == overflow_drop_head
      then some q
      else if policy == overflow_drop_tail
      then some (rest (q ++ x ∷ []))
      else none

  unfoldable pub run : List Op → List Batch → List Reply
  unfolding enqueued dequeued
  run [] q = []
  run (produce x ∷ ops) q = enqueued (run ops) (enqueue q x)
  run (consume ∷ ops) q = dequeued (run ops) q
