-- ===== src/Matcher/Tests.antt =====
-- The theorems about bpipe/batch_matcher.c at output batches of two samples, and runs of the worker.
use bpipe.Base.{ℕ, ◌≡◌, ◌<◌, refl, true, false, inl, List, [], ◌∷◌, ◌++◌, arith}
use bpipe.Err.{ok, complete, timeout}
use bpipe.Ring.{Batch, zero_batch}
use bpipe.Matcher.{Matcher, Work, worker, round, Exit, left, goes_on, Fetch, fetched, missed}
use bpipe.Matcher.Flush.{Sent}
use bpipe.Matcher.Whole.{worker-Leaves}
use bpipe.Matcher.Stuck.{worker-Starves}

abbrev matcher : Matcher
matcher = record {
  output_batch_samples = 2;
  size_detected = true;
  period_ns = 0;
  batch_period_ns = 0;
  next_boundary_ns = 0;
  accumulator = false;
  accumulator_capacity = 0;
  accumulated = 0;
  data_width = 4;
  samples_processed = 0;
  batches_matched = 0;
  samples_skipped = 0;
}

abbrev batch : ℕ → ℕ → List ℕ → Batch
batch t h xs = record { head = h; t_ns = t; period_ns = 5; batch_id = 0; ec = ok; samples = xs }

abbrev stream : List Fetch
stream =
    fetched 3 (batch 20 3 (1 ∷ 2 ∷ 3 ∷ 9 ∷ []))
    ∷ missed timeout
    ∷ fetched 4 (batch 35 2 (4 ∷ 5 ∷ []))
    ∷ []

abbrev no_slot : List Batch → Batch
no_slot bs = zero_batch

worker-Leaves_example :
    (w : Work) × (worker no_slot 3 true (stream ++ missed complete ∷ []) matcher ≡ left ok w)
    × Sent no_slot 2 5 20 (1 ∷ 2 ∷ 3 ∷ 4 ∷ 5 ∷ []) w.sent
worker-Leaves_example =
    worker-Leaves no_slot 2 5 20 (omega arith) (omega arith) (omega arith) 3 2 complete stream
      matcher (inl refl) refl refl
      ((refl, refl, omega arith, omega arith), (refl, ((refl, refl, omega arith, omega arith), tt)))
      refl (omega arith) (omega arith)

-- The first sample lies in the middle of an output batch.
abbrev off_grid : Batch
off_grid = batch 25 3 (1 ∷ 2 ∷ 3 ∷ [])

worker-Starves_example :
    (w : Work) × (worker no_slot 3 true (fetched 100 off_grid ∷ []) matcher ≡ goes_on w)
    × (w.sent ≡ [])
    × (w.input_idx < 3)
worker-Starves_example =
    worker-Starves 2 5 (omega arith) (omega arith) no_slot 2 1 off_grid matcher refl refl refl
      (omega arith) (omega arith) (omega arith) (omega arith) 3 100 refl (omega arith)

sent_by : Exit Work → List Batch
sent_by (left e w) = w.sent
sent_by (goes_on w) = w.sent
sent_by _ = []

heads : List Batch → List ℕ
heads [] = []
heads (b ∷ bs) = b.head ∷ heads bs

-- Two full batches, the sample that is left, and the end mark.
heads_sent :
    heads (sent_by (worker no_slot 3 true (stream ++ missed complete ∷ []) matcher))
    ≡ 2 ∷ 2 ∷ 1 ∷ 0 ∷ []
unfolding worker round sent_by heads
heads_sent = refl
