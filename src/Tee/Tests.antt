-- ===== src/Tee/Tests.antt =====
-- The theorem about bpipe/tee.c at a tee of two outputs, the second of which refuses a batch.
use bpipe.Base.{ℕ, ◌+◌, ◌≡◌, refl, List, [], ◌∷◌, ◌++◌, ◌==◌, if◌then◌else◌, arith, map}
use bpipe.Err.{Ec, ok, timeout}
use bpipe.Batches.{view}
use bpipe.Ring.{Batch, zero_batch}
use bpipe.Tee.{Tee, Fetch, fetched, missed, tee_worker}
use bpipe.Tee.Outputs.{received, tee_worker-sent}

abbrev two_way : Tee
two_way = record {
  n_outputs = 2;
  n_sinks = 2;
  sinks = λ i. i + 1;
  successful_writes = λ i. 0;
  n_batches = 0;
  samples_processed = 0;
  sent = λ i. [];
}

abbrev batch : ℕ → List ℕ → Batch
batch t xs = record { head = 2; t_ns = t; period_ns = 5; batch_id = t; ec = ok; samples = xs }

abbrev full_second : ℕ → Ec
full_second i = if i == 1 then timeout else ok

abbrev stream : List Fetch
stream =
    fetched (batch 0 (1 ∷ 2 ∷ [])) full_second
    ∷ missed timeout
    ∷ fetched (batch 10 (3 ∷ 4 ∷ [])) (λ i. ok)
    ∷ []

abbrev no_slot : ℕ → List Batch → Batch
no_slot i bs = zero_batch

tee_worker-sent_example :
    map view ((tee_worker no_slot stream two_way).1.sent 1) ≡ map view [] ++ received 1 stream
tee_worker-sent_example =
    tee_worker-sent no_slot stream 1 two_way (omega arith, (refl, (omega arith, tt))) (omega arith)
      (omega arith) refl
