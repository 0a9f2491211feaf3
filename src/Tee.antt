-- ===== src/Tee.antt =====
-- bpipe/tee.c: the worker that copies each input batch to all its outputs.
use bpipe.Base.{
  ℕ, zero, suc, ◌+◌, Bool, true, false, List, [], ◌∷◌, ◌++◌, ◌==◌, if◌then◌else◌, take, min, u64,
}
use bpipe.Err.{Ec, timeout, is_ok}
use bpipe.Batches.{overwrite}
use bpipe.Ring.{Batch}
pub mod Outputs
pub mod Setup
mod Tests

-- `Tee_filt_t` with what its worker uses of the base filter; arrays are functions of the port. A
-- sink is a number, 0 for NULL. `sent` holds the batches that bb_submit has taken at each port.
pub record Tee : Type 0 where
  pub n_outputs : ℕ
  pub n_sinks : ℕ
  pub sinks : ℕ → ℕ
  pub successful_writes : ℕ → ℕ
  pub n_batches : ℕ
  pub samples_processed : ℕ
  pub sent : ℕ → List Batch

-- What bb_get_tail hands to the worker: a batch, with the result of the bb_submit at each port, or
-- a code other than `Bp_EC_OK`.
pub data Fetch : Type 0 where
  fetched : Batch → (submitted : ℕ → Ec) → Fetch
  missed : Ec → Fetch

-- The output batch made of `slot`; its code stays what it was.
abbrev pub copied : Batch → Batch → Batch
copied input slot = record slot {
  head = input.head;
  samples = overwrite 0 (take input.head input.samples) slot.samples;
  t_ns = input.t_ns;
  period_ns = input.period_ns;
  batch_id = input.batch_id;
}

-- `slot i` is what bb_get_head finds at the port `i` once the batches of the list have been
-- submitted there.
module _ (slot : ℕ → List Batch → Batch) where
  -- What one port has been given after a round of the loop over the outputs.
  unfoldable pub pushed : Batch → (ℕ → Ec) → (ℕ → ℕ) → ℕ → List Batch → List Batch
  pushed input submitted sinks i sent =
      if sinks i == 0
      then sent
      else if is_ok (submitted i)
      then sent ++ copied input (slot i sent) ∷ []
      else sent

  -- A round of that loop at the port `i`.
  unfoldable pub output_round : Batch → (ℕ → Ec) → ℕ → Tee → Tee
  unfolding pushed
  output_round input submitted i t = record t {
    sent = λ j. if j == i then pushed input submitted t.sinks i (t.sent i) else t.sent j;
    successful_writes = λ j.
        if j == i
        then (if t.sinks i == 0
            then t.successful_writes i
            else if is_ok (submitted i)
            then u64 (t.successful_writes i + 1)
            else t.successful_writes i)
        else t.successful_writes j;
  }

  -- `n` rounds from the port `i` on.
  unfoldable pub distribute : Batch → (ℕ → Ec) → ℕ → ℕ → Tee → Tee
  unfolding output_round
  distribute input submitted zero i t = t
  distribute input submitted (suc n) i t =
      distribute input submitted n (i + 1) (output_round input submitted i t)

  unfoldable pub on_batch : Batch → (ℕ → Ec) → Tee → Tee
  unfolding distribute
  on_batch input submitted t =
      let t' = distribute input submitted (min t.n_outputs t.n_sinks) 0 t in
      record t' {
        n_batches = u64 (t'.n_batches + 1);
        samples_processed = u64 (t'.samples_processed + input.head);
      }

  -- `tee_worker`, over what it fetches: it leaves at the first code that is no timeout.
  unfoldable pub tee_worker : List Fetch → Tee → Bool × Tee
  unfolding on_batch
  tee_worker [] t = (false, t)
  tee_worker (fetched input submitted ∷ is) t = tee_worker is (on_batch input submitted t)
  tee_worker (missed timeout ∷ is) t = tee_worker is t
  tee_worker (missed e ∷ is) t = (true, t)
