-- ===== src/Aligner/Tests.antt =====
-- The theorems about bpipe/sample_aligner.c at a period of ten nanoseconds.
use bpipe.Base.{ℕ, ◌≡◌, ◌%◌, refl, false, List, [], ◌∷◌, ◌++◌, arith, map}
use bpipe.Err.{ok, timeout, stopped}
use bpipe.Batches.{view}
use bpipe.Ring.{Batch, zero_batch}
use bpipe.Aligner.{
  Aligner, align_nearest, align_forward, interp_nearest, Work, Fetch, fetched, missed, left,
  first_output, aligner_worker,
}
use bpipe.Aligner.Stamps.{Shift, first_output_lem, restamp, aligner_worker-Leaves}

first_output_lem_example :
    (first_output align_nearest 23 10 % 10 ≡ 0)
    × Shift align_nearest 23 10 (first_output align_nearest 23 10)
first_output_lem_example = first_output_lem 23 10 (omega arith) (omega arith) align_nearest

-- An input that is aligned already is moved on by a whole period.
forward_shifts : first_output align_forward 20 10 ≡ 30
unfolding first_output
forward_shifts = refl

abbrev aligner : Aligner
aligner = record {
  method = interp_nearest;
  alignment = align_nearest;
  sinc_taps = 0;
  period_ns = 0;
  next_output_ns = 0;
  initialized = false;
  history_buffer = false;
  history_size = 0;
  samples_interpolated = 0;
  max_phase_correction_ns = 0;
}

abbrev start_work : Work
start_work = record { sa = aligner; samples_processed = 0; n_batches = 0; sent = [] }

abbrev batch : ℕ → List ℕ → Batch
batch t xs = record { head = 2; t_ns = t; period_ns = 10; batch_id = t; ec = ok; samples = xs }

abbrev no_slot : List Batch → Batch
no_slot bs = zero_batch

abbrev later : List Fetch
later = missed timeout ∷ fetched (batch 43 (3 ∷ 4 ∷ [])) ok ∷ []

aligner_worker-Leaves_example :
    (w : Work) × (aligner_worker no_slot 4
        (fetched (batch 23 (1 ∷ 2 ∷ [])) ok ∷ later ++ missed stopped ∷ [])
        start_work
      ≡ left ok w)
    × (map view w.sent
        ≡ map view []
          ++ restamp 4 10
              (first_output align_nearest 23 10)
              (fetched (batch 23 (1 ∷ 2 ∷ [])) ok ∷ later))
aligner_worker-Leaves_example =
    aligner_worker-Leaves no_slot 4 (batch 23 (1 ∷ 2 ∷ [])) ok later start_work refl
      ((refl, refl, omega arith, omega arith), (refl, ((refl, refl, omega arith, omega arith), tt)))
