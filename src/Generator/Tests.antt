-- ===== src/Generator/Tests.antt =====
-- A generator of three samples, in batches of two.
use bpipe.Base.{ℕ, ◌+◌, ◌^◌, ◌≡◌, ◌≢◌, refl, true, false, List, [], ◌∷◌, arith}
use bpipe.Err.{Ec, ok, complete}
use bpipe.Ring.{Batch, zero_batch}
use bpipe.Generator.{Waveform, sine, Generator, generator_worker}
use bpipe.Generator.Samples.{Generated}
use bpipe.Generator.Waves.{start, generator_worker-Generated}

abbrev generator : Generator
generator = record {
  waveform = sine;
  period_ns = 5;
  next_t_ns = 0;
  samples_generated = 0;
  max_samples = 3;
  allow_aliasing = false;
  start_time_ns = 10;
}

abbrev wave : Waveform → ℕ → ℕ
wave form t = t + 1

abbrev slot : ℕ → List Batch → Batch
slot i sent = record zero_batch { samples = 0 ∷ 0 ∷ [] }

abbrev submits : List Ec
submits = ok ∷ ok ∷ ok ∷ []

first_sink :
    (generator_worker wave slot 2 true (λ i. ok) (7 ∷ 8 ∷ []) submits (start generator)).sent 0
    ≡ record zero_batch { head = 2; t_ns = 10; period_ns = 5; samples = 11 ∷ 16 ∷ [] }
      ∷ record zero_batch { head = 1; t_ns = 20; period_ns = 5; samples = 21 ∷ 0 ∷ [] }
      ∷ record zero_batch { ec = complete; samples = 0 ∷ 0 ∷ [] }
      ∷ []
unfolding generator_worker
first_sink = refl

-- A second sink gets an end mark and nothing else.
second_sink :
    (generator_worker wave slot 2 true (λ i. ok) (7 ∷ 8 ∷ []) submits (start generator)).sent 1
    ≡ record zero_batch { ec = complete; samples = 0 ∷ 0 ∷ [] } ∷ []
unfolding generator_worker
second_sink = refl

-- A batch states its period by the low 32 bits: at one of 2^32 ns it states none.
wide_period :
    (generator_worker wave slot 2 true
        (λ i. ok)
        (7 ∷ [])
        (ok ∷ [])
        (start (record generator { period_ns = 2 ^ 32 }))).sent
      0
    ≡ record zero_batch { head = 2; t_ns = 10; samples = 11 ∷ 4_294_967_307 ∷ [] }
      ∷ record zero_batch { ec = complete; samples = 0 ∷ 0 ∷ [] }
      ∷ []
unfolding generator_worker
wide_period = refl

seven_ne_zero : ◌≢◌ {A = ℕ} 7 0
seven_ne_zero e = absurd (omega arith)

generator_worker-Generated_example :
    Generated wave generator
      (generator_worker wave slot 2 true (λ i. ok) (7 ∷ 8 ∷ []) submits (start generator))
generator_worker-Generated_example =
    generator_worker-Generated wave slot 2 (λ i. ok) generator 7 (8 ∷ []) submits (omega arith)
      (omega arith) (omega arith) (omega arith) (omega arith) refl seven_ne_zero refl
      (refl, (refl, (refl, tt))) (omega arith)
