-- ===== src/Generator/Samples.antt =====
-- The samples of the batches that the worker of a signal generator (bpipe/signal_generator.c) makes.
use bpipe.Base.{
  ℕ, zero, suc, ◌+◌, ◌*◌, ◌^◌, ◌<◌, ◌≡◌, refl, ap, ap₂, ◌∙◌, false, List, [], ◌∷◌, ◌++◌, arith,
  length, take, u32, u64,
}
use bpipe.Err.{ok, complete}
use bpipe.Batches.{overwrite, take-overwrite}
use bpipe.Ring.{Batch}
use bpipe.CsvSource.Rows.{Sample, timed_from, samples_of, all_samples}
use bpipe.Generator.{Waveform, Generator, Work, generated, next_batch}

module _ (wave : Waveform → ℕ → ℕ) where
  length-generated : (form : Waveform) (t p i n : ℕ) → length (generated wave form t p i n) ≡ n
  unfolding generated
  length-generated form t p i zero = refl
  length-generated form t p i (suc n) = ap suc (length-generated form t p (i + 1) n)

  -- The samples from the number `i` on, `n` of them.
  abbrev pub waves : Waveform → ℕ → ℕ → ℕ → ℕ → List Sample
  waves form start period_ns i zero = []
  waves form start period_ns i (suc n) =
      (u64 (start + i * period_ns), wave form (u64 (start + i * period_ns)))
      ∷ waves form start period_ns (i + 1) n

  pub waves-add :
      (form : Waveform) (start p i m n : ℕ)
      → waves form start p i (m + n) ≡ waves form start p i m ++ waves form start p (i + m) n
  waves-add form start p i zero n =
      ap (λ (k : ℕ). waves form start p i k) {x = 0 + n} {y = n} (omega arith)
      ∙ ap (λ (k : ℕ). waves form start p k n) {x = i} {y = i + 0} (omega arith)
  waves-add form start p i (suc m) n =
      ap (λ (k : ℕ). waves form start p i k) {x = suc m + n} {y = suc (m + n)} (omega arith)
      ∙ ap (◌∷◌ (u64 (start + i * p), wave form (u64 (start + i * p)))) (
          waves-add form start p (i + 1) m n
          ∙ ap (λ (k : ℕ). waves form start p (i + 1) m ++ waves form start p k n) {x = i + 1 + m}
              {y = i + suc m} (omega arith))

  pub wrapped : (start p g i : ℕ) → u64 (u64 (start + g * p) + i * p) ≡ u64 (start + (g + i) * p)
  wrapped start p g i = let e : (g + i) * p ≡ g * p + i * p = grind arith in omega (arith, e)

  -- The samples of a batch that starts at the sample `g`.
  timed_from-generated :
      (form : Waveform) (start p g i n : ℕ)
      → timed_from (u64 (start + g * p)) p i (generated wave form (u64 (start + g * p)) p i n)
        ≡ waves form start p (g + i) n
  unfolding generated
  timed_from-generated form start p g i zero = refl
  timed_from-generated form start p g i (suc n) =
      ap₂ (λ (t : ℕ) (l : List Sample). (t, wave form t) ∷ l) (wrapped start p g i)
        (timed_from-generated form start p g (i + 1) n
          ∙ ap (λ (k : ℕ). waves form start p k n) {x = g + (i + 1)} {y = g + i + 1} (omega arith))

  pub samples_of-next :
      (sg : Generator) (start g n : ℕ) (slot : Batch)
      → sg.period_ns < 2 ^ 32
      → sg.next_t_ns ≡ u64 (start + g * sg.period_ns)
      → samples_of (next_batch wave n sg slot) ≡ waves sg.waveform start sg.period_ns g n
  samples_of-next sg start g n slot narrow e =
      let xs : List ℕ = generated wave sg.waveform sg.next_t_ns sg.period_ns 0 n in
      let size : length xs ≡ n = length-generated sg.waveform sg.next_t_ns sg.period_ns 0 n in
      let shown : take n (overwrite 0 xs slot.samples) ≡ xs =
        ap (λ (k : ℕ). take k (overwrite 0 xs slot.samples)) {x = n} {y = 0 + length xs}
          (omega (arith, size))
        ∙ take-overwrite 0 xs slot.samples (omega arith) in
      ap₂ (λ (p : ℕ) l. timed_from sg.next_t_ns p 0 l) {x = u32 sg.period_ns} {y = sg.period_ns}
        (omega (arith, narrow)) shown
      ∙ ap (λ (t : ℕ). timed_from t sg.period_ns 0 (generated wave sg.waveform t sg.period_ns 0 n))
          e
      ∙ timed_from-generated sg.waveform start sg.period_ns g 0 n
      ∙ ap (λ (k : ℕ). waves sg.waveform start sg.period_ns k n) {x = g + 0} {y = g} (omega arith)

-- All that the first sink has got from a generator that has finished.
pub record Generated (wave : Waveform → ℕ → ℕ) (sg : Generator) (w : Work) : Type 0 where
  pub batches : List Batch
  pub mark : Batch
  pub all_sent : w.sent 0 ≡ batches ++ mark ∷ []
  pub holds :
      all_samples batches ≡ waves wave sg.waveform sg.start_time_ns sg.period_ns 0 sg.max_samples
  pub ends : mark.ec ≡ complete
  pub empty : mark.head ≡ 0
  pub stops : w.running ≡ false
  pub fine : w.worker_err ≡ ok
