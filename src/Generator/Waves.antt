-- ===== src/Generator/Waves.antt =====
-- The samples that the worker of a signal generator (bpipe/signal_generator.c) sends: those of the
-- waveform at the multiples of the period, up to the limit.
use bpipe.Base.{
  ℕ, ◌+◌, ◌*◌, ◌^◌, ◌<◌, ◌≤◌, ◌≡◌, ◌≢◌, refl, sym, ap, ap₂, ◌∙◌, subst, inl, inr, true, false, not,
  ◌&&◌, ◌||◌, List, [], ◌∷◌, ◌++◌, arith, leb, ◌==◌, ==_false, if◌then◌else◌, length, get_or, u64,
  All, Bool-cases,
}
use bpipe.Err.{Ec, ok, complete, is_ok}
use bpipe.Ring.{Batch}
use bpipe.Filter.{BufRef}
use bpipe.CsvSource.Rows.{samples_of, all_samples, all_samples-snoc}
use bpipe.Generator.{
  Waveform, Generator, Work, goes_on, breaks, appended, next_size, next_batch, advanced, round,
  send_completion, rounds, generator_worker,
}
use bpipe.Generator.Samples.{Generated, waves, waves-add, wrapped, samples_of-next}

module _ (wave : Waveform → ℕ → ℕ) (slot : ℕ → List Batch → Batch) (capacity : ℕ)
    (some_capacity : 0 < capacity) (ended : ℕ → Ec) where
  -- The end marks of the other sinks.
  send_others :
      (i : ℕ) (rs : List BufRef) (w : Work)
      → 0 < i
      → ((send_completion wave slot capacity ended i rs w).sent 0 ≡ w.sent 0)
        × ((send_completion wave slot capacity ended i rs w).running ≡ w.running)
        × ((send_completion wave slot capacity ended i rs w).worker_err ≡ w.worker_err)
  unfolding send_completion
  send_others i [] w h = (refl, refl, refl)
  send_others i (r ∷ rs) w h = elim (Bool-cases (r == 0 || not (is_ok (ended i)))) [
    | inl skipped ↦ rw (skipped, send_completion) (send_others (i + 1) rs w (omega arith))
    | inr given ↦
        let w' : Work = record w {
          sent = appended i (record (slot i (w.sent i)) { ec = complete; head = 0 }) w.sent;
        } in
        let (sent, running, fine) = send_others (i + 1) rs w' (omega arith) in
        let other : (0 == i) ≡ false = ground arith in
        rw (given, send_completion) (sent ∙ (rw other refl), running, fine)
  ]

  send_first :
      (r : BufRef) (rs : List BufRef) (w : Work)
      → r ≢ 0
      → ended 0 ≡ ok
      → ((send_completion wave slot capacity ended 0 (r ∷ rs) w).sent 0
          ≡ w.sent 0 ++ record (slot 0 (w.sent 0)) { ec = complete; head = 0 } ∷ [])
        × ((send_completion wave slot capacity ended 0 (r ∷ rs) w).running ≡ w.running)
        × ((send_completion wave slot capacity ended 0 (r ∷ rs) w).worker_err ≡ w.worker_err)
  unfolding send_completion is_ok
  send_first r rs w ne e =
      let given : (r == 0 || not (is_ok (ended 0))) ≡ false = rw (==_false r 0 ne, e) refl in
      let w' : Work = record w {
        sent = appended 0 (record (slot 0 (w.sent 0)) { ec = complete; head = 0 }) w.sent;
      } in
      rw (given, send_completion) (send_others 1 rs w' (omega arith))

  -- The worker after a round.
  abbrev size : Work → ℕ
  size w = next_size wave capacity w.sg

  abbrev stepped : Work → Work
  stepped w = record w {
    sg = advanced wave (size w) w.sg;
    sent = appended 0 (next_batch wave (size w) w.sg (slot 0 (w.sent 0))) w.sent;
    samples_processed = u64 (w.samples_processed + size w);
    n_batches = u64 (w.n_batches + 1);
  }

  round_step :
      (e : Ec) (w : Work)
      → e ≡ ok
      → round wave slot capacity e w ≡ (
          if not (w.sg.max_samples == 0)
            && leb w.sg.max_samples (u64 (w.sg.samples_generated + size w))
          then breaks (record (stepped w) { running = false })
          else goes_on (stepped w))
  unfolding round is_ok
  round_step e w h = rw h refl

  module _ (sg : Generator) (limited : 0 < sg.max_samples) (word : sg.max_samples < 2 ^ 64)
      (narrow : sg.period_ns < 2 ^ 32) where
    -- The worker when it has sent the first `g` samples.
    record IsAt (g : ℕ) (w : Work) : Type 0 where
      form : w.sg.waveform ≡ sg.waveform
      period : w.sg.period_ns ≡ sg.period_ns
      limit : w.sg.max_samples ≡ sg.max_samples
      count : w.sg.samples_generated ≡ g
      time : w.sg.next_t_ns ≡ u64 (sg.start_time_ns + g * sg.period_ns)
      kept : all_samples (w.sent 0) ≡ waves wave sg.waveform sg.start_time_ns sg.period_ns 0 g
      no_error : w.worker_err ≡ ok

    size_bounds :
        (g : ℕ) (w : Work)
        → IsAt g w
        → g < sg.max_samples
        → (0 < size w) × (g + size w ≤ sg.max_samples)
    size_bounds g w h below =
        let unlimited : (w.sg.max_samples == 0) ≡ false =
          ==_false w.sg.max_samples 0 (λ z. absurd (omega (arith, h.limit))) in
        rw unlimited (omega (arith, h.limit, h.count), omega (arith, h.limit, h.count))

    stepped-IsAt :
        (g : ℕ) (w : Work) → IsAt g w → g < sg.max_samples → IsAt (g + size w) (stepped w)
    stepped-IsAt g w h below =
        let start : ℕ = sg.start_time_ns in
        let n : ℕ = size w in
        let (_, within) = size_bounds g w h below in
        let next : samples_of (next_batch wave n w.sg (slot 0 (w.sent 0)))
            ≡ waves wave sg.waveform start sg.period_ns g n =
          samples_of-next wave w.sg start g n (slot 0 (w.sent 0)) (omega (arith, narrow, h.period))
            (h.time ∙ ap (λ (p : ℕ). u64 (start + g * p)) (sym h.period))
          ∙ ap₂ (λ f (p : ℕ). waves wave f start p g n) h.form h.period in
        record {
          form = h.form;
          period = h.period;
          limit = h.limit;
          count = omega (arith, h.count, within);
          time =
              ap₂ (λ (t p : ℕ). u64 (t + n * p)) h.time h.period
              ∙ wrapped wave start sg.period_ns g n;
          kept =
              all_samples-snoc (w.sent 0) (next_batch wave n w.sg (slot 0 (w.sent 0)))
              ∙ ap₂ (λ xs ys. xs ++ ys) h.kept next
              ∙ ap
                  (λ (k : ℕ).
                    waves wave sg.waveform start sg.period_ns 0 g
                    ++ waves wave sg.waveform start sg.period_ns k n)
                  {x = g} {y = 0 + g} (omega arith)
              ∙ sym (waves-add wave sg.waveform start sg.period_ns 0 g n);
          no_error = h.no_error;
        }

    -- Whether a round is the last one.
    last_test :
        (e : Ec) (g : ℕ) (w : Work)
        → e ≡ ok
        → g < sg.max_samples
        → IsAt g w
        → round wave slot capacity e w ≡ (
            if leb sg.max_samples (g + size w)
            then breaks (record (stepped w) { running = false })
            else goes_on (stepped w))
    last_test e g w good below h =
        let total : u64 (w.sg.samples_generated + size w) ≡ g + size w =
          (stepped-IsAt g w h below).count in
        let unlimited : (w.sg.max_samples == 0) ≡ false =
          ==_false w.sg.max_samples 0 (λ z. absurd (omega (arith, h.limit))) in
        round_step e w good
        ∙ ap₂
            (λ a b.
              if not a && b
              then breaks (record (stepped w) { running = false })
              else goes_on (stepped w))
            unlimited (ap₂ (λ (m t : ℕ). leb m t) h.limit total)

    finished-Generated :
        (r : BufRef) (rs : List BufRef) (w : Work)
        → r ≢ 0
        → ended 0 ≡ ok
        → IsAt sg.max_samples w
        → Generated wave sg
            (send_completion wave slot capacity ended 0 (r ∷ rs) (record w { running = false }))
    finished-Generated r rs w ne taken h =
        let (sent, running, fine) = send_first r rs (record w { running = false }) ne taken in
        record {
          batches = w.sent 0;
          mark = record (slot 0 (w.sent 0)) { ec = complete; head = 0 };
          all_sent = sent;
          holds = h.kept;
          ends = refl;
          empty = refl;
          stops = running;
          fine = fine ∙ h.no_error;
        }

    -- The loop, from the sample `g` on, with a round for each sample left.
    rounds-Generated :
        (r : BufRef) (rs : List BufRef) (es : List Ec) (g : ℕ) (w : Work)
        → r ≢ 0
        → ended 0 ≡ ok
        → All (λ e. e ≡ ok) es
        → g < sg.max_samples
        → sg.max_samples ≤ g + length es
        → IsAt g w
        → Generated wave sg (rounds wave slot capacity ended (r ∷ rs) es w)
    unfolding rounds
    rounds-Generated r rs [] g w ne taken hs below enough h = absurd (omega arith)
    rounds-Generated r rs (e ∷ es) g w ne taken hs below enough h =
        let (some_samples, within) = size_bounds g w h below in
        let next = stepped-IsAt g w h below in
        let test = last_test e g w hs.0 below h in
        elim (Bool-cases (leb sg.max_samples (g + size w))) [
          | inl full ↦
              let all : g + size w ≡ sg.max_samples = ground arith in
              rw (test, full, rounds)
                (finished-Generated r rs (stepped w) ne taken
                  (subst (λ (k : ℕ). IsAt k (stepped w)) all next))
          | inr more ↦
              rw (test, more, rounds)
                (rounds-Generated r rs es (g + size w) (stepped w) ne taken hs.1 (ground arith)
                  (omega arith) next)
        ]

-- What a generator starts with.
abbrev pub start : Generator → Work
start sg = record {
  sg = sg;
  running = true;
  worker_err = ok;
  samples_processed = 0;
  n_batches = 0;
  sent = λ i. [];
}

-- A signal generator that is to make a number of samples, and whose first sink takes every batch,
-- ends by itself after at most one round for each of them: it is not running, has recorded no
-- error, and has sent to that sink just so many samples, the k-th one being the value of its
-- waveform at the start plus k periods (modulo 2^64), which is also the time that its batch states
-- for it, and then an end mark; for a frequency that the period allows, and a period below 2^32 ns.
pub generator_worker-Generated :
    (wave : Waveform → ℕ → ℕ) (slot : ℕ → List Batch → Batch) (capacity : ℕ) (ended : ℕ → Ec)
    (sg : Generator) (r : BufRef) (rs : List BufRef) (es : List Ec)
    → 0 < capacity
    → 0 < sg.max_samples
    → sg.max_samples < 2 ^ 64
    → sg.start_time_ns < 2 ^ 64
    → sg.period_ns < 2 ^ 32
    → sg.samples_generated ≡ 0
    → r ≢ 0
    → ended 0 ≡ ok
    → All (λ e. e ≡ ok) es
    → sg.max_samples ≤ length es
    → Generated wave sg (generator_worker wave slot capacity true ended (r ∷ rs) es (start sg))
unfolding generator_worker
generator_worker-Generated wave slot capacity ended sg r rs es room limited word small narrow
      none_yet ne taken hs enough =
    let sinks : (length (r ∷ rs) == 0 || get_or (r ∷ rs) 0 0 == 0) ≡ false =
      ground (arith, ==_false r 0 ne) in
    let allowed : (not sg.allow_aliasing && not true) ≡ false = ground arith in
    rw (sinks, allowed, generator_worker)
      (rounds-Generated wave slot capacity room ended sg limited word narrow r rs es 0
        (record (start sg) { sg = record sg { next_t_ns = sg.start_time_ns } }) ne taken hs limited
        (omega arith)
        (record {
          form = refl;
          period = refl;
          limit = refl;
          count = none_yet;
          time = omega arith;
          kept = refl;
          no_error = refl;
        }))
