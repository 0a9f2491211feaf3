-- ===== src/Matcher/Stuck.antt =====
-- batch_matcher_worker (bpipe/batch_matcher.c) on an input whose first sample does not lie on a
-- boundary between output batches.
use native.Mathlib.Nat.{
  add-mul, mul_comm, mod-eq_of_lt, mul-le-mul_right, mul-div_cancel, add-mul-mod_self_right,
  mul-mod_right, mul_left_comm,
}
use bpipe.Base.{
  ℕ, zero, suc, ◌+◌, ◌-◌, ◌*◌, ◌/◌, ◌%◌, ◌^◌, ◌≤◌, ◌<◌, ◌≡◌, refl, sym, ap, ap₂, ◌∙◌, true, false,
  some, List, [], ◌∷◌, arith, min, u64, ◌==◌, ltb, lt→ltb, ==_false, subst,
}
use bpipe.Ring.{Batch}
use bpipe.Matcher.{
  Matcher, Work, amount, counted, filled, keep, opened, copy, round, process, fresh, with_boundary,
  goes_on, fetched, first, fetches, worker,
}
use bpipe.Matcher.Stream.{round-none, round-some}
use bpipe.Matcher.Whole.{first-goes_on, batch_word, fetches-first, worker-sized}

module _ (n p : ℕ) (p_pos : 0 < p) (word : n < 2 ^ 64) where
  -- `j` samples are copied if the output batch's time ends after them.
  amount-late :
      (bm : Matcher) (remaining current j : ℕ)
      → bm.output_batch_samples ≡ n
      → bm.period_ns ≡ p
      → bm.batch_period_ns ≡ p * n
      → bm.accumulated + j < n
      → j < remaining
      → current + j * p ≡ bm.next_boundary_ns + p * n
      → bm.next_boundary_ns + p * n + p * n < 2 ^ 64
      → amount bm remaining current ≡ j
  amount-late bm remaining current j hn hp hb room more e time =
      let k : ℕ = min remaining (n - bm.accumulated) in
      let space : u64 (bm.output_batch_samples + 2 ^ 64 - bm.accumulated) ≡ n - bm.accumulated =
        omega arith in
      let below : k * p ≤ n * p = mul-le-mul_right p (omega arith) in
      let above : (j + 1) * p ≤ k * p = mul-le-mul_right p (omega arith) in
      let bound : current + k * p < 2 ^ 64 = omega (arith, mul_comm p n) in
      let past : ltb (bm.next_boundary_ns + p * n) (current + k * p) ≡ true =
        lt→ltb _ _ (omega (arith, add-mul j 1 p)) in
      rw
        (
          space,
          hp,
          hb,
          mod-eq_of_lt bound,
          mod-eq_of_lt {n = bm.next_boundary_ns + p * n} {m = 2 ^ 64} (omega arith),
          past,
        )
        (ap (λ (m : ℕ). m / p) {x = u64 (bm.next_boundary_ns + p * n + 2 ^ 64 - current)}
            {y = j * p} (omega arith)
          ∙ mul-div_cancel j p_pos)

  -- The output batch `out` has room, and the time has come to its end.
  pub record Late (input : Batch) (out : Batch) (bm : Matcher) (w : Work) : Type 0 where
    pub sent_none : w.sent ≡ []
    pub before_end : w.input_idx < input.head
    pub idx_word : w.input_idx < 2 ^ 64
    pub size : bm.output_batch_samples ≡ n
    pub period : bm.period_ns ≡ p
    pub batch_period : bm.batch_period_ns ≡ p * n
    pub room : bm.accumulated < n
    pub now : w.current_timestamp ≡ bm.next_boundary_ns + p * n
    pub time : bm.next_boundary_ns + p * n + p * n < 2 ^ 64

  -- The worker is at such a point with the output batch that it holds.
  abbrev Waits : Batch → Work → Type 0
  Waits input w = (out : Batch) × (w.output ≡ some out) × Late input out w.bm w

  copy-keep :
      (input : Batch) (k : ℕ) (out : Batch) (bm : Matcher) (w : Work)
      → bm.output_batch_samples ≡ n
      → bm.accumulated + k < n
      → copy input k out bm w ≡ keep k (filled input k out bm w) (counted k bm) w
  unfolding copy
  copy-keep input k out bm w size room =
      let open_yet : (u64 (bm.accumulated + k) == bm.output_batch_samples) ≡ false =
        ==_false _ _ (λ e.
          absurd
            (omega (arith, mod-eq_of_lt {n = bm.accumulated + k} {m = 2 ^ 64} (omega arith)))) in
      simp open_yet

  round-Waits :
      (slot : List Batch → Batch) (input : Batch) (w : Work)
      → Waits input w
      → Waits input (round slot input w)
  round-Waits slot input w (out, has_out, l) =
      let on_time : ltb w.current_timestamp w.bm.next_boundary_ns ≡ false = ground (arith, l.now) in
      let none_copied =
        amount-late w.bm (input.head - w.input_idx) w.current_timestamp 0 l.size l.period
          l.batch_period (omega (arith, l.room)) (omega (arith, l.before_end))
          (omega (arith, l.now)) l.time in
      let same : round slot input w ≡ keep 0 (filled input 0 out w.bm w) (counted 0 w.bm) w =
        round-some slot input w out on_time has_out
        ∙ ap (λ k. copy input k out w.bm w) none_copied
        ∙ copy-keep input 0 out w.bm w l.size (omega (arith, l.room)) in
      subst (Waits input) (sym same) (
        filled input 0 out w.bm w,
        refl,
        record {
          sent_none = l.sent_none;
          before_end = omega (arith, l.before_end, l.idx_word);
          idx_word = omega (arith, l.idx_word);
          size = l.size;
          period = l.period;
          batch_period = l.batch_period;
          room = omega (arith, l.room);
          now = omega (arith, l.now, l.time, l.period);
          time = l.time;
        },
      )

  process-Waits :
      (slot : List Batch → Batch) (rounds : ℕ) (input : Batch) (w : Work)
      → Waits input w
      → Waits input (process slot rounds input w)
  unfolding process
  process-Waits slot zero input w h = h
  process-Waits slot (suc rounds) input w (out, has_out, l) =
      rw (lt→ltb w.input_idx input.head l.before_end) (
        process-Waits slot rounds input (round slot input w)
          (round-Waits slot input w (out, has_out, l)))

  module _ (slot : List Batch → Batch) (q d : ℕ) (input : Batch) (bm : Matcher)
      (size : bm.output_batch_samples ≡ n) (period : input.period_ns ≡ p)
      (starts : input.t_ns ≡ q * (p * n) + d * p) (between : 0 < d) (inside : d < n)
      (long : n < d + input.head) (time : q * (p * n) + p * n + p * n < 2 ^ 64) where
    abbrev boundary : ℕ
    boundary = q * (p * n)

    abbrev started : Work
    started = record (fresh bm) {
      first_batch = false;
      bm = with_boundary boundary true input bm;
      current_timestamp = input.t_ns;
    }

    -- The whole batch period holds `d` samples and those that follow them.
    split : d * p + (n - d) * p ≡ p * n
    split =
        sym (add-mul d (n - d) p)
        ∙ ap (λ (k : ℕ). k * p) {x = d + (n - d)} {y = n} (omega arith)
        ∙ mul_comm n p

    word_period : u64 (input.period_ns * bm.output_batch_samples) ≡ p * n
    word_period =
        batch_word slot n p boundary (omega arith) p_pos word input bm size period (omega arith)

    round-started : Waits input (round slot input started)
    round-started =
        let bm0 : Matcher = record started.bm { accumulated = 0 } in
        let out : Batch = opened bm0 (slot []) in
        let cut : amount bm0 (input.head - 0) input.t_ns ≡ n - d =
          amount-late bm0 (input.head - 0) input.t_ns (n - d) size period word_period (omega arith)
            (omega arith) (omega (arith, split)) time in
        let same : round slot input started
            ≡ keep (n - d) (filled input (n - d) out bm0 started) (counted (n - d) bm0) started =
          round-none slot input started (ground arith) refl
          ∙ ap (λ k. copy input k out bm0 started) cut
          ∙ copy-keep input (n - d) out bm0 started size (omega arith) in
        subst (Waits input) (sym same) (
          filled input (n - d) out bm0 started,
          refl,
          record {
            sent_none = refl;
            before_end = omega arith;
            idx_word = omega arith;
            size = size;
            period = period;
            batch_period = word_period;
            room = omega arith;
            now =
                ap u64 (ap₂ ◌+◌ starts (ap (λ (k : ℕ). (n - d) * k) period)) ∙ omega (arith, split);
            time = time;
          },
        )

    abbrev Starves : Work → Type 0
    Starves w = (w.sent ≡ []) × (w.input_idx < input.head)

    process-started : (rounds : ℕ) → Starves (process slot rounds input started)
    unfolding process
    process-started zero = (refl, omega arith)
    process-started (suc rounds) =
        let (out, has_out, l) =
          process-Waits slot rounds input (round slot input started) round-started in
        rw (lt→ltb 0 input.head (omega arith)) (l.sent_none, l.before_end)

    phase : input.t_ns % p ≡ 0
    phase =
        ap (λ (k : ℕ). k % p) starts
        ∙ add-mul-mod_self_right (q * (p * n)) d p
        ∙ ap (λ (k : ℕ). k % p) (mul_left_comm q p n)
        ∙ mul-mod_right p (q * n)

    inside_period : d * p < p * n
    inside_period =
        let more : (d + 1) * p ≤ n * p = mul-le-mul_right p (omega arith) in
        omega (arith, add-mul d 1 p, mul_comm p n)

    worker-first :
        (fuel rounds : ℕ) (bm' : Matcher)
        → bm.size_detected ≡ true
        → first fuel true input bm ≡ goes_on bm'
        → worker slot fuel true (fetched rounds input ∷ []) bm
          ≡ goes_on (
              process slot rounds input (record (fresh bm) {
                first_batch = false;
                bm = bm';
                current_timestamp = input.t_ns;
              }))
    unfolding fetches
    worker-first fuel rounds bm' sized h =
        worker-sized slot n p boundary (omega arith) p_pos word fuel (fetched rounds input ∷ []) bm
          sized
        ∙ fetches-first slot n p boundary (omega arith) p_pos word fuel rounds input [] bm bm' h

    -- A worker whose first sample lies on the period but not on a boundary between output batches,
    -- in a batch that reaches beyond the next boundary, never leaves the loop over that batch of
    -- its own accord: after any number of rounds it has sent nothing and has samples left.
    pub worker-Starves :
        (fuel rounds : ℕ)
        → bm.size_detected ≡ true
        → q < fuel
        → (w : Work) × (worker slot fuel true (fetched rounds input ∷ []) bm ≡ goes_on w)
          × (w.sent ≡ [])
          × (w.input_idx < input.head)
    worker-Starves fuel rounds sized lt = (
      process slot rounds input started,
      worker-first fuel rounds _ sized (
          first-goes_on slot n p boundary (omega arith) p_pos word fuel q input bm size period phase
            (omega arith) (omega (arith, inside_period)) refl lt (omega arith)),
      (process-started rounds).0,
      (process-started rounds).1,
    )
