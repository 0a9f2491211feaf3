-- ===== src/Matcher/Whole.antt =====
-- batch_matcher_worker (bpipe/batch_matcher.c) from its start to the end of its input.
use mathlib.Core.List.{append_assoc, append-nil}
use native.Mathlib.Nat.{
  add-mul, mul_left_comm, mul-mod_right, mod-eq_of_lt, mul-le-mul_right, mul-le-mul_left,
}
use bpipe.Base.{
  ℕ, ◌+◌, ◌*◌, ◌%◌, ◌^◌, ◌≤◌, ◌<◌, ◌≡◌, refl, sym, ap, ap₂, ◌∙◌, true, false, inl, inr, some, List,
  [], ◌∷◌, ◌++◌, arith, length, take, length-append, length-take, u64, ◌==◌, ◌⊎◌, ==_iff, ==_false,
  subst,
}
use bpipe.Err.{Ec, ok, timeout, complete, stopped}
use bpipe.Batches.{readable}
use bpipe.Ring.{Batch}
use bpipe.Matcher.{
  Matcher, Work, process, fresh, released, with_boundary, Exit, goes_on, left, Fetch, fetched,
  missed, find_boundary, first, finish, worker, fetches,
}
use bpipe.Matcher.Cut.{Inv}
use bpipe.Matcher.Stream.{process-At, process-first_batch}
use bpipe.Matcher.Boundary.{find_boundary-some}
use bpipe.Matcher.Flush.{Sent, finish-Sent}

-- Input at the period `p` from the time `t` on without a gap, each batch with a round of the loop
-- for each of its samples; a fetch may time out.
abbrev pub Follows : ℕ → ℕ → List Fetch → Type 0
Follows p t [] = Unit
Follows p t (missed e ∷ is) = (e ≡ timeout) × Follows p t is
Follows p t (fetched rounds b ∷ is) =
    ((b.t_ns ≡ t) × (b.period_ns ≡ p) × (b.head ≤ length b.samples) × (b.head ≤ rounds))
    × Follows p (t + b.head * p) is

-- Its samples.
abbrev pub supplied : List Fetch → List ℕ
supplied [] = []
supplied (missed e ∷ is) = supplied is
supplied (fetched rounds b ∷ is) = readable b ++ supplied is

module _ (slot : List Batch → Batch) (n p start : ℕ) where
  module _ (pos : 0 < n) (p_pos : 0 < p) (word : n < 2 ^ 64) where
    abbrev Early : ℕ → Type 0
    Early k = (k < 2 ^ 64) × (start + k * p + p * n < 2 ^ 64)

    early : (k m : ℕ) → k ≤ m → start + m * p + p * n < 2 ^ 64 → Early k
    early k m h time =
        let times : k * p ≤ m * p = mul-le-mul_right p h in
        let counts : k * 1 ≤ k * p = mul-le-mul_left {m = 1} {n = p} k (omega arith) in
        (omega arith, omega arith)

    length-next :
        (b : Batch) (before later : List ℕ)
        → b.head ≤ length b.samples
        → (length (before ++ readable b) ≡ length before + b.head)
          × (length (before ++ (readable b ++ later)) ≡ length before + b.head + length later)
    length-next b before later h =
        let seen = length-take b.head b.samples h in
        (
          omega (arith, length-append before (readable b)),
          omega
              (arith, length-append before (readable b ++ later), length-append (readable b) later),
        )

    -- The loop over the samples of the next batch.
    batch-Inv :
        (rounds : ℕ) (input : Batch) (before : List ℕ) (w : Work)
        → Inv n p start before w.output w.bm w.sent
        → input.t_ns ≡ start + length before * p
        → input.head ≤ length input.samples
        → input.head ≤ rounds
        → input.head < 2 ^ 64
        → start + (length before + input.head) * p + p * n < 2 ^ 64
        → let w' : Work =
            process slot rounds input
              (record w { input_idx = 0; current_timestamp = input.t_ns }) in
          Inv n p start (before ++ readable input) w'.output w'.bm w'.sent
    batch-Inv rounds input before w inv t stored enough short time =
        let w0 : Work = record w { input_idx = 0; current_timestamp = input.t_ns } in
        let (a, e) =
          process-At n p start pos word input before stored short time slot rounds w0
            (record {
              inv =
                  subst (λ (l : List ℕ). Inv n p start l w.output w.bm w.sent)
                    (sym (append-nil before)) inv;
              now = t ∙ ap (λ (k : ℕ). start + k * p) {x = length before} (omega arith);
              within = omega arith;
            })
            (omega arith) in
        let w' : Work = process slot rounds input w0 in
        subst (λ (i : ℕ). Inv n p start (before ++ take i input.samples) w'.output w'.bm w'.sent) e
          a.inv

    -- The code with which the input ends.
    abbrev pub Ends : Ec → Type 0
    Ends e = (e ≡ complete) ⊎ (e ≡ stopped)

    abbrev ended : Ec → List Fetch
    ended e = missed e ∷ []

    fetches-ended :
        (fuel : ℕ) (e : Ec) (w : Work)
        → Ends e
        → fetches slot fuel true (ended e) w ≡ left ok (released (finish slot w))
    unfolding fetches
    fetches-ended fuel e w (inl q) = rw q refl
    fetches-ended fuel e w (inr q) = rw q refl

    fetches-timeout :
        (fuel : ℕ) (e : Ec) (is : List Fetch) (w : Work)
        → e ≡ timeout
        → fetches slot fuel true (missed e ∷ is) w ≡ fetches slot fuel true is w
    unfolding fetches
    fetches-timeout fuel e is w q = rw q refl

    fetches-batch :
        (fuel rounds : ℕ) (input : Batch) (is : List Fetch) (w : Work)
        → w.first_batch ≡ false
        → fetches slot fuel true (fetched rounds input ∷ is) w
          ≡ fetches slot fuel true is (
              process slot rounds input
                (record w { input_idx = 0; current_timestamp = input.t_ns }))
    unfolding fetches
    fetches-batch fuel rounds input is w h =
        subst
          (λ (v : Work).
            fetches slot fuel true (fetched rounds input ∷ is) v
            ≡ fetches slot fuel true is (
                process slot rounds input
                  (record v { input_idx = 0; current_timestamp = input.t_ns })))
          (ap (λ f. record w { first_batch = f }) (sym h)) refl

    -- The worker leaves its loop without an error, having sent just `samples`.
    abbrev pub Leaves : Exit Work → List ℕ → Type 0
    Leaves r samples = (w : Work) × (r ≡ left ok w) × Sent slot n p start samples w.sent

    fetches-Leaves :
        (fuel : ℕ) (e : Ec) (is : List Fetch) (before : List ℕ) (w : Work)
        → Ends e
        → w.first_batch ≡ false
        → Inv n p start before w.output w.bm w.sent
        → Follows p (start + length before * p) is
        → start + length (before ++ supplied is) * p + p * n < 2 ^ 64
        → Leaves (fetches slot fuel true (is ++ ended e) w) (before ++ supplied is)
    fetches-Leaves fuel e [] before w end h inv f time = (
      released (finish slot w),
      fetches-ended fuel e w end,
      subst (λ l. Sent slot n p start l (finish slot w).sent) (sym (append-nil before))
          (finish-Sent slot n p start before w inv),
    )
    fetches-Leaves fuel e (missed m ∷ is) before w end h inv (q, f) time =
        let (w', r, sent) = fetches-Leaves fuel e is before w end h inv f time in
        (w', fetches-timeout fuel m (is ++ ended e) w q ∙ r, sent)
    fetches-Leaves fuel e (fetched rounds b ∷ is) before w end h inv ((t, q, stored, enough), f)
          time =
        let w1 : Work =
          process slot rounds b (record w { input_idx = 0; current_timestamp = b.t_ns }) in
        let (now, total) = length-next b before (supplied is) stored in
        let next =
          early (length before + b.head) (length (before ++ (readable b ++ supplied is)))
            (omega arith) time in
        let inv1 = batch-Inv rounds b before w inv t stored enough (omega (arith, next.0)) next.1 in
        let apart : start + length before * p + b.head * p
            ≡ start + length (before ++ readable b) * p =
          omega (arith, add-mul (length before) b.head p, ap (λ (k : ℕ). k * p) now) in
        let whole : before ++ readable b ++ supplied is ≡ before ++ (readable b ++ supplied is) =
          append_assoc before (readable b) (supplied is) in
        let (w', r, sent) =
          fetches-Leaves fuel e is (before ++ readable b) w1 end
            (process-first_batch slot rounds b _ ∙ h) inv1 (subst (λ k. Follows p k is) apart f)
            (subst (λ (l : List ℕ). start + length l * p + p * n < 2 ^ 64) (sym whole) time) in
        (
          w',
          fetches-batch fuel rounds b (is ++ ended e) w h ∙ r,
          subst (λ l. Sent slot n p start l w'.sent) whole sent,
        )

    pub batch_word :
        (b : Batch) (bm : Matcher)
        → bm.output_batch_samples ≡ n
        → b.period_ns ≡ p
        → p * n < 2 ^ 64
        → u64 (b.period_ns * bm.output_batch_samples) ≡ p * n
    batch_word b bm size e time = ap u64 (ap₂ ◌*◌ e size) ∙ mod-eq_of_lt time

    pub fetches-first :
        (fuel rounds : ℕ) (b : Batch) (is : List Fetch) (bm bm' : Matcher)
        → first fuel true b bm ≡ goes_on bm'
        → fetches slot fuel true (fetched rounds b ∷ is) (fresh bm)
          ≡ fetches slot fuel true
              (fetched rounds b ∷ is)
              (record (fresh bm) { first_batch = false; bm = bm' })
    unfolding fetches
    fetches-first fuel rounds b is bm bm' h = rw (h, fetches) refl

    -- The first batch of a stream whose first sample lies in the output batch from `start` on.
    pub first-goes_on :
        (fuel q : ℕ) (b : Batch) (bm : Matcher)
        → bm.output_batch_samples ≡ n
        → b.period_ns ≡ p
        → b.t_ns % p ≡ 0
        → start ≤ b.t_ns
        → b.t_ns < start + p * n
        → start ≡ q * (p * n)
        → q < fuel
        → start + p * n < 2 ^ 64
        → first fuel true b bm ≡ goes_on (with_boundary start true b bm)
    unfolding first
    first-goes_on fuel q b bm size e phase ge below on lt time =
        let word_period = batch_word b bm size e (omega arith) in
        let regular : (b.period_ns == 0) ≡ false =
          ==_false b.period_ns 0 (λ z. absurd (omega arith)) in
        let in_phase : (b.t_ns % b.period_ns == 0) ≡ true =
          (==_iff (b.t_ns % b.period_ns) 0).1 (ap (λ (k : ℕ). b.t_ns % k) e ∙ phase) in
        let found : find_boundary fuel (u64 (b.period_ns * bm.output_batch_samples)) b.t_ns 0
            ≡ some start =
          ap (λ (x : ℕ). find_boundary fuel x b.t_ns 0) word_period
          ∙ find_boundary-some fuel q (p * n) b.t_ns 0 start lt (omega arith) ge below time in
        rw (regular, in_phase, found) refl

    -- The worker that is started on a stream that begins on a batch boundary.
    fresh-Leaves :
        (fuel q : ℕ) (e : Ec) (is : List Fetch) (bm : Matcher)
        → Ends e
        → bm.output_batch_samples ≡ n
        → Follows p start is
        → start ≡ q * (p * n)
        → q < fuel
        → start + length (supplied is) * p + p * n < 2 ^ 64
        → Leaves (fetches slot fuel true (is ++ ended e) (fresh bm)) (supplied is)
    unfolding finish
    fresh-Leaves fuel q e [] bm end size f on lt time = (
      released (finish slot (fresh bm)),
      fetches-ended fuel e (fresh bm) end,
      ([], record (slot []) { head = 0; ec = complete } ∷ [], refl, tt, (refl, refl), refl),
    )
    fresh-Leaves fuel q e (missed m ∷ is) bm end size (h, f) on lt time =
        let (w', r, sent) = fresh-Leaves fuel q e is bm end size f on lt time in
        (w', fetches-timeout fuel m (is ++ ended e) (fresh bm) h ∙ r, sent)
    fresh-Leaves fuel q e (fetched rounds b ∷ is) bm end size ((t, pe, stored, enough), f) on lt
          time =
        let w : Work = record (fresh bm) {
          first_batch = false;
          bm = with_boundary start true b bm;
        } in
        let soon = early 0 (length (supplied (fetched rounds b ∷ is))) (omega arith) time in
        let wide : p * 1 ≤ p * n = mul-le-mul_left {m = 1} {n = n} p (omega arith) in
        let phase : b.t_ns % p ≡ 0 =
          ap (λ (k : ℕ). k % p) (t ∙ on ∙ mul_left_comm q p n) ∙ mul-mod_right p (q * n) in
        let known =
          first-goes_on fuel q b bm size pe phase (omega arith) (omega arith) on lt
            (omega (arith, soon.1)) in
        let zero_off : start ≡ start + 0 * p = omega arith in
        let (w', r, sent) =
          fetches-Leaves fuel e (fetched rounds b ∷ is) [] w end refl
            (record {
              size = size;
              period = pe;
              batch_period = batch_word b bm size pe (omega (arith, soon.1));
              grid = tt;
              boundary = refl;
              all = refl;
              clock = zero_off;
            })
            (subst (λ k. Follows p k (fetched rounds b ∷ is)) zero_off ((t, pe, stored, enough), f))
            time in
        (w', fetches-first fuel rounds b (is ++ ended e) bm _ known ∙ r, sent)

    pub worker-sized :
        (fuel : ℕ) (is : List Fetch) (bm : Matcher)
        → bm.size_detected ≡ true
        → worker slot fuel true is bm ≡ fetches slot fuel true is (fresh bm)
    unfolding worker
    worker-sized fuel is bm sized = simp sized

    -- A stream that starts on a batch boundary, has one period and no gaps is cut into batches of
    -- the sink's size: when the worker reaches the end of the input it leaves without an error,
    -- having sent full batches, each starting where the one before it ends, then the samples that
    -- are left, if any, as a shorter batch, then the end mark; what they hold is just the samples
    -- of the input, in order.
    pub worker-Leaves :
        (fuel q : ℕ) (e : Ec) (is : List Fetch) (bm : Matcher)
        → Ends e
        → bm.size_detected ≡ true
        → bm.output_batch_samples ≡ n
        → Follows p start is
        → start ≡ q * (p * n)
        → q < fuel
        → start + length (supplied is) * p + p * n < 2 ^ 64
        → (w : Work) × (worker slot fuel true (is ++ missed e ∷ []) bm ≡ left ok w)
          × Sent slot n p start (supplied is) w.sent
    worker-Leaves fuel q e is bm end sized size f on lt time =
        let (w, r, sent) = fresh-Leaves fuel q e is bm end size f on lt time in
        (w, worker-sized fuel (is ++ ended e) bm sized ∙ r, sent)
