-- ===== src/Aligner/Stamps.antt =====
-- What sample_aligner_worker (bpipe/sample_aligner.c) makes of the timestamps and samples.
use mathlib.Core.List.{append_assoc, append-nil}
use native.Mathlib.Nat.{mod-lt, mod-eq_of_lt, mul-mod_right, mul-add, div-add-mod}
use bpipe.Base.{
  ℕ, ◌+◌, ◌-◌, ◌*◌, ◌/◌, ◌%◌, ◌^◌, ◌≤◌, ◌<◌, ◌≡◌, refl, sym, ap, ◌∙◌, inl, inr, true, false, List,
  [], ◌∷◌, ◌++◌, arith, ltb, lt→ltb, Bool-cases, length, take, length-take, min, u64, map,
}
use bpipe.Err.{Ec, ok, timeout, stopped, is_ok}
use bpipe.Batches.{Stamped, map-append, overwrite, take-overwrite, view}
use bpipe.Ring.{Batch}
use bpipe.Aligner.{
  Alignment, align_nearest, align_backward, align_forward, Aligner, first_output, Work, Fetch,
  fetched, missed, Exit, goes_on, left, restamped, advanced, initialize, pass_on, on_batch,
  on_fetch, aligner_worker,
}

-- How far the first output lies from the first input.
abbrev pub Shift : Alignment → ℕ → ℕ → ℕ → Type 0
Shift align_nearest t p a = (2 * t ≤ 2 * a + p) × (2 * a ≤ 2 * t + p + 1)
Shift align_backward t p a = (a ≤ t) × (t < a + p)
Shift align_forward t p a = (t < a) × (a ≤ t + p)

module _ (t p : ℕ) (pos : 0 < p) (time : t + p < 2 ^ 64) where
  abbrev phase : ℕ
  phase = t % p

  phase-lt : phase < p
  phase-lt = mod-lt t pos

  whole : p * (t / p) + phase ≡ t
  whole = div-add-mod t p

  down : t - phase ≡ p * (t / p)
  down = omega (arith, whole)

  up : u64 (t + (p - phase)) ≡ p * (t / p + 1)
  up = mod-eq_of_lt (omega (arith, phase-lt)) ∙ omega (arith, whole, mul-add p (t / p) 1, phase-lt)

  -- The first output lies on a multiple of the period: before the first input by less than one
  -- period with ALIGN_BACKWARD, after it by at most one, and never at it, with ALIGN_FORWARD, and
  -- at most half a period, rounded up, from it with ALIGN_NEAREST.
  pub first_output_lem :
      (al : Alignment) → (first_output al t p % p ≡ 0) × Shift al t p (first_output al t p)
  unfolding first_output
  first_output_lem align_nearest = elim (Bool-cases (ltb phase (p / 2))) [
    | inl y ↦ rw (y, down) (mul-mod_right p (t / p), (ground (arith, whole), ground (arith, whole)))
    | inr n ↦
        rw (n, up)
          (
            mul-mod_right p (t / p + 1),
            (
              omega (arith, whole, mul-add p (t / p) 1, phase-lt),
              ground (arith, whole, mul-add p (t / p) 1),
            ),
          )
  ]
  first_output_lem align_backward =
      rw down (mul-mod_right p (t / p), (omega (arith, whole), omega (arith, whole, phase-lt)))
  first_output_lem align_forward = rw up (
    mul-mod_right p (t / p + 1),
    (
      omega (arith, whole, mul-add p (t / p) 1, phase-lt),
      omega (arith, whole, mul-add p (t / p) 1),
    ),
  )

-- The samples of the input from the time `next` on, one after the other at the period `p`, each
-- batch cut to `capacity` samples.
abbrev pub restamp : ℕ → ℕ → ℕ → List Fetch → List Stamped
restamp capacity p next [] = []
restamp capacity p next (missed e ∷ is) = restamp capacity p next is
restamp capacity p next (fetched b submitted ∷ is) =
    let n = min b.head capacity in
    record { t_ns = next; period_ns = p; batch_id = b.batch_id; samples = take n b.samples }
    ∷ restamp capacity p (u64 (next + n * p)) is

-- Every fetch times out or gives a batch without an error, and every submit succeeds.
abbrev pub Passes : List Fetch → Type 0
Passes [] = Unit
Passes (missed e ∷ is) = (e ≡ timeout) × Passes is
Passes (fetched b submitted ∷ is) =
    ((b.ec ≡ ok) × (submitted ≡ ok) × (0 < b.period_ns) × (b.head ≤ length b.samples)) × Passes is

view-restamped :
    (n : ℕ) (sa : Aligner) (b slot : Batch)
    → n ≤ length b.samples
    → view (restamped n sa b slot) ≡ record {
      t_ns = sa.next_output_ns;
      period_ns = sa.period_ns;
      batch_id = b.batch_id;
      samples = take n b.samples;
    }
view-restamped n sa b slot h =
    ap
      (λ (xs : List ℕ). record {
        t_ns = sa.next_output_ns;
        period_ns = sa.period_ns;
        batch_id = b.batch_id;
        samples = xs;
      })
      (ap (λ (k : ℕ). take k (overwrite 0 (take n b.samples) slot.samples)) {x = n}
          {y = 0 + length (take n b.samples)} (omega (arith, length-take n b.samples h))
        ∙ take-overwrite 0 (take n b.samples) slot.samples (omega arith))

module _ (slot : List Batch → Batch) (capacity : ℕ) where
  -- The worker after a batch that it has passed on.
  abbrev passed : Batch → Work → Work
  passed b w =
      let n = min b.head capacity in
      record {
        sa = advanced n w.sa;
        samples_processed = u64 (w.samples_processed + n);
        n_batches = u64 (w.n_batches + 1);
        sent = w.sent ++ restamped n w.sa b (slot w.sent) ∷ [];
      }

  on_fetch-passed :
      (b : Batch) (submitted : Ec) (w : Work)
      → b.ec ≡ ok
      → submitted ≡ ok
      → 0 < b.period_ns
      → w.sa.initialized ≡ true
      → on_fetch slot capacity (fetched b submitted) w ≡ goes_on (passed b w)
  unfolding on_fetch pass_on is_ok
  on_fetch-passed b submitted w e s pos set_up =
      let regular : ltb 0 b.period_ns ≡ true = lt→ltb _ _ pos in
      simp (on_batch, e, s, regular, set_up)

  on_fetch-first :
      (b : Batch) (submitted : Ec) (w : Work)
      → b.ec ≡ ok
      → submitted ≡ ok
      → 0 < b.period_ns
      → w.sa.initialized ≡ false
      → on_fetch slot capacity (fetched b submitted) w
        ≡ goes_on (passed b (record w { sa = initialize b w.sa }))
  unfolding on_fetch pass_on is_ok
  on_fetch-first b submitted w e s pos h =
      let regular : ltb 0 b.period_ns ≡ true = lt→ltb _ _ pos in simp (on_batch, e, s, regular, h)

  worker-next :
      (i : Fetch) (is : List Fetch) (w w' : Work)
      → on_fetch slot capacity i w ≡ goes_on w'
      → aligner_worker slot capacity (i ∷ is) w ≡ aligner_worker slot capacity is w'
  unfolding aligner_worker
  worker-next i is w w' h = rw (h, aligner_worker) refl

  abbrev ended : List Fetch
  ended = missed stopped ∷ []

  worker-ended : (w : Work) → aligner_worker slot capacity ended w ≡ left ok w
  unfolding aligner_worker on_fetch
  worker-ended w = refl

  worker-timeout :
      (e : Ec) (is : List Fetch) (w : Work)
      → e ≡ timeout
      → aligner_worker slot capacity (missed e ∷ is) w ≡ aligner_worker slot capacity is w
  unfolding aligner_worker on_fetch
  worker-timeout e is w h = rw h refl

  -- The worker leaves without an error, and its sink has got `more` after `sent`.
  abbrev pub Leaves : Exit → List Batch → List Stamped → Type 0
  Leaves r sent more = (w : Work) × (r ≡ left ok w) × (map view w.sent ≡ map view sent ++ more)

  view-passed :
      (b : Batch) (w : Work) (more : List Stamped)
      → b.head ≤ length b.samples
      → map view (passed b w).sent ++ more
        ≡ map view w.sent
          ++ (record {
            t_ns = w.sa.next_output_ns;
            period_ns = w.sa.period_ns;
            batch_id = b.batch_id;
            samples = take (min b.head capacity) b.samples;
          }
              ∷ more)
  view-passed b w more h =
      ap (λ l. l ++ more)
        (map-append w.sent (restamped (min b.head capacity) w.sa b (slot w.sent) ∷ []))
      ∙ append_assoc (map view w.sent) _ more
      ∙ ap (λ (x : Stamped). map view w.sent ++ (x ∷ more))
          (view-restamped (min b.head capacity) w.sa b (slot w.sent) (omega arith))

  running-Leaves :
      (is : List Fetch) (w : Work)
      → Passes is
      → w.sa.initialized ≡ true
      → Leaves
          (aligner_worker slot capacity (is ++ ended) w)
          w.sent
          (restamp capacity w.sa.period_ns w.sa.next_output_ns is)
  running-Leaves [] w f set_up = (w, worker-ended w, sym (append-nil (map view w.sent)))
  running-Leaves (missed e ∷ is) w (late, f) set_up =
      let (w', r, sent) = running-Leaves is w f set_up in
      (w', worker-timeout e (is ++ ended) w late ∙ r, sent)
  running-Leaves (fetched b submitted ∷ is) w ((e, s, pos, stored), f) set_up =
      let (w', r, sent) = running-Leaves is (passed b w) f set_up in
      (
        w',
        worker-next (fetched b submitted) (is ++ ended) w (passed b w)
              (on_fetch-passed b submitted w e s pos set_up)
            ∙ r,
        sent ∙ view-passed b w _ stored,
      )

  -- From its first batch to the stop of its input a sample aligner passes each batch on with its
  -- samples, cut to the sink's capacity, and its number, at times that follow each other without a
  -- gap at the first batch's period from the aligned time of the first batch, whatever the times
  -- and periods of the later ones; this for fetches that only time out, and submits that succeed.
  pub aligner_worker-Leaves :
      (b : Batch) (submitted : Ec) (is : List Fetch) (w : Work)
      → w.sa.initialized ≡ false
      → Passes (fetched b submitted ∷ is)
      → (w' : Work) × (aligner_worker slot capacity
            (fetched b submitted ∷ is ++ missed stopped ∷ [])
            w
          ≡ left ok w')
        × (map view w'.sent
            ≡ map view w.sent
              ++ restamp capacity b.period_ns
                  (first_output w.sa.alignment b.t_ns b.period_ns)
                  (fetched b submitted ∷ is))
  unfolding initialize
  aligner_worker-Leaves b submitted is w new ((e, s, pos, stored), f) =
      let w0 : Work = record w { sa = initialize b w.sa } in
      let (w', r, sent) = running-Leaves is (passed b w0) f refl in
      (
        w',
        worker-next (fetched b submitted) (is ++ ended) w (passed b w0)
              (on_fetch-first b submitted w e s pos new)
            ∙ r,
        sent ∙ view-passed b w0 _ stored,
      )
