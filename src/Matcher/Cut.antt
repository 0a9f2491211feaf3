-- ===== src/Matcher/Cut.antt =====
-- bpipe/batch_matcher.c: what the worker has sent, and one copy of samples, when the input starts
-- on a batch boundary and has no gaps.
use mathlib.Core.List.{append_assoc, append-nil}
use native.Mathlib.Nat.{add-mul, mul_comm, mod-eq_of_lt}
use bpipe.Base.{
  ℕ, ◌+◌, ◌*◌, ◌^◌, ◌≤◌, ◌<◌, ◌≡◌, ◌≢◌, refl, sym, ap, ◌∙◌, true, inl, inr, Option, none, some,
  List, [], ◌∷◌, ◌++◌, arith, length, take, drop, length-append, u64, ◌==◌, Bool-cases, ==_iff,
}
use bpipe.Batches.{joined, joined-snoc, length-overwrite, take-overwrite}
use bpipe.Ring.{Batch}
use bpipe.Matcher.{Matcher, Work, opened, filled, counted, send, copy}

-- Full batches of `n` samples at the period `p`, one right after the other from the time `start`.
abbrev pub Grid : ℕ → ℕ → ℕ → List Batch → Type 0
Grid n p start [] = Unit
Grid n p start (b ∷ bs) =
    ((b.head ≡ n) × (b.t_ns ≡ start) × (b.period_ns ≡ p)) × Grid n p (start + p * n) bs

-- The time at which they end.
abbrev pub grid_end : ℕ → ℕ → ℕ → List Batch → ℕ
grid_end n p start [] = start
grid_end n p start (b ∷ bs) = grid_end n p (start + p * n) bs

grid_end-snoc :
    (n p start : ℕ) (bs : List Batch) (b : Batch)
    → grid_end n p start (bs ++ b ∷ []) ≡ grid_end n p start bs + p * n
grid_end-snoc n p start [] b = refl
grid_end-snoc n p start (c ∷ bs) b = grid_end-snoc n p (start + p * n) bs b

Grid-snoc :
    (n p start : ℕ) (bs : List Batch) (b : Batch)
    → Grid n p start bs
    → b.head ≡ n
    → b.t_ns ≡ grid_end n p start bs
    → b.period_ns ≡ p
    → Grid n p start (bs ++ b ∷ [])
Grid-snoc n p start [] b g h t q = ((h, t, q), tt)
Grid-snoc n p start (c ∷ bs) b (g, gs) h t q = (g, Grid-snoc n p (start + p * n) bs b gs h t q)

module _ (n p start : ℕ) where
  -- Between two output batches: what was sent holds all the samples.
  pub record Empty (done : List ℕ) (bm : Matcher) (sent : List Batch) : Type 0 where
    pub size : bm.output_batch_samples ≡ n
    pub period : bm.period_ns ≡ p
    pub batch_period : bm.batch_period_ns ≡ p * n
    pub grid : Grid n p start sent
    pub boundary : bm.next_boundary_ns ≡ grid_end n p start sent
    pub all : joined sent ≡ done
    pub clock : bm.next_boundary_ns ≡ start + length done * p

  -- Within the output batch `out`, which has room.
  pub record Ready (done : List ℕ) (out : Batch) (bm : Matcher) (sent : List Batch) : Type 0 where
    pub size : bm.output_batch_samples ≡ n
    pub period : bm.period_ns ≡ p
    pub batch_period : bm.batch_period_ns ≡ p * n
    pub grid : Grid n p start sent
    pub boundary : bm.next_boundary_ns ≡ grid_end n p start sent
    pub room : bm.accumulated < n
    pub stored : bm.accumulated ≤ length out.samples
    pub out_start : out.t_ns ≡ bm.next_boundary_ns
    pub out_period : out.period_ns ≡ p
    pub all : joined sent ++ take bm.accumulated out.samples ≡ done
    pub clock : bm.next_boundary_ns + bm.accumulated * p ≡ start + length done * p

  abbrev pub Inv : List ℕ → Option Batch → Matcher → List Batch → Type 0
  Inv done none bm sent = Empty done bm sent
  Inv done (some out) bm sent = Ready done out bm sent

  pub Ready-opened :
      (done : List ℕ) (slot : Batch) (bm : Matcher) (sent : List Batch)
      → 0 < n
      → Empty done bm sent
      → Ready done (opened bm slot) (record bm { accumulated = 0 }) sent
  Ready-opened done slot bm sent pos e = record {
    size = e.size;
    period = e.period;
    batch_period = e.batch_period;
    grid = e.grid;
    boundary = e.boundary;
    room = pos;
    stored = omega arith;
    out_start = refl;
    out_period = e.period;
    all = append-nil (joined sent) ∙ e.all;
    clock = omega (arith, e.clock);
  }

  -- The worker after a copy of `xs` to a ready output batch.
  module _ (done xs : List ℕ) (out : Batch) (bm : Matcher) (w : Work) (input : Batch)
      (r : Ready done out bm w.sent) (eq : take (length xs) (drop w.input_idx input.samples) ≡ xs)
      (fits : bm.accumulated + length xs ≤ n) (word : n < 2 ^ 64)
      (time : start + length done * p + p * n < 2 ^ 64) where
    abbrev out' : Batch
    out' = filled input (length xs) out bm w

    abbrev bm' : Matcher
    bm' = counted (length xs) bm

    moved : u64 (bm.accumulated + length xs) ≡ bm.accumulated + length xs
    moved = mod-eq_of_lt (omega arith)

    joined-copied : joined w.sent ++ take bm'.accumulated out'.samples ≡ done ++ xs
    joined-copied =
        rw (eq, moved, take-overwrite bm.accumulated xs out.samples r.stored)
          (sym (append_assoc (joined w.sent) (take bm.accumulated out.samples) xs)
            ∙ ap (λ (l : List ℕ). l ++ xs) r.all)

    copied_time :
        bm.next_boundary_ns + (bm.accumulated + length xs) * p ≡ start + length (done ++ xs) * p
    copied_time = omega (
      arith,
      r.clock,
      add-mul bm.accumulated (length xs) p,
      add-mul (length done) (length xs) p,
      ap (λ (k : ℕ). k * p) (length-append done xs),
    )

    kept : bm.accumulated + length xs ≢ n → Ready (done ++ xs) out' bm' w.sent
    kept ne = record {
      size = r.size;
      period = r.period;
      batch_period = r.batch_period;
      grid = r.grid;
      boundary = r.boundary;
      room = omega (arith, moved);
      stored = rw (eq, moved) (length-overwrite bm.accumulated xs out.samples r.stored);
      out_start = r.out_start;
      out_period = r.out_period;
      all = joined-copied;
      clock = rw moved copied_time;
    }

    next : u64 (bm.next_boundary_ns + bm.batch_period_ns) ≡ bm.next_boundary_ns + p * n
    next = rw r.batch_period (mod-eq_of_lt (omega (arith, r.clock)))

    sent_full :
        bm.accumulated + length xs ≡ n
        → Empty (done ++ xs) (send (length xs) out' bm' w).bm (send (length xs) out' bm' w).sent
    sent_full e =
        let b : Batch = record out' { head = bm'.accumulated; batch_id = bm'.batches_matched } in
        record {
          size = r.size;
          period = r.period;
          batch_period = r.batch_period;
          grid =
              Grid-snoc n p start w.sent b r.grid (moved ∙ e) (r.out_start ∙ r.boundary)
                r.out_period;
          boundary =
              next ∙ ap (λ (t : ℕ). t + p * n) r.boundary ∙ sym (grid_end-snoc n p start w.sent b);
          all = joined-snoc w.sent b ∙ joined-copied;
          clock = next ∙ omega (arith, copied_time, mul_comm p n, ap (λ (k : ℕ). k * p) e);
        }

    pub copy-Inv :
        Inv
          (done ++ xs)
          (copy input (length xs) out bm w).output
          (copy input (length xs) out bm w).bm
          (copy input (length xs) out bm w).sent
    unfolding copy
    copy-Inv = elim (Bool-cases (bm'.accumulated == bm'.output_batch_samples)) [
      | inl y ↦
          rw y
            (sent_full (sym moved ∙ (==_iff bm'.accumulated bm'.output_batch_samples).0 y ∙ r.size))
      | inr no_room ↦ rw no_room (
          kept (λ e.
            let full : (bm'.accumulated == bm'.output_batch_samples) ≡ true =
              (==_iff bm'.accumulated bm'.output_batch_samples).1 (moved ∙ e ∙ sym r.size) in
            cc))
    ]
