-- ===== src/Tee/Outputs.antt =====
-- What each output of a tee (bpipe/tee.c) gets, whatever becomes of the others.
use mathlib.Core.List.{append_assoc, append-nil}
use bpipe.Base.{
  ℕ, zero, suc, ◌+◌, ◌≤◌, ◌<◌, ◌≡◌, ◌≢◌, refl, sym, ap, ap₂, ◌∙◌, inl, inr, Bool, true, false, List,
  [], ◌∷◌, ◌++◌, ◌==◌, ==_iff, ==_false, ==_refl, if◌then◌else◌, arith, length, take, length-take,
  Bool-cases, min, map, subst,
}
use bpipe.Err.{Ec, timeout, is_ok}
use bpipe.Batches.{Stamped, map-append, overwrite, readable, take-overwrite, view}
use bpipe.Ring.{Batch}
use bpipe.Tee.{
  Tee, Fetch, fetched, missed, copied, pushed, output_round, distribute, on_batch, tee_worker,
}

view-copied :
    (input slot : Batch) → input.head ≤ length input.samples → view (copied input slot) ≡ view input
view-copied input slot h =
    ap
      (λ (xs : List ℕ). record {
        t_ns = input.t_ns;
        period_ns = input.period_ns;
        batch_id = input.batch_id;
        samples = xs;
      })
      (ap (λ (k : ℕ). take k (overwrite 0 (readable input) slot.samples)) {x = input.head}
          {y = 0 + length (readable input)} (omega (arith, length-take input.head input.samples h))
        ∙ take-overwrite 0 (readable input) slot.samples (omega arith))

-- The batches that the port `j` accepts.
abbrev pub received : ℕ → List Fetch → List Stamped
received j [] = []
received j (missed e ∷ is) = received j is
received j (fetched input submitted ∷ is) =
    if is_ok (submitted j) then view input ∷ received j is else received j is

-- Every fetch times out or gives a batch.
abbrev pub Sound : List Fetch → Type 0
Sound [] = Unit
Sound (missed e ∷ is) = (e ≡ timeout) × Sound is
Sound (fetched input submitted ∷ is) = (input.head ≤ length input.samples) × Sound is

module _ (slot : ℕ → List Batch → Batch) where
  module _ (input : Batch) (submitted : ℕ → Ec) where
    round-other :
        (i j : ℕ) (t : Tee) → j ≢ i → (output_round slot input submitted i t).sent j ≡ t.sent j
    unfolding output_round
    round-other i j t ne = rw (==_false j i ne) refl

    round_self :
        (i : ℕ) (t : Tee)
        → (output_round slot input submitted i t).sent i
          ≡ pushed slot input submitted t.sinks i (t.sent i)
    unfolding output_round
    round_self i t = rw (==_refl i) refl

    round-sinks : (i : ℕ) (t : Tee) → (output_round slot input submitted i t).sinks ≡ t.sinks
    unfolding output_round
    round-sinks i t = refl

    -- A port that the loop has passed keeps what it got.
    distribute-past :
        (n i j : ℕ) (t : Tee) → j < i → (distribute slot input submitted n i t).sent j ≡ t.sent j
    unfolding distribute
    distribute-past zero i j t lt = refl
    distribute-past (suc n) i j t lt =
        distribute-past n (i + 1) j (output_round slot input submitted i t) (omega arith)
        ∙ round-other i j t (λ e. absurd (omega arith))

    distribute-sent :
        (n i j : ℕ) (t : Tee)
        → i ≤ j
        → j < i + n
        → (distribute slot input submitted n i t).sent j
          ≡ pushed slot input submitted t.sinks j (t.sent j)
    unfolding distribute
    distribute-sent zero i j t le lt = absurd (omega arith)
    distribute-sent (suc n) i j t le lt = elim (Bool-cases (j == i)) [
      | inl y ↦
          let e : j ≡ i = (==_iff j i).0 y in
          distribute-past n (i + 1) j (output_round slot input submitted i t) (omega arith)
          ∙ subst
              (λ (k : ℕ).
                (output_round slot input submitted i t).sent k
                ≡ pushed slot input submitted t.sinks k (t.sent k))
              (sym e) (round_self i t)
      | inr n_eq ↦
          let ne : j ≢ i = λ e. let y : (j == i) ≡ true = (==_iff j i).1 e in cc in
          distribute-sent n (i + 1) j (output_round slot input submitted i t) (ground arith)
            (omega arith)
          ∙ ap₂ (λ s l. pushed slot input submitted s j l) (round-sinks i t) (round-other i j t ne)
    ]

    distribute-sinks :
        (n i : ℕ) (t : Tee)
        → ((distribute slot input submitted n i t).sinks ≡ t.sinks)
          × ((distribute slot input submitted n i t).n_outputs ≡ t.n_outputs)
          × ((distribute slot input submitted n i t).n_sinks ≡ t.n_sinks)
    unfolding distribute output_round
    distribute-sinks zero i t = (refl, refl, refl)
    distribute-sinks (suc n) i t =
        distribute-sinks n (i + 1) (output_round slot input submitted i t)

  pushed-taken :
      (input : Batch) (submitted : ℕ → Ec) (sinks : ℕ → ℕ) (j : ℕ) (sent : List Batch)
      → (sinks j == 0) ≡ false
      → is_ok (submitted j) ≡ true
      → pushed slot input submitted sinks j sent ≡ sent ++ copied input (slot j sent) ∷ []
  unfolding pushed
  pushed-taken input submitted sinks j sent c y = rw (c, y) refl

  pushed-refused :
      (input : Batch) (submitted : ℕ → Ec) (sinks : ℕ → ℕ) (j : ℕ) (sent : List Batch)
      → (sinks j == 0) ≡ false
      → is_ok (submitted j) ≡ false
      → pushed slot input submitted sinks j sent ≡ sent
  unfolding pushed
  pushed-refused input submitted sinks j sent c n = rw (c, n) refl

  -- What one input batch adds at a port that is connected.
  view-pushed :
      (input : Batch) (submitted : ℕ → Ec) (is : List Fetch) (sinks : ℕ → ℕ) (j : ℕ)
      (sent : List Batch)
      → (sinks j == 0) ≡ false
      → input.head ≤ length input.samples
      → map view (pushed slot input submitted sinks j sent) ++ received j is
        ≡ map view sent ++ received j (fetched input submitted ∷ is)
  view-pushed input submitted is sinks j sent c h = elim (Bool-cases (is_ok (submitted j))) [
    | inl y ↦ rw y (
        ap (λ l. map view l ++ received j is) (pushed-taken input submitted sinks j sent c y)
        ∙ ap (λ l. l ++ received j is) (map-append sent (copied input (slot j sent) ∷ []))
        ∙ append_assoc (map view sent) _ (received j is)
        ∙ ap (λ (x : Stamped). map view sent ++ (x ∷ received j is))
            (view-copied input (slot j sent) h))
    | inr n ↦
        rw n
          (ap (λ l. map view l ++ received j is) (pushed-refused input submitted sinks j sent c n))
  ]

  on_batch-sent :
      (input : Batch) (submitted : ℕ → Ec) (j : ℕ) (t : Tee)
      → j < t.n_outputs
      → j < t.n_sinks
      → (on_batch slot input submitted t).sent j ≡ pushed slot input submitted t.sinks j (t.sent j)
  unfolding on_batch
  on_batch-sent input submitted j t lo ls =
      distribute-sent input submitted (min t.n_outputs t.n_sinks) 0 j t (omega arith) (omega arith)

  on_batch-sinks :
      (input : Batch) (submitted : ℕ → Ec) (t : Tee)
      → ((on_batch slot input submitted t).sinks ≡ t.sinks)
        × ((on_batch slot input submitted t).n_outputs ≡ t.n_outputs)
        × ((on_batch slot input submitted t).n_sinks ≡ t.n_sinks)
  unfolding on_batch
  on_batch-sinks input submitted t =
      distribute-sinks input submitted (min t.n_outputs t.n_sinks) 0 t

  worker-timeout :
      (e : Ec) (is : List Fetch) (t : Tee)
      → e ≡ timeout
      → tee_worker slot (missed e ∷ is) t ≡ tee_worker slot is t
  unfolding tee_worker
  worker-timeout e is t h = rw h refl

  -- Each connected output of a tee, among the first n_outputs and the first n_sinks, gets every
  -- input batch that its own bb_submit accepts, in order, with its samples, number and times, and
  -- nothing else, whatever the other outputs do; this for an input that times out or gives batches.
  pub tee_worker-sent :
      (is : List Fetch) (j : ℕ) (t : Tee)
      → Sound is
      → j < t.n_outputs
      → j < t.n_sinks
      → (t.sinks j == 0) ≡ false
      → map view ((tee_worker slot is t).1.sent j) ≡ map view (t.sent j) ++ received j is
  unfolding tee_worker
  tee_worker-sent [] j t f lo ls c = sym (append-nil (map view (t.sent j)))
  tee_worker-sent (missed e ∷ is) j t (late, f) lo ls c =
      ap (λ (r : Bool × Tee). map view (r.1.sent j)) (worker-timeout e is t late)
      ∙ tee_worker-sent is j t f lo ls c
  tee_worker-sent (fetched input submitted ∷ is) j t (h, f) lo ls c =
      let (sinks, outputs, n) = on_batch-sinks input submitted t in
      tee_worker-sent is j (on_batch slot input submitted t) f (omega arith) (omega arith)
        (ap (λ (s : ℕ → ℕ). s j == 0) sinks ∙ c)
      ∙ ap (λ l. map view l ++ received j is) (on_batch-sent input submitted j t lo ls)
      ∙ view-pushed input submitted is t.sinks j (t.sent j) c h
