-- ===== src/CsvSource/Timed.antt =====
-- The times that the worker of a CSV source (bpipe/csv_source.c) keeps for a batch, and the samples
-- that the batch states with them.
use native.Mathlib.Nat.{mod-eq_of_lt}
use bpipe.Base.{
  ℕ, ◌+◌, ◌-◌, ◌*◌, ◌^◌, ◌<◌, ◌≡◌, refl, sym, ap, ◌∙◌, inl, inr, true, List, [], ◌∷◌, ◌++◌, arith,
  ltb, ◌==◌, if◌then◌else◌, length, set, take, length-take, u32, u64, Bool-cases,
}
use bpipe.Ring.{Batch}
use bpipe.Batches.{readable}
use bpipe.CsvSource.{Work, filled, stamped, timed}
use bpipe.CsvSource.Rows.{timed_from, samples_of, take-set, grown}

-- What `timed` makes of the times.
pub timed_lem :
    (timestamp : ℕ) (w : Work)
    → w.delta_established ≡ ltb 1 (filled w)
    → ((timed timestamp w).batch_start_time
        ≡ (if filled w == 0 then timestamp else w.batch_start_time))
      × ((timed timestamp w).expected_delta ≡ (
          if filled w == 1
          then u64 (timestamp + 2 ^ 64 - w.batch_start_time)
          else w.expected_delta))
      × ((timed timestamp w).delta_established ≡ ltb 1 (filled w + 1))
unfolding timed
timed_lem timestamp w h = (ground arith, ground arith, ground arith)

pub timed-small :
    (timestamp : ℕ) (w : Work)
    → timestamp < 2 ^ 64
    → w.batch_start_time < 2 ^ 64
    → (timed timestamp w).batch_start_time < 2 ^ 64
unfolding timed
timed-small timestamp w ht small = ground arith

pub timed-frame :
    (timestamp : ℕ) (w : Work)
    → ((timed timestamp w).sent ≡ w.sent)
      × ((timed timestamp w).worker_err ≡ w.worker_err)
      × ((timed timestamp w).rewound ≡ w.rewound)
unfolding timed
timed-frame timestamp w = (ground arith, ground arith, ground arith)

-- A period of 32 bits is stated as it is.
samples_of-stamped :
    (w : Work) (b : Batch)
    → (w.delta_established ≡ true → w.expected_delta < 2 ^ 32)
    → samples_of (stamped w b)
      ≡ timed_from w.batch_start_time
          (if w.delta_established then w.expected_delta else 0)
          0
          (readable b)
samples_of-stamped w b narrow =
    ap (λ (p : ℕ). timed_from w.batch_start_time p 0 (readable b))
      (elim (Bool-cases w.delta_established) [
        | inl y ↦ let n = narrow y in rw y (omega (arith, n))
        | inr n ↦ rw n refl
      ])

pub timed-narrow :
    (timestamp : ℕ) (w : Work)
    → w.delta_established ≡ ltb 1 (filled w)
    → (w.delta_established ≡ true → w.expected_delta < 2 ^ 32)
    → (filled w ≡ 1 → u64 (timestamp + 2 ^ 64 - w.batch_start_time) < 2 ^ 32)
    → (timed timestamp w).delta_established ≡ true
    → (timed timestamp w).expected_delta < 2 ^ 32
unfolding timed
timed-narrow timestamp w known narrow close now = ground arith

-- The batch of a column with a sample more.
pub samples_of-written :
    (timestamp v : ℕ) (w : Work) (b : Batch)
    → w.delta_established ≡ ltb 1 (filled w)
    → w.batch_start_time < 2 ^ 64
    → timestamp < 2 ^ 64
    → filled w ≡ b.head
    → filled w < length b.samples
    → (1 < filled w → timestamp ≡ u64 (w.batch_start_time + filled w * w.expected_delta))
    → (w.delta_established ≡ true → w.expected_delta < 2 ^ 32)
    → (filled w ≡ 1 → u64 (timestamp + 2 ^ 64 - w.batch_start_time) < 2 ^ 32)
    → samples_of (
        stamped
          (timed timestamp w)
          (record b { head = b.head + 1; samples = set b.samples (filled w) v }))
      ≡ samples_of (stamped w b) ++ (timestamp, v) ∷ []
samples_of-written timestamp v w b known small ht agrees room steady narrow close =
    let xs : List ℕ = readable b in
    let (start, delta, established) = timed_lem timestamp w known in
    let e : length xs ≡ filled w = length-take b.head b.samples (omega arith) ∙ sym agrees in
    let t : take (b.head + 1) (set b.samples (filled w) v) ≡ xs ++ v ∷ [] =
      rw agrees (take-set b.head b.samples v (omega arith)) in
    let b' : Batch = record b { head = b.head + 1; samples = set b.samples (filled w) v } in
    let wider =
      samples_of-stamped (timed timestamp w) b' (timed-narrow timestamp w known narrow close) in
    let before = samples_of-stamped w b narrow in
    rw (wider, before, start, delta, established, t, known, ← e)
      (grown w.batch_start_time w.expected_delta timestamp v xs small ht (rw e steady))

-- The only sample of a batch.
pub samples_of-one :
    (w : Work) (b : Batch)
    → w.batch_start_time < 2 ^ 64
    → b.head ≡ 1
    → 0 < length b.samples
    → (v : ℕ) × (samples_of (stamped w b) ≡ (w.batch_start_time, v) ∷ [])
samples_of-one w b small one some = one_of b.samples one some
  where
    p : ℕ
    p = u32 (if w.delta_established then w.expected_delta else 0)

    one_of :
        (xs : List ℕ)
        → b.head ≡ 1
        → 0 < length xs
        → (v : ℕ) × (timed_from w.batch_start_time p 0 (take b.head xs)
            ≡ (w.batch_start_time, v) ∷ [])
    one_of [] e l = absurd (omega arith)
    one_of (x ∷ xs) e l = (
      x,
      rw e (
          ap (λ (k : ℕ). (k, x) ∷ [])
            (omega (arith, mod-eq_of_lt {n = w.batch_start_time} {m = 2 ^ 64} small))),
    )
