-- ===== src/CsvSource/Written.antt =====
-- What a row does to the batches of a column, when the worker of a CSV source (bpipe/csv_source.c)
-- has room for it.
use mathlib.Core.List.{append_assoc}
use native.Mathlib.Nat.{pow-le-pow_right}
use bpipe.Base.{
  ℕ, ◌+◌, ◌-◌, ◌*◌, ◌^◌, ◌<◌, ◌≡◌, refl, sym, ap, ◌∙◌, true, false, ◌&&◌, List, [], ◌∷◌, ◌++◌,
  arith, ltb, length, length-set, get_or, set, u64, All,
}
use bpipe.Err.{complete, stopped}
use bpipe.Ring.{Batch, BatchBuff, zero_batch, zeroed, dtype_ndef, dtype_max}
use bpipe.CsvSource.Text.{Source, Numbers}
use bpipe.CsvSource.{
  Work, filled, is_null, stamped, heads, submit_and_get_new_batches, written,
  write_sample_to_batches, need_new_batches,
}
use bpipe.CsvSource.Rows.{Sample, samples_of, all_samples, column}
use bpipe.CsvSource.Batched.{Holds, IsSized, get_or-write_columns, length-write_columns}
use bpipe.CsvSource.Timed.{timed-frame, timed-small, timed_lem, timed-narrow, samples_of-written}

-- What the tests say where no new batches are needed.
pub kept_batches :
    (self : Source) (capacity : ℕ) (w : Work) (timestamp : ℕ)
    → need_new_batches self capacity w timestamp ≡ false
    → (is_null w.batches ≡ false)
      × (filled w < capacity)
      × (1 < filled w → timestamp ≡ u64 (w.batch_start_time + filled w * w.expected_delta))
      × (0 < filled w → self.detect_regular_timing ≡ true)
unfolding need_new_batches
kept_batches self capacity w timestamp h =
    (ground arith, ground arith, λ many. ground arith, λ some. ground arith)

pub fresh_batches :
    (slot : ℕ → List (List Batch) → Batch) (sinks : List BatchBuff) (w : Work)
    → 0 < length sinks
    → (is_null (submit_and_get_new_batches slot sinks w).batches ≡ false)
      × (filled (submit_and_get_new_batches slot sinks w) ≡ 0)
unfolding submit_and_get_new_batches heads
fresh_batches slot [] w h = absurd (omega arith)
fresh_batches slot (s ∷ ss) w h = (refl, refl)

-- All that a column of the sinks has been given by a worker that has left: batches that hold
-- `samples`, none of them empty or above the capacity, and the end mark.
pub record Delivered (capacity c : ℕ) (w : Work) (samples : List Sample) : Type 0 where
  pub batches : List (List Batch)
  pub marks : List Batch
  pub all_sent : w.sent ≡ batches ++ marks ∷ []
  pub holds : all_samples (column c batches) ≡ samples
  pub sized : All (IsSized capacity) (column c batches)
  pub ends : (get_or marks c zero_batch).ec ≡ complete
  pub empty : (get_or marks c zero_batch).head ≡ 0
  pub leaves_stopped : w.worker_err ≡ stopped

module _ (numbers : Numbers) (sinks : List BatchBuff) (c : ℕ) (inside : c < length sinks) where
  abbrev dtype : ℕ
  dtype = (get_or sinks c zeroed).dtype

  abbrev capacity : ℕ
  capacity = 2 ^ (get_or sinks 0 zeroed).batch_capacity_expo

  pub pos_capacity : 0 < capacity
  pos_capacity = pow-le-pow_right {n = 2} (omega arith) {i = 0} (omega arith)

  -- A row written to batches that have room for it.
  pub write-Holds :
      (w : Work) {samples : List Sample} (timestamp : ℕ) (values : List ℕ)
      → Holds capacity (length sinks) c w samples
      → timestamp < 2 ^ 64
      → (ltb dtype_ndef dtype && ltb dtype dtype_max) ≡ true
      → is_null w.batches ≡ false
      → filled w < capacity
      → (1 < filled w → timestamp ≡ u64 (w.batch_start_time + filled w * w.expected_delta))
      → (filled w ≡ 1 → u64 (timestamp + 2 ^ 64 - w.batch_start_time) < 2 ^ 32)
      → Holds capacity
          (length sinks)
          c
          (write_sample_to_batches numbers sinks timestamp values w)
          (samples ++ (timestamp, numbers.narrowed dtype (get_or values c 0)) ∷ [])
  unfolding write_sample_to_batches
  write-Holds w {samples} timestamp values h ht typed held room steady close =
      let w' : Work = write_sample_to_batches numbers sinks timestamp values w in
      let b : Batch = get_or w.batches c zero_batch in
      let v : ℕ = numbers.narrowed dtype (get_or values c 0) in
      let b' : Batch = record b { head = b.head + 1; samples = set b.samples (filled w) v } in
      let at = λ (i : ℕ) (lt : i < length sinks).
        get_or-write_columns numbers (filled w) values 0 sinks w.batches i lt (h.wide held) in
      let own : get_or w'.batches c zero_batch ≡ b' =
        at c inside
        ∙ ap (λ (k : ℕ). written numbers (filled w) (get_or sinks c zeroed) (get_or values k 0) b)
            {x = 0 + c} {y = c} (omega arith)
        ∙ (rw typed) in
      let first : filled w' ≡ filled w + 1 = ap (λ (x : Batch). x.head) (at 0 (omega arith)) in
      let (sent, fine, _) = timed-frame timestamp w in
      record {
        kept =
            rw
              (
                own,
                sent,
                samples_of-written timestamp v w b h.known h.small ht h.agrees
                    (omega (arith, h.roomy held)) steady h.narrow close,
              )
              (sym (append_assoc (all_samples (column c w.sent)) (samples_of (stamped w b)) _)
                ∙ ap (λ l. l ++ (timestamp, v) ∷ []) h.kept);
        agrees = first ∙ ap (λ (k : ℕ). k + 1) h.agrees ∙ sym (ap (λ (x : Batch). x.head) own);
        fits = omega (arith, first);
        roomy = λ n. rw (own, length-set b.samples (filled w) v) (h.roomy held);
        wide = λ n. length-write_columns numbers (filled w) values 0 sinks w.batches ∙ h.wide held;
        known = (timed_lem timestamp w h.known).2 ∙ sym (ap (ltb 1) first);
        small = timed-small timestamp w ht h.small;
        narrow = timed-narrow timestamp w h.known h.narrow close;
        sized = rw sent h.sized;
        fine = fine ∙ h.fine;
      }
