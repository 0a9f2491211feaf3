-- ===== src/CsvSource/Batched.antt =====
-- What the worker of a CSV source (bpipe/csv_source.c) has sent and holds after each row: at every
-- column just the samples of the rows read so far, each at its time.
use mathlib.Core.List.{map, append-nil}
use bpipe.Base.{
  ℕ, zero, suc, ◌+◌, ◌^◌, ◌<◌, ◌≤◌, ◌≡◌, refl, sym, ap, ◌∙◌, inl, inr, true, false, List, [], ◌∷◌,
  ◌++◌, arith, ltb, if◌then◌else◌, length, get_or, take, u32, All, Bool-cases,
}
use bpipe.Err.{ok}
use bpipe.Ring.{Batch, BatchBuff, zero_batch, zeroed}
use bpipe.CsvSource.Text.{Numbers}
use bpipe.CsvSource.{
  Work, filled, is_null, stamped, submit_batches, heads, emptied, submit_and_get_new_batches,
  written, write_columns,
}
use bpipe.CsvSource.Rows.{
  Sample, timed_from, samples_of, all_samples, column, all_samples-snoc, column-snoc,
}

-- The columns of a round.
pub get_or-map :
    (f : Batch → Batch) (bs : List Batch) (c : ℕ)
    → c < length bs
    → get_or (map f bs) c zero_batch ≡ f (get_or bs c zero_batch)
get_or-map f [] c h = absurd (omega arith)
get_or-map f (b ∷ bs) zero h = refl
get_or-map f (b ∷ bs) (suc c) h = get_or-map f bs c (omega arith)

module _ (slot : ℕ → List (List Batch) → Batch) (reset : Batch → Batch)
    (sent : List (List Batch)) where
  pub get_or-heads :
      (col : ℕ) (sinks : List BatchBuff) (c : ℕ)
      → c < length sinks
      → get_or (heads slot reset sent col sinks) c zero_batch ≡ reset (slot (col + c) sent)
  unfolding heads
  get_or-heads col [] c h = absurd (omega arith)
  get_or-heads col (s ∷ ss) zero h = ap (λ (k : ℕ). reset (slot k sent)) (omega arith)
  get_or-heads col (s ∷ ss) (suc c) h =
      get_or-heads (col + 1) ss c (omega arith)
      ∙ ap (λ (k : ℕ). reset (slot k sent)) {x = col + 1 + c} {y = col + suc c} (omega arith)

  pub length-heads :
      (col : ℕ) (sinks : List BatchBuff) → length (heads slot reset sent col sinks) ≡ length sinks
  unfolding heads
  length-heads col [] = refl
  length-heads col (s ∷ ss) = ap suc (length-heads (col + 1) ss)

module _ (numbers : Numbers) (idx : ℕ) (values : List ℕ) where
  pub get_or-write_columns :
      (col : ℕ) (sinks : List BatchBuff) (bs : List Batch) (c : ℕ)
      → c < length sinks
      → length bs ≡ length sinks
      → get_or (write_columns numbers idx values col sinks bs) c zero_batch
        ≡ written numbers idx
            (get_or sinks c zeroed)
            (get_or values (col + c) 0)
            (get_or bs c zero_batch)
  unfolding write_columns
  get_or-write_columns col [] bs c h e = absurd (omega arith)
  get_or-write_columns col (s ∷ ss) [] c h e = absurd (omega arith)
  get_or-write_columns col (s ∷ ss) (b ∷ bs) zero h e =
      ap (λ (k : ℕ). written numbers idx s (get_or values k 0) b) (omega arith)
  get_or-write_columns col (s ∷ ss) (b ∷ bs) (suc c) h e =
      get_or-write_columns (col + 1) ss bs c (omega arith) (omega arith)
      ∙ ap
          (λ (k : ℕ).
            written numbers idx (get_or ss c zeroed) (get_or values k 0) (get_or bs c zero_batch))
          {x = col + 1 + c} {y = col + suc c} (omega arith)

  pub length-write_columns :
      (col : ℕ) (sinks : List BatchBuff) (bs : List Batch)
      → length (write_columns numbers idx values col sinks bs) ≡ length bs
  unfolding write_columns
  length-write_columns col [] bs = refl
  length-write_columns col (s ∷ ss) [] = refl
  length-write_columns col (s ∷ ss) (b ∷ bs) = ap suc (length-write_columns (col + 1) ss bs)

null-filled : (bs : List Batch) → is_null bs ≡ true → (get_or bs 0 zero_batch).head ≡ 0
null-filled [] h = refl
null-filled (b ∷ bs) h = cc

-- A batch that a sink gets from the loop.
pub record IsSized (capacity : ℕ) (b : Batch) : Type 0 where
  pub some_samples : 0 < b.head
  pub not_more : b.head ≤ capacity

pub All-snoc :
    (P : Batch → Type 0) (bs : List Batch) (b : Batch) → All P bs → P b → All P (bs ++ b ∷ [])
All-snoc P [] b hs h = (h, tt)
All-snoc P (x ∷ bs) b hs h = (hs.0, All-snoc P bs b hs.1 h)

-- What is true of the column `c` of `width` after the rows that gave it `samples`.
pub record Holds (capacity width c : ℕ) (w : Work) (samples : List Sample) : Type 0 where
  pub kept :
      all_samples (column c w.sent) ++ samples_of (stamped w (get_or w.batches c zero_batch))
      ≡ samples
  pub agrees : filled w ≡ (get_or w.batches c zero_batch).head
  pub fits : filled w ≤ capacity
  pub roomy : is_null w.batches ≡ false → capacity ≤ length (get_or w.batches c zero_batch).samples
  pub wide : is_null w.batches ≡ false → length w.batches ≡ width
  pub known : w.delta_established ≡ ltb 1 (filled w)
  pub small : w.batch_start_time < 2 ^ 64
  pub narrow : w.delta_established ≡ true → w.expected_delta < 2 ^ 32
  pub sized : All (IsSized capacity) (column c w.sent)
  pub fine : w.worker_err ≡ ok

submit_batches-idle : (w : Work) → ltb 0 (filled w) ≡ false → submit_batches w ≡ w
unfolding submit_batches
submit_batches-idle w h = elim (Bool-cases (is_null w.batches)) [
  | inl null ↦ rw null
  | inr held ↦ rw (held, h)
]

-- What a submission leaves alone.
pub submit_batches-frame :
    (w : Work)
    → ((submit_batches w).batch_start_time ≡ w.batch_start_time)
      × ((submit_batches w).worker_err ≡ w.worker_err)
      × ((submit_batches w).rewound ≡ w.rewound)
unfolding submit_batches
submit_batches-frame w = (ground arith, ground arith, ground arith)

pub samples_of-empty : (w : Work) (b : Batch) → b.head ≡ 0 → samples_of (stamped w b) ≡ []
samples_of-empty w b e =
    let p : ℕ = u32 (if w.delta_established then w.expected_delta else 0) in
    ap (λ (k : ℕ). timed_from w.batch_start_time p 0 (take k b.samples)) e

-- Submitting moves the samples that are held to those that are sent.
module _ {capacity width c : ℕ} (w : Work) {samples : List Sample}
    (h : Holds capacity width c w samples) (inside : c < width) where
  full_submitted :
      ltb 0 (filled w) ≡ true
      → (all_samples (column c (submit_batches w).sent) ≡ samples)
        × All (IsSized capacity) (column c (submit_batches w).sent)
  unfolding submit_batches
  full_submitted full =
      let held : is_null w.batches ≡ false = ground (arith, null-filled w.batches) in
      let e = get_or-map (stamped w) w.batches c (omega (arith, h.wide held)) in
      rw (held, full, column-snoc c w.sent (map (stamped w) w.batches), e)
        (
          all_samples-snoc (column c w.sent) (stamped w (get_or w.batches c zero_batch)) ∙ h.kept,
          All-snoc (IsSized capacity) (column c w.sent) _ h.sized (record {
            some_samples = ground (arith, h.agrees);
            not_more = ground (arith, h.agrees, h.fits);
          }),
        )

  pub submitted :
      (all_samples (column c (submit_batches w).sent) ≡ samples)
      × All (IsSized capacity) (column c (submit_batches w).sent)
  submitted = elim (Bool-cases (ltb 0 (filled w))) [
    | inl full ↦ full_submitted full
    | inr none_held ↦ rw (submit_batches-idle w none_held) (
      sym (append-nil (all_samples (column c w.sent)))
          ∙ ap (λ l. all_samples (column c w.sent) ++ l)
              (sym (samples_of-empty w (get_or w.batches c zero_batch) (ground (arith, h.agrees))))
          ∙ h.kept,
      h.sized,
    )
  ]

  -- Then fresh batches are held.
  pub submit_and_get-Holds :
      (slot : ℕ → List (List Batch) → Batch) (sinks : List BatchBuff)
      → width ≡ length sinks
      → ((sent : List (List Batch)) → capacity ≤ length (slot c sent).samples)
      → Holds capacity width c (submit_and_get_new_batches slot sinks w) samples
  unfolding submit_and_get_new_batches
  submit_and_get-Holds slot sinks e roomy =
      let sent : List (List Batch) = (submit_batches w).sent in
      let w' : Work = submit_and_get_new_batches slot sinks w in
      let at : (i : ℕ) → i < width → get_or w'.batches i zero_batch ≡ emptied (slot i sent) =
        λ i lt.
          get_or-heads slot emptied sent 0 sinks i (omega arith)
          ∙ ap (λ (k : ℕ). emptied (slot k sent)) {x = 0 + i} {y = i} (omega arith) in
      let first = ap (λ (b : Batch). b.head) (at 0 (omega arith)) in
      let own = ap (λ (b : Batch). b.head) (at c inside) in
      record {
        kept =
            ap (λ l. all_samples (column c sent) ++ l)
              (samples_of-empty w' (get_or w'.batches c zero_batch) own)
            ∙ append-nil (all_samples (column c sent))
            ∙ submitted.0;
        agrees = first ∙ sym own;
        fits = omega (arith, first);
        roomy = λ n. rw (at c inside) (roomy sent);
        wide = λ n. length-heads slot emptied sent 0 sinks ∙ sym e;
        known = ground (arith, first);
        small = omega (arith, h.small, (submit_batches-frame w).0);
        narrow = λ n. absurd (cc);
        sized = submitted.1;
        fine = (submit_batches-frame w).1 ∙ h.fine;
      }
