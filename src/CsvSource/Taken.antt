-- ===== src/CsvSource/Taken.antt =====
-- What a row that the worker of a CSV source (bpipe/csv_source.c) has read does to what a column has
-- been given.
use mathlib.Core.List.{append_assoc, append-nil}
use bpipe.Base.{
  ℕ, ◌+◌, ◌-◌, ◌^◌, ◌<◌, ◌≤◌, ◌≡◌, refl, sym, ap, subst, ◌∙◌, inl, inr, Bool, true, false, ◌&&◌,
  List, [], ◌∷◌, ◌++◌, arith, ltb, length, get_or, u64, Bool-cases,
}
use bpipe.Ring.{Batch, BatchBuff, zero_batch, zeroed, dtype_ndef, dtype_max}
use bpipe.CsvSource.Text.{Source, Numbers, Parsed, parsed, failed}
use bpipe.CsvSource.{
  Work, filled, is_null, goes_on, submit_and_get_new_batches, write_sample_to_batches,
  need_new_batches, on_row, on_parsed,
}
use bpipe.CsvSource.Rows.{Sample, sample_of, all_samples, column, IsAccepted, AreClose, AreClose-at}
use bpipe.CsvSource.Batched.{Holds, submit_batches-frame, submit_and_get-Holds}
use bpipe.CsvSource.Timed.{timed-frame, samples_of-one}
use bpipe.CsvSource.Written.{kept_batches, fresh_batches, pos_capacity, write-Holds}

module _ (numbers : Numbers) (sinks : List BatchBuff) (c : ℕ) (inside : c < length sinks) where
  abbrev dtype : ℕ
  dtype = (get_or sinks c zeroed).dtype

  abbrev capacity : ℕ
  capacity = 2 ^ (get_or sinks 0 zeroed).batch_capacity_expo

  module _ (slot : ℕ → List (List Batch) → Batch) (self : Source)
      (roomy : (sent : List (List Batch)) → capacity ≤ length (slot c sent).samples)
      (typed : (ltb dtype_ndef dtype && ltb dtype dtype_max) ≡ true) where
    -- A row that follows the only row of a batch.
    last_close :
        (w : Work) {samples : List Sample} (timestamp v : ℕ)
        → Holds capacity (length sinks) c w samples
        → is_null w.batches ≡ false
        → filled w ≡ 1
        → AreClose (samples ++ (timestamp, v) ∷ [])
        → u64 (timestamp + 2 ^ 64 - w.batch_start_time) < 2 ^ 32
    last_close w timestamp v h held one close =
        let sent : List Sample = all_samples (column c w.sent) in
        let (x, e) =
          samples_of-one w (get_or w.batches c zero_batch) h.small (sym h.agrees ∙ one)
            (omega (arith, h.roomy held, pos_capacity numbers sinks c inside)) in
        AreClose-at sent (w.batch_start_time, x) (timestamp, v) []
          (subst AreClose
            (ap (λ l. l ++ (timestamp, v) ∷ []) (sym h.kept ∙ ap (λ l. sent ++ l) e)
              ∙ append_assoc sent ((w.batch_start_time, x) ∷ []) ((timestamp, v) ∷ []))
            close)

    on_row-Holds :
        (w : Work) {samples : List Sample} (timestamp : ℕ) (values : List ℕ)
        → timestamp < 2 ^ 64
        → (self.detect_regular_timing ≡ true
            → AreClose (samples ++ (timestamp, numbers.narrowed dtype (get_or values c 0)) ∷ []))
        → Holds capacity (length sinks) c w samples
        → Holds capacity
            (length sinks)
            c
            (on_row numbers slot self sinks timestamp values w)
            (samples ++ (timestamp, numbers.narrowed dtype (get_or values c 0)) ∷ [])
    unfolding on_row
    on_row-Holds w {samples} timestamp values ht close h =
        elim (Bool-cases (need_new_batches self capacity w timestamp)) [
          | inl new ↦
              let w' : Work = submit_and_get_new_batches slot sinks w in
              let (held, none_filled) = fresh_batches slot sinks w (omega arith) in
              rw new (
                write-Holds numbers sinks c inside w' timestamp values
                  (submit_and_get-Holds w h inside slot sinks refl roomy) ht typed held
                  (omega (arith, none_filled, (pos_capacity numbers sinks c inside)))
                  (λ many. absurd (omega (arith, none_filled)))
                  (λ one. absurd (omega (arith, none_filled))))
          | inr old ↦
              let (held, room, steady, detects) = kept_batches self capacity w timestamp old in
              rw old (
                write-Holds numbers sinks c inside w timestamp values h ht typed held room steady
                  (λ one.
                    last_close w timestamp _ h held one (close (detects (omega (arith, one))))))
        ]

    -- Where only the header's turn and the count of lines change.
    pub marked-Holds :
        (w : Work) {samples : List Sample} (skips : Bool) (line : ℕ)
        → Holds capacity (length sinks) c w samples
        → Holds capacity
            (length sinks)
            c
            (record w { rewound = skips; current_line = line })
            samples
    marked-Holds w skips line h = record {
      kept = h.kept;
      agrees = h.agrees;
      fits = h.fits;
      roomy = h.roomy;
      wide = h.wide;
      known = h.known;
      small = h.small;
      narrow = h.narrow;
      sized = h.sized;
      fine = h.fine;
    }

    on_row-rewound :
        (w : Work) (timestamp : ℕ) (values : List ℕ)
        → (on_row numbers slot self sinks timestamp values w).rewound ≡ w.rewound
    unfolding on_row write_sample_to_batches submit_and_get_new_batches
    on_row-rewound w timestamp values =
        elim (Bool-cases (need_new_batches self capacity w timestamp)) [
          | inl new ↦ rw new (
              (timed-frame timestamp (submit_and_get_new_batches slot sinks w)).2
              ∙ (submit_batches-frame w).2)
          | inr old ↦ rw old ((timed-frame timestamp w).2)
        ]

    -- A row, or a line that is passed over.
    pub on_parsed-Holds :
        (p : Parsed) (w : Work) {samples : List Sample}
        → w.rewound ≡ false
        → IsAccepted numbers self p
        → (self.detect_regular_timing ≡ true
            → AreClose (samples ++ sample_of numbers self c dtype p))
        → Holds capacity (length sinks) c w samples
        → (w' : Work) × (on_parsed numbers slot self sinks p w ≡ goes_on w')
          × (w'.rewound ≡ false)
          × Holds capacity (length sinks) c w' (samples ++ sample_of numbers self c dtype p)
    unfolding on_parsed
    on_parsed-Holds (parsed timestamp values) w e ht close h = (
      on_row numbers slot self sinks timestamp values w,
      refl,
      on_row-rewound w timestamp values ∙ e,
      on_row-Holds w timestamp values ht close h,
    )
    on_parsed-Holds (failed code) w {samples} e skips close h =
        (w, rw skips refl, e, rw (append-nil samples) h)
