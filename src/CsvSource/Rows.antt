-- ===== src/CsvSource/Rows.antt =====
-- The rows of a CSV source (bpipe/csv_source.c) and the samples, with their times, that its batches
-- hold: the description that the worker is compared with.
use mathlib.Core.List.{append_assoc, append-nil}
use bpipe.Base.{
  ℕ, zero, suc, ◌+◌, ◌-◌, ◌*◌, ◌^◌, ◌<◌, ◌≡◌, refl, sym, ap, ap₂, ◌∙◌, Bool, true, false, List, [],
  ◌∷◌, ◌++◌, arith, ltb, ◌==◌, if◌then◌else◌, length, get_or, set, take, u64,
}
use bpipe.Ring.{Batch, zero_batch}
use bpipe.Batches.{readable}
use bpipe.CsvSource.Text.{Source, Numbers, Parsed, parsed, failed, parse_line, is_cut_off}
use bpipe.CsvSource.{Answer, got, end, broken}

-- A sample with its time in nanoseconds.
abbrev pub Sample : Type 0
Sample = ℕ × ℕ

-- Samples from the index `i` of a batch on, at the times that the batch states for them.
abbrev pub timed_from : ℕ → ℕ → ℕ → List ℕ → List Sample
timed_from t_ns period_ns i [] = []
timed_from t_ns period_ns i (x ∷ xs) =
    (u64 (t_ns + i * period_ns), x) ∷ timed_from t_ns period_ns (i + 1) xs

abbrev pub samples_of : Batch → List Sample
samples_of b = timed_from b.t_ns b.period_ns 0 (readable b)

abbrev pub all_samples : List Batch → List Sample
all_samples [] = []
all_samples (b ∷ bs) = samples_of b ++ all_samples bs

-- Each sample is less than 2^32 ns later than the one before it (modulo 2^64).
abbrev pub AreClose : List Sample → Type 0
AreClose [] = Unit
AreClose (x ∷ []) = Unit
AreClose (x ∷ y ∷ ss) = (u64 (y.0 + 2 ^ 64 - x.0) < 2 ^ 32) × AreClose (y ∷ ss)

pub AreClose-at :
    (before : List Sample) (x y : Sample) (later : List Sample)
    → AreClose (before ++ x ∷ y ∷ later)
    → u64 (y.0 + 2 ^ 64 - x.0) < 2 ^ 32
AreClose-at [] x y later h = h.0
AreClose-at (a ∷ []) x y later h = AreClose-at [] x y later h.1
AreClose-at (a ∷ b ∷ before) x y later h = AreClose-at (b ∷ before) x y later h.1

pub AreClose-front : (before later : List Sample) → AreClose (before ++ later) → AreClose before
AreClose-front [] later h = tt
AreClose-front (a ∷ []) later h = tt
AreClose-front (a ∷ b ∷ before) later h = (h.0, AreClose-front (b ∷ before) later h.1)

-- What the sink of the column `c` gets.
abbrev pub column : ℕ → List (List Batch) → List Batch
column c [] = []
column c (r ∷ rs) = get_or r c zero_batch ∷ column c rs

module _ (numbers : Numbers) (self : Source) where
  -- The sample that a row gives to the column `c`, whose sink has the type `dtype`.
  abbrev pub sample_of : ℕ → ℕ → Parsed → List Sample
  sample_of c dtype (parsed timestamp values) =
      (timestamp, numbers.narrowed dtype (get_or values c 0)) ∷ []
  sample_of c dtype (failed e) = []

  -- The samples of the rows that are read. After the end of the file a source that loops starts
  -- again, and passes over the header first if the file has one (`skips`).
  unfoldable pub samples_read : ℕ → ℕ → List Answer → Bool → List Sample
  samples_read c dtype [] skips = []
  samples_read c dtype (a ∷ answers) true = samples_read c dtype answers false
  samples_read c dtype (got line ∷ answers) false =
      sample_of c dtype (parse_line numbers self line) ++ samples_read c dtype answers false
  samples_read c dtype (end ∷ answers) false =
      let rest = samples_read c dtype answers self.has_header in if self.loop then rest else []
  samples_read c dtype (broken ∷ answers) false = []

  -- A row that has been read has a time of 64 bits; one that cannot be read is to be passed over.
  abbrev pub IsAccepted : Parsed → Type 0
  IsAccepted (parsed timestamp values) = timestamp < 2 ^ 64
  IsAccepted (failed e) = self.skip_invalid ≡ true

  -- The file can be read, and the line fits into the buffer.
  abbrev pub IsServed : Answer → Type 0
  IsServed (got line) = (is_cut_off line ≡ false) × IsAccepted (parse_line numbers self line)
  IsServed end = Unit
  IsServed broken = ⊥

pub all_samples-snoc :
    (bs : List Batch) (b : Batch) → all_samples (bs ++ b ∷ []) ≡ all_samples bs ++ samples_of b
all_samples-snoc [] b = append-nil (samples_of b)
all_samples-snoc (x ∷ bs) b =
    ap (λ l. samples_of x ++ l) (all_samples-snoc bs b)
    ∙ sym (append_assoc (samples_of x) (all_samples bs) (samples_of b))

pub column-snoc :
    (c : ℕ) (rs : List (List Batch)) (r : List Batch)
    → column c (rs ++ r ∷ []) ≡ column c rs ++ get_or r c zero_batch ∷ []
column-snoc c [] r = refl
column-snoc c (x ∷ rs) r = ap (◌∷◌ (get_or x c zero_batch)) (column-snoc c rs r)

pub take-set :
    (h : ℕ) (xs : List ℕ) (v : ℕ) → h < length xs → take (h + 1) (set xs h v) ≡ take h xs ++ v ∷ []
take-set h [] v lt = absurd (omega arith)
take-set zero (x ∷ xs) v lt = refl
take-set (suc h) (x ∷ xs) v lt =
    ap (λ (k : ℕ). take k (x ∷ set xs h v)) {x = suc h + 1} {y = suc (h + 1)} (omega arith)
    ∙ ap (◌∷◌ x) (take-set h xs v (omega arith))

pub timed_from-snoc :
    (t p i : ℕ) (xs : List ℕ) (v : ℕ)
    → timed_from t p i (xs ++ v ∷ [])
      ≡ timed_from t p i xs ++ (u64 (t + (i + length xs) * p), v) ∷ []
timed_from-snoc t p i [] v = ap (λ (k : ℕ). (u64 (t + k * p), v) ∷ []) (omega arith)
timed_from-snoc t p i (x ∷ xs) v = ap (◌∷◌ (u64 (t + i * p), x)) (
    timed_from-snoc t p (i + 1) xs v
    ∙ ap (λ (k : ℕ). timed_from t p (i + 1) xs ++ (u64 (t + k * p), v) ∷ []) {x = i + 1 + length xs}
        {y = i + suc (length xs)} (omega arith))

-- A sample more, where neither the start nor the period of the batch changes.
steady :
    (t t' p p' timestamp v : ℕ) (xs : List ℕ)
    → t' ≡ t
    → p' ≡ p
    → timestamp ≡ u64 (t + length xs * p)
    → timed_from t' p' 0 (xs ++ v ∷ []) ≡ timed_from t p 0 xs ++ (timestamp, v) ∷ []
steady t t' p p' timestamp v xs et ep h =
    ap₂ (λ (a b : ℕ). timed_from a b 0 (xs ++ v ∷ [])) et ep
    ∙ timed_from-snoc t p 0 xs v
    ∙ ap (λ (k : ℕ). timed_from t p 0 xs ++ (k, v) ∷ [])
        (ap (λ (n : ℕ). u64 (t + n * p)) {x = 0 + length xs} {y = length xs} (omega arith) ∙ sym h)

-- The period that a batch of `n` samples is given.
abbrev pub period : ℕ → ℕ → ℕ
period n delta = if ltb 1 n then delta else 0

-- A sample more, by the number of those that the batch has.
pub grown :
    (start delta timestamp v : ℕ) (xs : List ℕ)
    → start < 2 ^ 64
    → timestamp < 2 ^ 64
    → (1 < length xs → timestamp ≡ u64 (start + length xs * delta))
    → timed_from
        (if length xs == 0 then timestamp else start)
        (period
          (length xs + 1)
          (if length xs == 1 then u64 (timestamp + 2 ^ 64 - start) else delta))
        0
        (xs ++ v ∷ [])
      ≡ timed_from start (period (length xs) delta) 0 xs ++ (timestamp, v) ∷ []
grown start delta timestamp v [] hs ht h = ap (λ (k : ℕ). (k, v) ∷ []) (omega arith)
grown start delta timestamp v (x ∷ []) hs ht h =
    ap₂ (λ (a b : ℕ). (a, x) ∷ (b, v) ∷ []) (omega arith) (omega arith)
grown start delta timestamp v (x ∷ y ∷ xs) hs ht h =
    steady start _ delta _ timestamp v (x ∷ y ∷ xs) (ground arith) (ground arith) (h (omega arith))
    ∙ ap (λ (p : ℕ). timed_from start p 0 (x ∷ y ∷ xs) ++ (timestamp, v) ∷ []) (ground arith)
