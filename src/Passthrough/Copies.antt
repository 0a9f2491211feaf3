-- ===== src/Passthrough/Copies.antt =====
-- The batches that passthrough_worker (bpipe/passthrough.c) and matched_passthroug (bpipe/core.c)
-- send are those that they are given.
use mathlib.Core.List.{map, append_assoc}
use bpipe.Base.{
  ℕ, zero, suc, ◌+◌, ◌^◌, ◌<◌, ◌≤◌, ◌≡◌, ◌≢◌, refl, sym, ap, ap₂, ◌∙◌, Bool, true, false, not, List,
  [], ◌∷◌, ◌++◌, arith, ltb, ◌==◌, ==_false, if◌then◌else◌, length, take, drop, All,
}
use bpipe.Err.{Ec, ok, complete, timeout}
use bpipe.Batches.{readable, overwrite, view}
use bpipe.Ring.{Batch}
use bpipe.Filter.{Filter, sink}
use bpipe.Passthrough.{
  Fetch, fetched, missed, Work, goes_on, breaks, copied, submitted_as, on_batch, on_miss, on_fetch,
  fetches, passthrough_worker,
}

take-within : (n : ℕ) (xs ys : List ℕ) → n ≤ length xs → take n (xs ++ ys) ≡ take n xs
take-within zero xs ys h = refl
take-within (suc n) [] ys h = absurd (omega arith)
take-within (suc n) (x ∷ xs) ys h = ap (◌∷◌ x) (take-within n xs ys (omega arith))

take-take :
    (n m : ℕ) (xs : List ℕ)
    → n ≤ m
    → n ≤ length xs
    → (take n (take m xs) ≡ take n xs) × (n ≤ length (take m xs))
take-take zero m xs h k = (refl, omega arith)
take-take (suc n) zero xs h k = absurd (omega arith)
take-take (suc n) (suc m) [] h k = absurd (omega arith)
take-take (suc n) (suc m) (x ∷ xs) h k =
    let (e, l) = take-take n m xs (omega arith) (omega arith) in (ap (◌∷◌ x) e, omega arith)

-- The samples that a reader sees of a batch whose first `size` samples were copied.
readable-copy :
    (b : Batch) (size : ℕ) (dst : List ℕ)
    → b.head ≤ size
    → b.head ≤ length b.samples
    → take b.head (overwrite 0 (take size b.samples) dst) ≡ readable b
readable-copy b size dst h k =
    let (e, l) = take-take b.head size b.samples h k in
    let xs : List ℕ = take size b.samples in take-within b.head xs (drop (0 + length xs) dst) l ∙ e

-- The worker is given this batch, and its copy is taken.
abbrev pub IsGiven : Fetch → Type 0
IsGiven (fetched b submitted) = (b.ec ≡ ok) × (submitted ≡ ok) × (b.head ≤ length b.samples)
IsGiven (missed e) = e ≡ timeout

abbrev pub batches_of : List Fetch → List Batch
batches_of [] = []
batches_of (fetched b submitted ∷ is) = b ∷ batches_of is
batches_of (missed e ∷ is) = batches_of is

-- What has been sent beyond `before`: batches that read as `given`, of the code `ok`, and an end
-- mark without samples.
pub record Copies (before : List Batch) (given : List Batch) (w : Work) : Type 0 where
  pub copies : List Batch
  pub mark : Batch
  pub all_sent : w.sent ≡ before ++ (copies ++ mark ∷ [])
  pub same : map view copies ≡ map view given
  pub codes : All (λ b. b.ec ≡ ok) copies
  pub ends : mark.ec ≡ complete
  pub empty : mark.head ≡ 0

Copies-end :
    (before : List Batch) (mark : Batch) (w : Work)
    → w.sent ≡ before ++ mark ∷ []
    → mark.ec ≡ complete
    → mark.head ≡ 0
    → Copies before [] w
Copies-end before mark w h e z = record {
  copies = [];
  mark = mark;
  all_sent = h;
  same = refl;
  codes = tt;
  ends = e;
  empty = z;
}

Copies-cons :
    (before : List Batch) (c b : Batch) (given : List Batch) (w : Work)
    → view c ≡ view b
    → c.ec ≡ ok
    → Copies (before ++ c ∷ []) given w
    → Copies before (b ∷ given) w
Copies-cons before c b given w v e h = record {
  copies = c ∷ h.copies;
  mark = h.mark;
  all_sent = h.all_sent ∙ append_assoc before (c ∷ []) (h.copies ++ h.mark ∷ []);
  same = ap₂ (λ x xs. x ∷ xs) v h.same;
  codes = (e, h.codes);
  ends = h.ends;
  empty = h.empty;
}

view-copied : (b slot : Batch) → b.head ≤ length b.samples → view (copied b slot) ≡ view b
view-copied b slot h =
    ap
      (λ xs. record { t_ns = b.t_ns; period_ns = b.period_ns; batch_id = b.batch_id; samples = xs })
      (readable-copy b b.head slot.samples (omega arith) h)

module _ (slot : List Batch → Batch) where
  abbrev marked : Work → Work
  marked w = record w {
    err = ok;
    sent = w.sent ++ record (slot w.sent) { ec = complete; head = 0 } ∷ [];
  }

  abbrev advanced : Batch → Work → Work
  advanced b w = record w {
    err = ok;
    sent = w.sent ++ copied b (slot w.sent) ∷ [];
    samples_processed = bpipe.Base.u64 (w.samples_processed + b.head);
    n_batches = bpipe.Base.u64 (w.n_batches + 1);
  }

  on_fetch-mark :
      (mark : Batch) (w : Work)
      → mark.ec ≡ complete
      → on_fetch slot (fetched mark ok) w ≡ breaks (marked w)
  unfolding on_fetch
  on_fetch-mark mark w e = ap (λ c. on_batch slot c mark ok w) e

  on_fetch-given :
      (b : Batch) (submitted : Ec) (w : Work)
      → b.ec ≡ ok
      → submitted ≡ ok
      → on_fetch slot (fetched b submitted) w ≡ goes_on (advanced b w)
  unfolding on_fetch
  on_fetch-given b submitted w e k =
      ap (λ c. on_batch slot c b submitted w) e ∙ ap (λ c. submitted_as slot b c w) k

  on_fetch-missed :
      (c : Ec) (w : Work)
      → c ≡ timeout
      → on_fetch slot (missed c) w ≡ goes_on (record w { err = timeout })
  unfolding on_fetch
  on_fetch-missed c w e = ap (λ k. on_miss slot k w) e

  fetches-Copies :
      (is : List Fetch) (mark : Batch) (rest : List Fetch) (w : Work)
      → All IsGiven is
      → mark.ec ≡ complete
      → Copies w.sent (batches_of is) (fetches slot (is ++ fetched mark ok ∷ rest) w)
        × ((fetches slot (is ++ fetched mark ok ∷ rest) w).worker_err ≡ w.worker_err)
  unfolding fetches
  fetches-Copies [] mark rest w hs e =
      rw (on_fetch-mark mark w e, fetches) (Copies-end w.sent _ (marked w) refl refl refl, refl)
  fetches-Copies (missed c ∷ is) mark rest w hs e =
      rw (on_fetch-missed c w hs.0, fetches)
        (fetches-Copies is mark rest (record w { err = timeout }) hs.1 e)
  fetches-Copies (fetched b submitted ∷ is) mark rest w hs e =
      let (c, k, l) = hs.0 in
      let (copies, fine) = fetches-Copies is mark rest (advanced b w) hs.1 e in
      rw (on_fetch-given b submitted w c k, fetches)
        (
          Copies-cons w.sent (copied b (slot w.sent)) b (batches_of is) _
              (view-copied b (slot w.sent) l) c copies,
          fine,
        )

-- A passthrough filter with one input and a sink passes its batches on: given batches without an
-- error, with timeouts between them, and an end mark, all of which its sink takes, the worker has
-- sent just one batch for each, in order, with its samples, number, times and the code OK, then an
-- end mark without samples, and it has recorded no error.
pub passthrough_worker-Copies :
    (slot : List Batch → Batch) (f : Filter) (is : List Fetch) (mark : Batch) (rest : List Fetch)
    (w : Work)
    → f.n_input_buffers ≡ 1
    → sink f 0 ≢ 0
    → All IsGiven is
    → mark.ec ≡ complete
    → Copies w.sent (batches_of is) (passthrough_worker slot f (is ++ fetched mark ok ∷ rest) w)
      × ((passthrough_worker slot f (is ++ fetched mark ok ∷ rest) w).worker_err ≡ w.worker_err)
unfolding passthrough_worker
passthrough_worker-Copies slot f is mark rest w one connected hs e =
    let n : (f.n_input_buffers == 1) ≡ true = ground arith in
    let s : (sink f 0 == 0) ≡ false = ==_false (sink f 0) 0 connected in
    rw (n, s, passthrough_worker) (fetches-Copies slot is mark rest w hs e)
