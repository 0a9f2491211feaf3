-- ===== src/Matcher/Stream.antt =====
-- The loop of batch_matcher_worker (bpipe/batch_matcher.c) over the samples of input batches that
-- follow each other without a gap.
use mathlib.Core.List.{append_assoc}
use native.Mathlib.Nat.{add-mul, mul_comm, mod-eq_of_lt, mul-le-mul_right}
use bpipe.Base.{
  ℕ, zero, suc, ◌+◌, ◌-◌, ◌*◌, ◌^◌, ◌≤◌, ◌<◌, ◌≡◌, refl, sym, ap, ap₂, ◌∙◌, true, false, inl, inr,
  none, some, List, ◌++◌, arith, length, take, drop, length-append, length-take, take-add,
  length-drop, min, u64, ◌==◌, ltb, ltb→lt, Bool-cases, Option-cases, subst,
}
use bpipe.Ring.{Batch}
use bpipe.Matcher.{Matcher, Work, opened, amount, copy, skip, round, process}
use bpipe.Matcher.Cut.{Ready, Inv, Ready-opened, copy-Inv}

round-skip :
    (slot : List Batch → Batch) (input : Batch) (w : Work)
    → ltb w.current_timestamp w.bm.next_boundary_ns ≡ true
    → round slot input w ≡ skip w
unfolding round
round-skip slot input w h = simp h

pub round-none :
    (slot : List Batch → Batch) (input : Batch) (w : Work)
    → ltb w.current_timestamp w.bm.next_boundary_ns ≡ false
    → w.output ≡ none
    → round slot input w
      ≡ copy input
          (amount (record w.bm { accumulated = 0 }) (input.head - w.input_idx) w.current_timestamp)
          (opened (record w.bm { accumulated = 0 }) (slot w.sent))
          (record w.bm { accumulated = 0 })
          w
unfolding round
round-none slot input w h e = simp (h, e)

pub round-some :
    (slot : List Batch → Batch) (input : Batch) (w : Work) (out : Batch)
    → ltb w.current_timestamp w.bm.next_boundary_ns ≡ false
    → w.output ≡ some out
    → round slot input w
      ≡ copy input (amount w.bm (input.head - w.input_idx) w.current_timestamp) out w.bm w
unfolding round
round-some slot input w out h e = simp (h, e)

copy-first_batch :
    (input : Batch) (k : ℕ) (out : Batch) (bm : Matcher) (w : Work)
    → (copy input k out bm w).first_batch ≡ w.first_batch
unfolding copy
copy-first_batch input k out bm w =
    elim (Bool-cases (u64 (bm.accumulated + k) == bm.output_batch_samples)) [
      | inl y ↦ rw y refl
      | inr y ↦ rw y refl
    ]

round-first_batch :
    (slot : List Batch → Batch) (input : Batch) (w : Work)
    → (round slot input w).first_batch ≡ w.first_batch
round-first_batch slot input w = elim (Bool-cases (ltb w.current_timestamp w.bm.next_boundary_ns)) [
  | inl y ↦ ap (λ (v : Work). v.first_batch) (round-skip slot input w y)
  | inr h ↦ elim (Option-cases w.output) [
    | inl e ↦
        ap (λ (v : Work). v.first_batch) (round-none slot input w h e)
        ∙ copy-first_batch input _ _ _ w
    | inr (out, e) ↦
        ap (λ (v : Work). v.first_batch) (round-some slot input w out h e)
        ∙ copy-first_batch input _ _ _ w
  ]
]

pub process-first_batch :
    (slot : List Batch → Batch) (rounds : ℕ) (input : Batch) (w : Work)
    → (process slot rounds input w).first_batch ≡ w.first_batch
unfolding process
process-first_batch slot zero input w = refl
process-first_batch slot (suc rounds) input w = elim (Bool-cases (ltb w.input_idx input.head)) [
  | inl y ↦
      rw y (
        process-first_batch slot rounds input (round slot input w) ∙ round-first_batch slot input w)
  | inr y ↦ rw y refl
]

module _ (n p start : ℕ) (pos : 0 < n) (word : n < 2 ^ 64) where
  -- As many samples are copied as are left and have room.
  pub amount-min :
      (bm : Matcher) (remaining current : ℕ)
      → bm.output_batch_samples ≡ n
      → bm.period_ns ≡ p
      → bm.batch_period_ns ≡ p * n
      → bm.accumulated < n
      → current ≡ bm.next_boundary_ns + bm.accumulated * p
      → bm.next_boundary_ns + p * n < 2 ^ 64
      → amount bm remaining current ≡ min remaining (n - bm.accumulated)
  amount-min bm remaining current hn hp hb room e time =
      let k : ℕ = min remaining (n - bm.accumulated) in
      let space : u64 (bm.output_batch_samples + 2 ^ 64 - bm.accumulated) ≡ n - bm.accumulated =
        omega arith in
      let fits : (bm.accumulated + k) * p ≤ n * p = mul-le-mul_right p (omega arith) in
      let ends : current + k * p ≤ bm.next_boundary_ns + p * n =
        omega (arith, fits, add-mul bm.accumulated k p, mul_comm p n) in
      let inside : ltb (bm.next_boundary_ns + p * n) (current + k * p) ≡ false = ground arith in
      rw
        (
          space,
          hp,
          hb,
          mod-eq_of_lt {n = current + k * p} {m = 2 ^ 64} (omega arith),
          mod-eq_of_lt {n = bm.next_boundary_ns + p * n} {m = 2 ^ 64} (omega arith),
          inside,
        )
        refl

  copy-input_idx :
      (input : Batch) (k : ℕ) (out : Batch) (bm : Matcher) (w : Work)
      → (copy input k out bm w).input_idx ≡ u64 (w.input_idx + k)
  unfolding copy
  copy-input_idx input k out bm w =
      elim (Bool-cases (u64 (bm.accumulated + k) == bm.output_batch_samples)) [
        | inl y ↦ rw y refl
        | inr y ↦ rw y refl
      ]

  copy-current_timestamp :
      (input : Batch) (k : ℕ) (out : Batch) (bm : Matcher) (w : Work)
      → (copy input k out bm w).current_timestamp ≡ u64 (w.current_timestamp + k * bm.period_ns)
  unfolding copy
  copy-current_timestamp input k out bm w =
      elim (Bool-cases (u64 (bm.accumulated + k) == bm.output_batch_samples)) [
        | inl y ↦ rw y refl
        | inr y ↦ rw y refl
      ]

  module _ (input : Batch) (before : List ℕ) (stored : input.head ≤ length input.samples)
      (short : input.head < 2 ^ 64)
      (time : start + (length before + input.head) * p + p * n < 2 ^ 64) where
    abbrev pub seen : ℕ → List ℕ
    seen i = before ++ take i input.samples

    -- The worker has taken in all the samples before `input_idx`.
    pub record At (w : Work) : Type 0 where
      pub inv : Inv n p start (seen w.input_idx) w.output w.bm w.sent
      pub now : w.current_timestamp ≡ start + (length before + w.input_idx) * p
      pub within : w.input_idx ≤ input.head

    -- The worker has got further in the input.
    abbrev Onward : Work → Work → Type 0
    Onward w w' = At w' × (w.input_idx < w'.input_idx)

    seen-length : (i : ℕ) → i ≤ input.head → length (seen i) ≡ length before + i
    seen-length i h = omega (
      arith,
      length-append before (take i input.samples),
      length-take i input.samples (omega arith),
    )

    clock_bound : (i : ℕ) → i ≤ input.head → start + (length before + i) * p + p * n < 2 ^ 64
    clock_bound i h =
        let le : (length before + i) * p ≤ (length before + input.head) * p =
          mul-le-mul_right p (omega arith) in
        omega arith

    seen-add : (i k : ℕ) → seen i ++ take k (drop i input.samples) ≡ seen (i + k)
    seen-add i k =
        append_assoc before (take i input.samples) (take k (drop i input.samples))
        ∙ ap (λ (l : List ℕ). before ++ l) (sym (take-add i k input.samples))

    later_time :
        (i k : ℕ)
        → i + k ≤ input.head
        → u64 (start + (length before + i) * p + k * p) ≡ start + (length before + (i + k)) * p
    later_time i k h =
        let bound = clock_bound (i + k) h in
        let apart : (length before + (i + k)) * p ≡ (length before + i) * p + k * p =
          ap (λ (m : ℕ). m * p) {x = length before + (i + k)} {y = length before + i + k}
            (omega arith)
          ∙ add-mul (length before + i) k p in
        mod-eq_of_lt (omega arith) ∙ omega arith

    copy-At :
        (out : Batch) (bm : Matcher) (w : Work)
        → Ready n p start (seen w.input_idx) out bm w.sent
        → w.current_timestamp ≡ start + (length before + w.input_idx) * p
        → w.input_idx < input.head
        → Onward w (copy input (amount bm (input.head - w.input_idx) w.current_timestamp) out bm w)
    copy-At out bm w r now lt =
        let i : ℕ = w.input_idx in
        let k : ℕ = min (input.head - i) (n - bm.accumulated) in
        let xs : List ℕ = take k (drop i input.samples) in
        let len : length xs ≡ k =
          length-take k (drop i input.samples) (omega (arith, length-drop i input.samples)) in
        let so_far = seen-length i (omega arith) in
        let bound = clock_bound i (omega arith) in
        let here : start + length (seen i) * p ≡ w.current_timestamp =
          ap (λ (l : ℕ). start + l * p) so_far ∙ sym now in
        let amount_is : amount bm (input.head - i) w.current_timestamp ≡ length xs =
          amount-min bm (input.head - i) w.current_timestamp r.size r.period r.batch_period r.room
            (omega (arith, r.clock)) (omega (arith, r.clock))
          ∙ sym len in
        let c : Work = copy input (length xs) out bm w in
        let idx : c.input_idx ≡ i + k =
          copy-input_idx input (length xs) out bm w
          ∙ ap (λ (m : ℕ). u64 (i + m)) len
          ∙ mod-eq_of_lt {n = i + k} {m = 2 ^ 64} (omega arith) in
        let same : seen i ++ xs ≡ seen c.input_idx = seen-add i k ∙ sym (ap seen idx) in
        let later : c.current_timestamp ≡ start + (length before + c.input_idx) * p =
          copy-current_timestamp input (length xs) out bm w
          ∙ ap u64 (ap₂ ◌+◌ now (ap₂ ◌*◌ len r.period))
          ∙ later_time i k (omega arith)
          ∙ ap (λ (m : ℕ). start + (length before + m) * p) (sym idx) in
        rw amount_is (
          record {
            inv =
                subst (λ (l : List ℕ). Inv n p start l c.output c.bm c.sent) same
                  (copy-Inv n p start (seen i) xs out bm w input r
                    (ap (λ (m : ℕ). take m (drop i input.samples)) len) (omega arith) word
                    (omega arith));
            now = later;
            within = omega (arith, idx);
          },
          omega (arith, idx),
        )

    -- The time is never before the output batch's.
    on_time :
        (w : Work)
        → At w
        → w.bm.next_boundary_ns ≤ start + length (seen w.input_idx) * p
        → ltb w.current_timestamp w.bm.next_boundary_ns ≡ false
    on_time w a le =
        let same = ap (λ (l : ℕ). start + l * p) (seen-length w.input_idx a.within) in
        ground (arith, a.now)

    round-At :
        (slot : List Batch → Batch) (w : Work)
        → At w
        → w.input_idx < input.head
        → Onward w (round slot input w)
    round-At slot w a lt = elim (Option-cases w.output) [
      | inl e ↦
          let inv = subst (λ o. Inv n p start (seen w.input_idx) o w.bm w.sent) e a.inv in
          let bm : Matcher = record w.bm { accumulated = 0 } in
          subst (Onward w)
            (sym (round-none slot input w (on_time w a (omega (arith, inv.clock))) e))
            (copy-At (opened bm (slot w.sent)) bm w
              (Ready-opened n p start (seen w.input_idx) (slot w.sent) w.bm w.sent pos inv) a.now
              lt)
      | inr (out, e) ↦
          let inv = subst (λ o. Inv n p start (seen w.input_idx) o w.bm w.sent) e a.inv in
          subst (Onward w)
            (sym (round-some slot input w out (on_time w a (omega (arith, inv.clock))) e))
            (copy-At out w.bm w inv a.now lt)
    ]

    -- With a round for each sample the loop takes in all of them.
    pub process-At :
        (slot : List Batch → Batch) (rounds : ℕ) (w : Work)
        → At w
        → input.head ≤ w.input_idx + rounds
        → At (process slot rounds input w) × ((process slot rounds input w).input_idx ≡ input.head)
    unfolding process
    process-At slot zero w a enough = (a, omega (arith, a.within))
    process-At slot (suc rounds) w a enough = elim (Bool-cases (ltb w.input_idx input.head)) [
      | inl lt ↦
          let (a', further) = round-At slot w a (ltb→lt w.input_idx input.head lt) in
          rw lt (process-At slot rounds (round slot input w) a' (omega arith))
      | inr done ↦ rw done (a, ground (arith, a.within))
    ]
