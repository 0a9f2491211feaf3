-- ===== src/Buffer/Segment.antt =====
-- Runs of slots of the batch ring, with the indices taken modulo the size of the ring.
use native.Mathlib.Nat.{mod-eq_of_lt, mod-eq-sub-mod, mod-add-mod}
use native.Mathlib.Decide.{dec_lt}
use bpipe.Base.{
  ℕ, zero, suc, ◌+◌, ◌-◌, ◌%◌, ◌≤◌, ◌<◌, ◌≡◌, ◌≢◌, refl, sym, ap, ap₂, ◌∙◌, List, [], ◌∷◌, ◌++◌,
  arith, length, get_or, set, get_or-set_ne,
}
use bpipe.Ring.{Batch, zero_batch}

module _ (ring : List Batch) (n : ℕ) where
  -- The `k` batches from index `i` on, the indices taken modulo `n`.
  abbrev pub segment : ℕ → ℕ → List Batch
  segment i zero = []
  segment i (suc k) = get_or ring (i % n) zero_batch ∷ segment (i + 1) k

  pub segment-mod : (i j k : ℕ) → i % n ≡ j % n → segment i k ≡ segment j k
  segment-mod i j zero e = refl
  segment-mod i j (suc k) e =
      ap₂ (λ (s : ℕ). ◌∷◌ (get_or ring s zero_batch)) e (segment-mod (i + 1) (j + 1) k shifted)
    where
      shifted : (i + 1) % n ≡ (j + 1) % n
      shifted = sym (mod-add-mod i n 1) ∙ ap (λ (s : ℕ). (s + 1) % n) e ∙ mod-add-mod j n 1

  pub segment-snoc :
      (i k : ℕ) → segment i (suc k) ≡ segment i k ++ get_or ring ((i + k) % n) zero_batch ∷ []
  segment-snoc i zero = ap (λ (s : ℕ). get_or ring (s % n) zero_batch ∷ []) (omega arith)
  segment-snoc i (suc k) = ap (◌∷◌ (get_or ring (i % n) zero_batch)) (
      segment-snoc (i + 1) k
      ∙ ap (λ (s : ℕ). segment (i + 1) k ++ get_or ring (s % n) zero_batch ∷ []) (omega arith))

  pub length-segment : (i k : ℕ) → length (segment i k) ≡ k
  length-segment i zero = refl
  length-segment i (suc k) = ap suc (length-segment (i + 1) k)

-- A batch that no index of the segment names may be overwritten.
pub segment-set :
    (ring : List Batch) (n p : ℕ) (x : Batch) (i k : ℕ)
    → ((m : ℕ) → m < k → p ≢ (i + m) % n)
    → segment (set ring p x) n i k ≡ segment ring n i k
segment-set ring n p x i zero away = refl
segment-set ring n p x i (suc k) away =
    ap₂ ◌∷◌ (get_or-set_ne ring p (i % n) x zero_batch here)
      (segment-set ring n p x (i + 1) k later)
  where
    here : p ≢ i % n
    here e = away 0 (omega arith) (e ∙ ap (λ (s : ℕ). s % n) (omega arith))

    later : (m : ℕ) → m < k → p ≢ (i + 1 + m) % n
    later m h e = away (m + 1) (omega arith) (e ∙ ap (λ (s : ℕ). s % n) (omega arith))

-- Indices less than a round apart name different slots.
pub slots-ne : (n t m k : ℕ) → t < n → m < k → k < n → (t + k) % n ≢ (t + m) % n
slots-ne n t m k ht hm hk e = elim (dec_lt (t + k) n) [
  | yes p ↦ omega (arith, mod-eq_of_lt p, mod-eq_of_lt {n = t + m} {m = n} (omega arith))
  | no p ↦ elim (dec_lt (t + m) n) [
    | yes q ↦ omega (arith, mod-eq_of_lt q, around k (omega arith) (omega arith))
    | no q ↦
        omega (arith, around k (omega arith) (omega arith), around m (omega arith) (omega arith))
  ]
]
  where
    around : (j : ℕ) → n ≤ t + j → j < n → (t + j) % n ≡ t + j - n
    around j h l =
        mod-eq-sub-mod {n = t + j} {m = n} h ∙ mod-eq_of_lt {n = t + j - n} {m = n} (omega arith)
