-- ===== src/Batches.antt =====
-- What the reader of a batch sees (bpipe/batch_buffer.h), and the copies that the workers of the
-- filters make between batches.
use mathlib.Core.List.{append_assoc, append-nil}
use bpipe.Base.{
  ℕ, ◌+◌, ◌≤◌, ◌≡◌, refl, sym, ap, ◌∙◌, List, [], ◌∷◌, ◌++◌, arith, length, take, drop, map,
  length-append, length-take, take-length,
}
use bpipe.Ring.{Batch}

-- `memcpy` of `xs` to the sample `off` of `dst`.
abbrev pub overwrite : ℕ → List ℕ → List ℕ → List ℕ
overwrite off xs dst = take off dst ++ xs ++ drop (off + length xs) dst

-- The samples of a batch that its reader sees.
abbrev pub readable : Batch → List ℕ
readable b = take b.head b.samples

abbrev pub joined : List Batch → List ℕ
joined [] = []
joined (b ∷ bs) = readable b ++ joined bs

pub joined-snoc : (bs : List Batch) (b : Batch) → joined (bs ++ b ∷ []) ≡ joined bs ++ readable b
joined-snoc [] b = append-nil (readable b)
joined-snoc (c ∷ bs) b =
    ap (λ l. readable c ++ l) (joined-snoc bs b)
    ∙ sym (append_assoc (readable c) (joined bs) (readable b))

-- The samples before and within a piece that is written over others.
pub take-overwrite :
    (a : ℕ) (xs dst : List ℕ)
    → a ≤ length dst
    → take (a + length xs) (overwrite a xs dst) ≡ take a dst ++ xs
take-overwrite a xs dst h =
    ap (λ (k : ℕ). take k (overwrite a xs dst))
      (omega (arith, length-append (take a dst) xs, length-take a dst h))
    ∙ take-length (take a dst ++ xs) (drop (a + length xs) dst)

pub length-overwrite :
    (a : ℕ) (xs dst : List ℕ) → a ≤ length dst → a + length xs ≤ length (overwrite a xs dst)
length-overwrite a xs dst h =
    let rest : List ℕ = drop (a + length xs) dst in
    omega (
      arith,
      length-append (take a dst ++ xs) rest,
      length-append (take a dst) xs,
      length-take a dst h,
    )

-- An output batch as its reader sees it.
pub record Stamped : Type 0 where
  pub t_ns : ℕ
  pub period_ns : ℕ
  pub batch_id : ℕ
  pub samples : List ℕ

abbrev pub view : Batch → Stamped
view b = record {
  t_ns = b.t_ns;
  period_ns = b.period_ns;
  batch_id = b.batch_id;
  samples = readable b;
}

pub map-append : (xs ys : List Batch) → map view (xs ++ ys) ≡ map view xs ++ map view ys
map-append [] ys = refl
map-append (x ∷ xs) ys = ap (◌∷◌ (view x)) (map-append xs ys)
