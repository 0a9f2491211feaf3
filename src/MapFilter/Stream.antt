-- ===== src/MapFilter/Stream.antt =====
-- The samples that pass through map_worker (bpipe/map.c), and the form of its input and output.
use bpipe.Base.{
  ℕ, suc, ◌+◌, ◌-◌, ◌≤◌, ◌<◌, ◌≡◌, refl, ap, ◌∙◌, Option, none, some, List, [], ◌∷◌, ◌++◌, arith,
  length, take, drop, take-add, drop-drop, length-take, length-drop, map, All,
}
use bpipe.Err.{timeout}
use bpipe.Batches.{joined, readable}
use bpipe.Ring.{Batch}
use bpipe.MapFilter.{Fetch, fetched, missed}

module _ (g : ℕ → ℕ) where
  pub map-append : (xs ys : List ℕ) → map g (xs ++ ys) ≡ map g xs ++ map g ys
  map-append [] ys = refl
  map-append (x ∷ xs) ys = ap (◌∷◌ (g x)) (map-append xs ys)

  pub length-map : (xs : List ℕ) → length (map g xs) ≡ length xs
  length-map [] = refl
  length-map (x ∷ xs) = ap suc (length-map xs)

-- The samples that the output batch holds, and those of the input batch that are left.
abbrev pub held : Option Batch → List ℕ
held none = []
held (some out) = readable out

abbrev pub unread : Option Batch → ℕ → List ℕ
unread none c = []
unread (some b) c = take (b.head - c) (drop c b.samples)

abbrev pub supplied : List Fetch → List ℕ
supplied [] = []
supplied (missed e ∷ is) = supplied is
supplied (fetched b ∷ is) = readable b ++ supplied is

-- Every fetch times out or gives a batch.
abbrev pub Sound : List Fetch → Type 0
Sound [] = Unit
Sound (missed e ∷ is) = (e ≡ timeout) × Sound is
Sound (fetched b ∷ is) = (b.head ≤ length b.samples) × Sound is

-- Rounds that the input may take.
abbrev pub cost : List Fetch → ℕ
cost [] = 0
cost (missed e ∷ is) = suc (cost is)
cost (fetched b ∷ is) = suc (b.head + cost is)

-- At most one batch, which is not full.
abbrev pub Short : ℕ → List Batch → Type 0
Short size [] = Unit
Short size (b ∷ []) = (0 < b.head) × (b.head < size)
Short size _ = ⊥

-- The worker has sent full batches and at most one that is not, which hold `samples`.
abbrev pub Packed : ℕ → List ℕ → List Batch → Type 0
Packed size samples sent =
    (full last : List Batch) × (sent ≡ full ++ last)
    × All (λ b. b.head ≡ size) full
    × Short size last
    × (joined sent ≡ samples)

abbrev pub HasRoom : ℕ → Option Batch → Type 0
HasRoom size none = Unit
HasRoom size (some out) = (out.head < size) × (out.head ≤ length out.samples)

abbrev pub IsRead : Option Batch → ℕ → Type 0
IsRead none c = Unit
IsRead (some b) c = (b.head ≤ length b.samples) × (c ≤ b.head)

-- `n` samples of the input taken from what is left of it.
pub unread-split :
    (b : Batch) (c n : ℕ)
    → n ≤ b.head - c
    → unread (some b) c ≡ take n (drop c b.samples) ++ unread (some b) (c + n)
unread-split b c n h =
    ap (λ (k : ℕ). take k (drop c b.samples)) {x = b.head - c} {y = n + (b.head - (c + n))}
      (omega arith)
    ∙ take-add n (b.head - (c + n)) (drop c b.samples)
    ∙ ap (λ (l : List ℕ). take n (drop c b.samples) ++ take (b.head - (c + n)) l)
        (drop-drop c n b.samples)

pub length-unread :
    (b : Batch) (c : ℕ) → b.head ≤ length b.samples → length (unread (some b) c) ≡ b.head - c
length-unread b c h =
    length-take (b.head - c) (drop c b.samples) (omega (arith, length-drop c b.samples))
