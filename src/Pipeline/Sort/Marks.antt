-- ===== src/Pipeline/Sort/Marks.antt =====
-- Arrays of marks, and the search for the index of a filter (bpipe/pipeline.c).
use bpipe.Base.{
  ℕ, zero, suc, ◌+◌, ◌≤◌, ◌<◌, ◌≡◌, refl, sym, ap, ◌∙◌, inl, inr, Bool, true, false, List, [], ◌∷◌,
  arith, ◌==◌, ==_iff, Bool-cases, length, get_or, set, replicate,
}
use bpipe.Pipeline.{FilterRef}
use bpipe.Pipeline.Sort.{find_index}
use bpipe.Pipeline.Sort.Graph.{In}

-- `marks[i]`
abbrev pub mark : List Bool → ℕ → Bool
mark v i = get_or v i false

-- How many marks are up, and how many are down.
pub ups : List Bool → ℕ
ups [] = 0
ups (true ∷ v) = suc (ups v)
ups (false ∷ v) = ups v

pub downs : List Bool → ℕ
downs [] = 0
downs (true ∷ v) = downs v
downs (false ∷ v) = suc (downs v)

pub ups-set :
    (v : List Bool) (i : ℕ) → i < length v → mark v i ≡ false → ups (set v i true) ≡ suc (ups v)
unfolding ups
ups-set [] i h m = absurd (omega arith)
ups-set (true ∷ v) zero h m = cc
ups-set (false ∷ v) zero h m = refl
ups-set (true ∷ v) (suc i) h m = ap suc (ups-set v i (omega arith) m)
ups-set (false ∷ v) (suc i) h m = ups-set v i (omega arith) m

pub downs-set :
    (v : List Bool) (i : ℕ) → i < length v → mark v i ≡ false → suc (downs (set v i true)) ≡ downs v
unfolding downs
downs-set [] i h m = absurd (omega arith)
downs-set (true ∷ v) zero h m = cc
downs-set (false ∷ v) zero h m = refl
downs-set (true ∷ v) (suc i) h m = downs-set v i (omega arith) m
downs-set (false ∷ v) (suc i) h m = ap suc (downs-set v i (omega arith) m)

pub set-restore : (v : List Bool) (i : ℕ) → mark v i ≡ false → set (set v i true) i false ≡ v
set-restore [] i m = refl
set-restore (b ∷ v) zero m = ap (λ (x : Bool). x ∷ v) (sym m)
set-restore (b ∷ v) (suc i) m = ap (◌∷◌ b) (set-restore v i m)

pub ups-replicate : (n : ℕ) → ups (replicate n false) ≡ 0
unfolding ups
ups-replicate zero = refl
ups-replicate (suc n) = ups-replicate n

pub downs-replicate : (n : ℕ) → downs (replicate n false) ≡ n
unfolding downs
downs-replicate zero = refl
downs-replicate (suc n) = ap suc (downs-replicate n)

ups-le : (v : List Bool) → ups v ≤ length v
unfolding ups
ups-le [] = omega arith
ups-le (true ∷ v) = omega (arith, ups-le v)
ups-le (false ∷ v) = omega (arith, ups-le v)

-- With as many marks up as there are marks, each is up.
pub ups_all : (v : List Bool) → ups v ≡ length v → (i : ℕ) → i < length v → mark v i ≡ true
unfolding ups
ups_all [] e i h = absurd (omega arith)
ups_all (true ∷ v) e zero h = refl
ups_all (true ∷ v) e (suc i) h = ups_all v (omega arith) i (omega arith)
ups_all (false ∷ v) e i h = absurd (omega (arith, ups-le v))

behind : (f g : FilterRef) (gs : List FilterRef) → (g == f) ≡ false → In f (g ∷ gs) → In f gs
behind f g gs n (inl e) = absurd (ground arith)
behind f g gs n (inr h) = h

-- What the search returns for a filter of the list: its offset and an entry that is the filter.
pub find_index-In :
    (fs : List FilterRef) (f : FilterRef) (i : ℕ)
    → In f fs
    → (k : ℕ) × (find_index fs f i ≡ i + k) × (k < length fs) × (get_or fs k 0 ≡ f)
unfolding find_index
find_index-In [] f i h = absurd h
find_index-In (g ∷ gs) f i h = elim (Bool-cases (g == f)) [
  | inl e ↦ (0, rw e (omega arith), omega arith, (==_iff g f).0 e)
  | inr n ↦
      let (k, e, l, q) = find_index-In gs f (i + 1) (behind f g gs n h) in
      (suc k, rw n (e ∙ omega arith), omega arith, q)
]
