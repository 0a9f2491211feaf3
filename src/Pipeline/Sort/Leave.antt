-- ===== src/Pipeline/Sort/Leave.antt =====
-- The end of one visit of bpipe/pipeline.c: the filter joins `sorted` when all that it feeds has.
use mathlib.Core.List.{reverse, reverse-append}
use native.Mathlib.Decide.{ℕ_discrete}
use bpipe.Base.{
  ℕ, suc, ◌<◌, ◌≡◌, ◌≢◌, refl, sym, ap, subst, ◌∙◌, inl, inr, Bool, true, false, List, [], ◌∷◌,
  ◌++◌, arith, length, get_or, set, length-set, length-append, get_or-set_self, get_or-set_ne,
}
use bpipe.Pipeline.{FilterRef, Connection}
use bpipe.Pipeline.Sort.{Visits, enter, leave}
use bpipe.Pipeline.Sort.Graph.{In, Edge}
use bpipe.Pipeline.Sort.Marks.{mark, ups-set, set-restore}
use bpipe.Pipeline.Sort.Visit.{index, index-lt, get-index, Inv, Post, Visited}

pub reverse-snoc : (xs : List FilterRef) (x : FilterRef) → reverse (xs ++ x ∷ []) ≡ x ∷ reverse xs
reverse-snoc xs x = reverse-append xs (x ∷ [])

module _ (filters : List FilterRef) (connections : List Connection) where
  abbrev Valid : Visits → Type 0
  Valid = Inv filters connections

  pub enter-Inv : (i : ℕ) {s : Visits} → Valid s → Valid (enter i s)
  enter-Inv i {s} v = record {
    visited_size = v.visited_size;
    visiting_size = length-set s.visiting i true ∙ v.visiting_size;
    counted = v.counted;
    listed = v.listed;
    marked = v.marked;
    ordered = v.ordered;
  }

  module _ (x : FilterRef) (x_in : In x filters) {s s' : Visits} (v : Valid s)
      (free : mark s.visiting (index filters x) ≡ false)
      (new : mark s.visited (index filters x) ≡ false)
      (p : Post filters connections (enter (index filters x) s) s')
      (fed : (y : FilterRef) → Edge connections x y → In y (reverse s'.sorted)) where
    abbrev i : ℕ
    i = index filters x

    in_visiting : mark (enter i s).visiting i ≡ true
    in_visiting =
        get_or-set_self s.visiting i true false
          (subst (λ (n : ℕ). i < n) (sym v.visiting_size) (index-lt filters x x_in))

    still_new : mark s'.visited i ≡ false
    still_new = p.frame i in_visiting ∙ new

    in_visited : i < length s'.visited
    in_visited = subst (λ (n : ℕ). i < n) (sym p.inv.visited_size) (index-lt filters x x_in)

    not_sorted : ¬ In x (reverse s'.sorted)
    not_sorted h = let (m, e) = p.inv.marked x h in cc still_new

    listed' :
        (j : ℕ)
        → j < length filters
        → mark (set s'.visited i true) j ≡ true
        → In (get_or filters j 0) (x ∷ reverse s'.sorted)
    listed' j lt m = elim (ℕ_discrete i j) [
      | yes e ↦ inl (ap (λ (k : ℕ). get_or filters k 0) (sym e) ∙ get-index filters x x_in)
      | no n ↦ inr (p.inv.listed j lt (sym (get_or-set_ne s'.visited i j true false n) ∙ m))
    ]

    marked' :
        (y : FilterRef)
        → In y (x ∷ reverse s'.sorted)
        → In y filters × (mark (set s'.visited i true) (index filters y) ≡ true)
    marked' y (inl e) = (
      subst (λ z. In z filters) (sym e) x_in,
      ap (λ (z : FilterRef). mark (set s'.visited i true) (index filters z)) e
          ∙ get_or-set_self s'.visited i true false in_visited,
    )
    marked' y (inr h) = let (m, e) = p.inv.marked y h in (m, kept e)
      where
        kept :
            mark s'.visited (index filters y) ≡ true
            → mark (set s'.visited i true) (index filters y) ≡ true
        kept e = elim (ℕ_discrete i (index filters y)) [
          | yes q ↦
              ap (λ (k : ℕ). mark (set s'.visited i true) k) (sym q)
              ∙ get_or-set_self s'.visited i true false in_visited
          | no n ↦ get_or-set_ne s'.visited i (index filters y) true false n ∙ e
        ]

    leave-Inv : Valid (leave i x s')
    leave-Inv = record {
      visited_size = length-set s'.visited i true ∙ p.inv.visited_size;
      visiting_size = length-set s'.visiting i false ∙ p.inv.visiting_size;
      counted =
          ups-set s'.visited i in_visited still_new
          ∙ ap suc p.inv.counted
          ∙ omega (arith, length-append {0} s'.sorted (x ∷ []));
      listed = λ j lt m. rw (reverse-snoc s'.sorted x) (listed' j lt m);
      marked = λ y h. marked' y (rw (reverse-snoc s'.sorted x) at h);
      ordered = rw (reverse-snoc s'.sorted x) (not_sorted, fed, p.inv.ordered);
    }

    frame' : (j : ℕ) → mark s.visiting j ≡ true → mark (set s'.visited i true) j ≡ mark s.visited j
    frame' j m =
        let n : i ≢ j = λ e. ne_of_marks (ap (λ (k : ℕ). mark s.visiting k) e) m in
        get_or-set_ne s'.visited i j true false n
        ∙ p.frame j (get_or-set_ne s.visiting i j true false n ∙ m)
      where
        ne_of_marks : mark s.visiting i ≡ mark s.visiting j → mark s.visiting j ≡ true → ⊥
        ne_of_marks e m = cc

    -- When the connections of `x` have been followed, `x` has been visited.
    pub leave-Visited : Visited filters connections x s (leave i x s')
    leave-Visited = (
      record {
        inv = leave-Inv;
        grows = λ y h. rw (reverse-snoc s'.sorted x) (inr (p.grows y h));
        same_visiting =
            ap (λ (w : List Bool). set w i false) p.same_visiting ∙ set-restore s.visiting i free;
        frame = frame';
      },
      rw (reverse-snoc s'.sorted x) (inl refl),
    )
