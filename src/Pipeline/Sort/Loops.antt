-- ===== src/Pipeline/Sort/Loops.antt =====
-- The two loops of topological_sort (bpipe/pipeline.c) that start visits.
use mathlib.Core.List.{reverse}
use bpipe.Base.{
  ℕ, zero, suc, ◌+◌, ◌<◌, ◌≡◌, refl, sym, ap, subst, ◌∙◌, inl, inr, Bool, true, false, some, List,
  [], ◌∷◌, arith, Bool-cases, length, get_or, replicate, length-replicate, get_or-replicate,
}
use bpipe.Err.{ok}
use bpipe.Pipeline.{FilterRef, Connection}
use bpipe.Pipeline.Sort.{Visits, continue, visit, visit_starts, visit_rest, no_visits}
use bpipe.Pipeline.Sort.Graph.{In}
use bpipe.Pipeline.Sort.Marks.{mark, downs, ups-replicate, downs-replicate}
use bpipe.Pipeline.Sort.Visit.{
  Closed, Ends, Ends-continue, index, Inv, Post, Post-refl, Post-trans, Visited,
}
use bpipe.Pipeline.Sort.Dfs.{Ends-map, visit-Calls}

In-get_or : (fs : List FilterRef) (i : ℕ) → i < length fs → In (get_or fs i 0) fs
In-get_or [] i h = absurd (omega arith)
In-get_or (f ∷ fs) zero h = inl refl
In-get_or (f ∷ fs) (suc i) h = inr (In-get_or fs i (omega arith))

module _ (filters : List FilterRef) (connections : List Connection)
    (closed : Closed filters connections) where
  abbrev pub start : Visits
  start = no_visits (length filters)

  no_mark : (i : ℕ) → mark (replicate (length filters) false) i ≡ true → ⊥
  no_mark i h = let e = get_or-replicate (length filters) i false in cc e

  pub start-Inv : Inv filters connections start
  start-Inv = record {
    visited_size = length-replicate (length filters) false;
    visiting_size = length-replicate (length filters) false;
    counted = ups-replicate (length filters);
    listed = λ i h m. absurd (no_mark i m);
    marked = λ x h. absurd h;
    ordered = tt;
  }

  abbrev pub Started : Visits → Type 0
  Started s = Post filters connections start s

  -- A visit from one of the two loops of the sort.
  visit-Started :
      (x : FilterRef) (s : Visits)
      → In x filters
      → Started s
      → Ends filters connections
          (Visited filters connections x s)
          (visit filters connections (suc (length filters)) x s)
  visit-Started x s h p =
      visit-Calls filters connections closed (suc (length filters)) x s h p.inv
        (λ z hz m. absurd (
          no_mark (index filters z)
            (ap (λ (w : List Bool). mark w (index filters z)) (sym p.same_visiting) ∙ m)))
        (subst (λ (w : List Bool). downs w < suc (length filters)) (sym p.same_visiting)
          (omega (arith, downs-replicate (length filters))))

  abbrev pub fuel : ℕ
  fuel = suc (length filters)

  starts-skip :
      (starts : FilterRef → Bool) (f : FilterRef) (fs : List FilterRef) (s : Visits)
      → starts f ≡ false
      → visit_starts filters connections fuel starts (f ∷ fs) s
        ≡ visit_starts filters connections fuel starts fs s
  unfolding visit_starts
  starts-skip starts f fs s h = rw (h, visit_starts)

  starts-go :
      (starts : FilterRef → Bool) (f : FilterRef) (fs : List FilterRef) (s : Visits)
      → starts f ≡ true
      → visit_starts filters connections fuel starts (f ∷ fs) s
        ≡ continue
            (visit_starts filters connections fuel starts fs)
            (visit filters connections fuel f s)
  unfolding visit_starts
  starts-go starts f fs s h = rw (h, visit_starts)

  rest-skip :
      (i : ℕ) (f : FilterRef) (fs : List FilterRef) (s : Visits)
      → mark s.visited i ≡ true
      → visit_rest filters connections fuel i (f ∷ fs) s
        ≡ visit_rest filters connections fuel (i + 1) fs s
  unfolding visit_rest
  rest-skip i f fs s h = rw (h, visit_rest)

  rest-go :
      (i : ℕ) (f : FilterRef) (fs : List FilterRef) (s : Visits)
      → mark s.visited i ≡ false
      → visit_rest filters connections fuel i (f ∷ fs) s
        ≡ continue
            (visit_rest filters connections fuel (i + 1) fs)
            (visit filters connections fuel f s)
  unfolding visit_rest
  rest-go i f fs s h = rw (h, visit_rest)

  starts-nil :
      (starts : FilterRef → Bool) (s : Visits)
      → visit_starts filters connections fuel starts [] s ≡ some (ok, s)
  unfolding visit_starts
  starts-nil starts s = refl

  rest-nil : (i : ℕ) (s : Visits) → visit_rest filters connections fuel i [] s ≡ some (ok, s)
  unfolding visit_rest
  rest-nil i s = refl

  pub starts-Started :
      (starts : FilterRef → Bool) (fs : List FilterRef) (s : Visits)
      → ((x : FilterRef) → In x fs → In x filters)
      → Started s
      → Ends filters connections Started
          (visit_starts filters connections (suc (length filters)) starts fs s)
  starts-Started starts [] s sub p = rw (starts-nil starts s) (inl (refl, p))
  starts-Started starts (f ∷ fs) s sub p = elim (Bool-cases (starts f)) [
    | inr skip ↦
        rw (starts-skip starts f fs s skip) (starts-Started starts fs s (λ x h. sub x (inr h)) p)
    | inl go ↦ rw (starts-go starts f fs s go) (
        Ends-continue filters connections (Visited filters connections f s) Started
          (visit_starts filters connections (suc (length filters)) starts fs)
          (visit filters connections (suc (length filters)) f s)
          (visit-Started f s (sub f (inl refl)) p)
          (λ s' q.
            starts-Started starts fs s' (λ x h. sub x (inr h))
              (Post-trans filters connections p q.0)))
  ]

  -- The filters from index `i` on have all been sorted.
  abbrev pub Covered : List FilterRef → Visits → Visits → Type 0
  Covered fs s s' =
      Post filters connections s s' × ((x : FilterRef) → In x fs → In x (reverse s'.sorted))

  -- `fs` are the filters from index `i` on.
  abbrev pub From : ℕ → List FilterRef → Type 0
  From i fs =
      (k : ℕ)
      → k < length fs
      → (i + k < length filters) × (get_or filters (i + k) 0 ≡ get_or fs k 0)

  From-suc : (i : ℕ) (f : FilterRef) (fs : List FilterRef) → From i (f ∷ fs) → From (i + 1) fs
  From-suc i f fs h k lt =
      let (a, b) = h (suc k) (omega arith) in
      (omega arith, ap (λ (j : ℕ). get_or filters j 0) (omega arith) ∙ b)

  pub rest-Covered :
      (i : ℕ) (fs : List FilterRef) (s : Visits)
      → ((x : FilterRef) → In x fs → In x filters)
      → From i fs
      → Started s
      → Ends filters connections (Covered fs s) (visit_rest filters connections fuel i fs s)
  rest-Covered i [] s sub from p =
      rw (rest-nil i s) (inl (refl, (Post-refl filters connections p.inv, λ x h. absurd h)))
  rest-Covered i (f ∷ fs) s sub from p = elim (Bool-cases (mark s.visited i)) [
    | inl old ↦ rw (rest-skip i f fs s old) (
        Ends-map filters connections (Covered fs s) (Covered (f ∷ fs) s)
          (visit_rest filters connections fuel (i + 1) fs s)
          (rest-Covered (i + 1) fs s (λ x h. sub x (inr h)) (From-suc i f fs from) p)
          (λ s' q. (q.0, both s' (q.0.grows f (listed old)) q.1)))
    | inr new ↦ rw (rest-go i f fs s new) (
        Ends-continue filters connections (Visited filters connections f s) (Covered (f ∷ fs) s)
          (visit_rest filters connections fuel (i + 1) fs) (visit filters connections fuel f s)
          (visit-Started f s (sub f (inl refl)) p)
          (λ s' q.
            Ends-map filters connections (Covered fs s') (Covered (f ∷ fs) s)
              (visit_rest filters connections fuel (i + 1) fs s')
              (rest-Covered (i + 1) fs s' (λ x h. sub x (inr h)) (From-suc i f fs from)
                (Post-trans filters connections p q.0))
              (λ s'' r. (Post-trans filters connections q.0 r.0, both s'' (r.0.grows f q.1) r.1))))
  ]
    where
      both :
          (s' : Visits)
          → In f (reverse s'.sorted)
          → ((x : FilterRef) → In x fs → In x (reverse s'.sorted))
          → (x : FilterRef) → In x (f ∷ fs)
          → In x (reverse s'.sorted)
      both s' hf rest x (inl e) = subst (λ y. In y (reverse s'.sorted)) (sym e) hf
      both s' hf rest x (inr h) = rest x h

      listed : mark s.visited i ≡ true → In f (reverse s.sorted)
      listed old =
          let (a, b) = from 0 (omega arith) in
          let e : i + 0 ≡ i = omega arith in
          subst (λ y. In y (reverse s.sorted)) b
            (subst (λ (j : ℕ). In (get_or filters j 0) (reverse s.sorted)) (sym e)
              (p.inv.listed i (omega arith) old))
