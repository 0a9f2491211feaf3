-- ===== src/Pipeline/Sort/Dfs.antt =====
-- A whole visit of bpipe/pipeline.c, on enough fuel: it ends with its filter sorted, or at a cycle.
use mathlib.Core.List.{reverse}
use native.Mathlib.Decide.{ℕ_discrete}
use bpipe.Base.{
  ℕ, zero, suc, ◌<◌, ◌≡◌, refl, sym, ap, subst, ◌∙◌, inl, inr, Bool, true, false, none, some, List,
  [], ◌∷◌, arith, ◌==◌, ==_iff, Bool-cases, get_or, get_or-set_ne,
}
use bpipe.Err.{ok, invalid_config}
use bpipe.Pipeline.{FilterRef, Connection}
use bpipe.Pipeline.Sort.{Visits, Result, continue, each, enter, leave, visit}
use bpipe.Pipeline.Sort.Graph.{In, Edge, Reach, edge, onward}
use bpipe.Pipeline.Sort.Marks.{mark, downs, downs-set}
use bpipe.Pipeline.Sort.Visit.{
  Closed, Ends, Ends-continue, index, index-lt, get-index, Inv, Post, Post-refl, Post-trans, Stack,
  Visited, Calls,
}
use bpipe.Pipeline.Sort.Leave.{enter-Inv, leave-Visited}

each-nil :
    (call : FilterRef → Visits → Result) (x : FilterRef) (s : Visits)
    → each call x [] s ≡ some (ok, s)
unfolding each
each-nil call x s = refl

each-hit :
    (call : FilterRef → Visits → Result) (x : FilterRef) (c : Connection) (cs : List Connection)
    (s : Visits)
    → (c.from_filter == x) ≡ true
    → each call x (c ∷ cs) s ≡ continue (each call x cs) (call c.to_filter s)
unfolding each
each-hit call x c cs s h = rw (h, each)

each-skip :
    (call : FilterRef → Visits → Result) (x : FilterRef) (c : Connection) (cs : List Connection)
    (s : Visits)
    → (c.from_filter == x) ≡ false
    → each call x (c ∷ cs) s ≡ each call x cs s
unfolding each
each-skip call x c cs s h = rw (h, each)

module _ (filters : List FilterRef) (connections : List Connection) where
  abbrev pub Ended : (Visits → Type 0) → Result → Type 0
  Ended = Ends filters connections

  -- The loop over the connections `cs`: whatever `x` feeds among them has been visited.
  abbrev Fed : FilterRef → List Connection → Visits → Visits → Type 0
  Fed x cs s s' =
      Post filters connections s s'
      × ((c : Connection) → In c cs → c.from_filter ≡ x → In c.to_filter (reverse s'.sorted))

  pub Ends-map :
      (Q R : Visits → Type 0) (r : Result) → Ended Q r → ((s : Visits) → Q s → R s) → Ended R r
  Ends-map Q R none h f = absurd h
  Ends-map Q R (some (e, s)) (inl (p, q)) f = inl (p, f s q)
  Ends-map Q R (some (e, s)) (inr h) f = inr h

  Fed-skip :
      (x : FilterRef) (c : Connection) (cs : List Connection) (s s' : Visits)
      → (c.from_filter == x) ≡ false
      → Fed x cs s s'
      → Fed x (c ∷ cs) s s'
  Fed-skip x c cs s s' skip (p, f) = (p, all)
    where
      all :
          (d : Connection) → In d (c ∷ cs) → d.from_filter ≡ x → In d.to_filter (reverse s'.sorted)
      all d (inl q) e = absurd (clash (ap (λ (k : Connection). k.from_filter) (sym q) ∙ e))
        where
          clash : c.from_filter ≡ x → ⊥
          clash h = let t : (c.from_filter == x) ≡ true = (==_iff _ _).1 h in cc
      all d (inr m) e = f d m e

  Fed-hit :
      (x : FilterRef) (c : Connection) (cs : List Connection) (a b s : Visits)
      → Visited filters connections c.to_filter a b
      → Fed x cs b s
      → Fed x (c ∷ cs) a s
  Fed-hit x c cs a b s (p, at) (q, f) = (Post-trans filters connections p q, all)
    where
      all : (d : Connection) → In d (c ∷ cs) → d.from_filter ≡ x → In d.to_filter (reverse s.sorted)
      all d (inl e) h =
          q.grows d.to_filter
            (subst (λ (k : Connection). In k.to_filter (reverse b.sorted)) (sym e) at)
      all d (inr m) h = f d m h

  visit-busy :
      (n : ℕ) (x : FilterRef) (s : Visits)
      → mark s.visiting (index filters x) ≡ true
      → visit filters connections (suc n) x s ≡ some (invalid_config, s)
  unfolding visit
  visit-busy n x s h = rw (h, visit)

  visit-old :
      (n : ℕ) (x : FilterRef) (s : Visits)
      → mark s.visiting (index filters x) ≡ false
      → mark s.visited (index filters x) ≡ true
      → visit filters connections (suc n) x s ≡ some (ok, s)
  unfolding visit
  visit-old n x s h v = rw (h, v, visit)

  visit-new :
      (n : ℕ) (x : FilterRef) (s : Visits)
      → mark s.visiting (index filters x) ≡ false
      → mark s.visited (index filters x) ≡ false
      → visit filters connections (suc n) x s
        ≡ continue
            (λ s'. some (ok, leave (index filters x) x s'))
            (each (visit filters connections n) x connections (enter (index filters x) s))
  unfolding visit
  visit-new n x s h v = rw (h, v, visit)

  module _ (closed : Closed filters connections) (n : ℕ) (call : FilterRef → Visits → Result) where
    each-Fed :
        Calls filters connections n call
        → (x : FilterRef) (cs : List Connection) (s : Visits)
        → ((c : Connection) → In c cs → In c connections)
        → Inv filters connections s
        → ((y : FilterRef) → Edge connections x y → Stack filters connections y s)
        → downs s.visiting < n
        → Ended (Fed x cs s) (each call x cs s)
    each-Fed calls x [] s sub v stack room =
        rw (each-nil call x s) (inl (refl, (Post-refl filters connections v, λ c h e. absurd h)))
    each-Fed calls x (c ∷ cs) s sub v stack room = elim (Bool-cases (c.from_filter == x)) [
      | inr skip ↦ rw (each-skip call x c cs s skip) (
          Ends-map (Fed x cs s) (Fed x (c ∷ cs) s) (each call x cs s)
            (each-Fed calls x cs s (λ d h. sub d (inr h)) v stack room)
            (λ s'. Fed-skip x c cs s s' skip))
      | inl hit ↦ rw (each-hit call x c cs s hit) (
          Ends-continue filters connections (Visited filters connections c.to_filter s)
            (Fed x (c ∷ cs) s) (each call x cs) (call c.to_filter s)
            (calls c.to_filter s (closed c (sub c (inl refl))) v
              (stack c.to_filter (c, sub c (inl refl), (==_iff _ _).0 hit, refl)) room)
            (λ s' q.
              Ends-map (Fed x cs s') (Fed x (c ∷ cs) s) (each call x cs s')
                (each-Fed calls x cs s' (λ d h. sub d (inr h)) q.0.inv
                  (λ y e z h m.
                    stack y e z h (
                      ap (λ (w : List Bool). mark w (index filters z)) (sym q.0.same_visiting) ∙ m))
                  (subst (λ (w : List Bool). downs w < n) (sym q.0.same_visiting) room))
                (λ s''. Fed-hit x c cs s s' s'' q)))
    ]

  -- While the connections of `x` are followed, `x` too is under way.
  entered-Stack :
      (x : FilterRef) (s : Visits)
      → In x filters
      → Stack filters connections x s
      → (y : FilterRef) → Edge connections x y
      → Stack filters connections y (enter (index filters x) s)
  entered-Stack x s hx stack y e z hz m = elim (ℕ_discrete (index filters x) (index filters z)) [
    | yes q ↦
        subst (λ w. Reach connections w y)
          (sym (get-index filters x hx)
            ∙ ap (λ (k : ℕ). get_or filters k 0) q
            ∙ get-index filters z hz)
          (edge e)
    | no n ↦
        onward
          (stack z hz
            (sym (get_or-set_ne s.visiting (index filters x) (index filters z) true false n) ∙ m))
          e
  ]

  -- On more fuel than there are filters not under way, a visit ends: with its filter sorted, or at
  -- a cycle.
  pub visit-Calls :
      Closed filters connections
      → (n : ℕ) → Calls filters connections n (visit filters connections n)
  visit-Calls closed zero x s hx v stack room = absurd (omega arith)
  visit-Calls closed (suc n) x s hx v stack room =
      elim (Bool-cases (mark s.visiting (index filters x))) [
        | inl busy ↦ rw (visit-busy n x s busy) (inr (refl, (x, hx, stack x hx busy)))
        | inr free ↦ elim (Bool-cases (mark s.visited (index filters x))) [
          | inl old ↦
              rw (visit-old n x s free old)
                (inl (refl, (Post-refl filters connections v, sorted old)))
          | inr new ↦ rw (visit-new n x s free new) (
              Ends-continue filters connections (Fed x connections (enter (index filters x) s))
                (Visited filters connections x s) (λ s'. some (ok, leave (index filters x) x s'))
                (each (visit filters connections n) x connections (enter (index filters x) s))
                (each-Fed closed n (visit filters connections n) (visit-Calls closed n) x
                  connections (enter (index filters x) s) (λ c h. h)
                  (enter-Inv filters connections (index filters x) v) (entered-Stack x s hx stack)
                  (less free))
                (λ s' q. inl (
                  refl,
                  leave-Visited filters connections x hx v free new q.0
                      (λ y e. subst (λ w. In w (reverse s'.sorted)) e.3 (q.1 e.0 e.1 e.2)),
                )))
        ]
      ]
    where
      sorted : mark s.visited (index filters x) ≡ true → In x (reverse s.sorted)
      sorted old =
          subst (λ w. In w (reverse s.sorted)) (get-index filters x hx)
            (v.listed (index filters x) (index-lt filters x hx) old)

      less :
          mark s.visiting (index filters x) ≡ false → downs (enter (index filters x) s).visiting < n
      less free = omega (
        arith,
        downs-set s.visiting (index filters x)
            (subst (λ (k : ℕ). index filters x < k) (sym v.visiting_size) (index-lt filters x hx))
            free,
      )
