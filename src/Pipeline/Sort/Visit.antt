-- ===== src/Pipeline/Sort/Visit.antt =====
-- The depth-first visit of bpipe/pipeline.c: its invariant, and how a visit ends.
use mathlib.Core.List.{reverse}
use bpipe.Base.{
  ℕ, ◌<◌, ◌≡◌, ◌≢◌, refl, sym, ap, ◌∙◌, ◌⊎◌, inl, inr, Bool, true, none, some, List, arith, length,
  get_or,
}
use bpipe.Err.{ok, invalid_config, is_ok}
use bpipe.Pipeline.{FilterRef, Connection}
use bpipe.Pipeline.Sort.{Visits, Result, continue, find_index}
use bpipe.Pipeline.Sort.Graph.{In, Reach, Ordered}
use bpipe.Pipeline.Sort.Marks.{mark, ups, downs, find_index-In}

-- Every connection leads to a filter of the list, as pipeline_init checks.
abbrev pub Closed : List FilterRef → List Connection → Type 0
Closed filters connections = (c : Connection) → In c connections → In c.to_filter filters

-- A filter of the list that reaches itself.
abbrev pub Cycle : List FilterRef → List Connection → Type 0
Cycle filters connections = (z : FilterRef) × In z filters × Reach connections z z

-- A result with the fuel not run out: success in a state with `Q`, or the error that reports a
-- cycle, and then there is one.
abbrev pub Ends : List FilterRef → List Connection → (Visits → Type 0) → Result → Type 0
Ends fs cs Q none = ⊥
Ends fs cs Q (some (e, s)) = ((e ≡ ok) × Q s) ⊎ ((e ≡ invalid_config) × Cycle fs cs)

pub Ends-continue :
    (fs : List FilterRef) (cs : List Connection) (Q R : Visits → Type 0) (k : Visits → Result)
    (r : Result)
    → Ends fs cs Q r
    → ((s : Visits) → Q s → Ends fs cs R (k s))
    → Ends fs cs R (continue k r)
unfolding continue is_ok
Ends-continue fs cs Q R k none h next = absurd h
Ends-continue fs cs Q R k (some (e, s)) (inl (p, q)) next = rw p (next s q)
Ends-continue fs cs Q R k (some (e, s)) (inr (p, c)) next = rw p (inr (refl, c))

module _ (filters : List FilterRef) where
  abbrev pub index : FilterRef → ℕ
  index x = find_index filters x 0

  pub index-lt : (x : FilterRef) → In x filters → index x < length filters
  index-lt x h = let (k, e, l, q) = find_index-In filters x 0 h in omega arith

  pub get-index : (x : FilterRef) → In x filters → get_or filters (index x) 0 ≡ x
  get-index x h =
      let (k, e, l, q) = find_index-In filters x 0 h in
      let e' : index x ≡ k = omega arith in rw e' q

  pub index-ne : (x y : FilterRef) → In x filters → In y filters → x ≢ y → index x ≢ index y
  index-ne x y hx hy n e =
      n (sym (get-index x hx) ∙ ap (λ (i : ℕ). get_or filters i 0) e ∙ get-index y hy)

  module _ (connections : List Connection) where
    -- `sorted`, read from its end as the sort returns it, is in topological order and has exactly
    -- the filters whose mark `visited` is up.
    pub record Inv (s : Visits) : Type 0 where
      pub visited_size : length s.visited ≡ length filters
      pub visiting_size : length s.visiting ≡ length filters
      pub counted : ups s.visited ≡ length s.sorted
      pub listed :
          (i : ℕ)
          → i < length filters
          → mark s.visited i ≡ true
          → In (get_or filters i 0) (reverse s.sorted)
      pub marked :
          (x : FilterRef)
          → In x (reverse s.sorted)
          → In x filters × (mark s.visited (index x) ≡ true)
      pub ordered : Ordered connections (reverse s.sorted)

    -- From `s`, `s'` is reached by visits that have ended.
    pub record Post (s s' : Visits) : Type 0 where
      pub inv : Inv s'
      pub grows : (y : FilterRef) → In y (reverse s.sorted) → In y (reverse s'.sorted)
      pub same_visiting : s'.visiting ≡ s.visiting
      pub frame : (i : ℕ) → mark s.visiting i ≡ true → mark s'.visited i ≡ mark s.visited i

    pub Post-refl : {s : Visits} → Inv s → Post s s
    Post-refl v = record { inv = v; grows = λ y h. h; same_visiting = refl; frame = λ i h. refl }

    pub Post-trans : {a b c : Visits} → Post a b → Post b c → Post a c
    Post-trans p q = record {
      inv = q.inv;
      grows = λ y h. q.grows y (p.grows y h);
      same_visiting = q.same_visiting ∙ p.same_visiting;
      frame = λ i h. q.frame i (ap (λ (v : List Bool). mark v i) p.same_visiting ∙ h) ∙ p.frame i h;
    }

    -- Every filter whose visit is under way reaches `x`.
    abbrev pub Stack : FilterRef → Visits → Type 0
    Stack x s =
        (z : FilterRef) → In z filters → mark s.visiting (index z) ≡ true → Reach connections z x

    abbrev pub Visited : FilterRef → Visits → Visits → Type 0
    Visited x s s' = Post s s' × In x (reverse s'.sorted)

    -- What a recursive visit with `n` levels of fuel does.
    abbrev pub Calls : ℕ → (FilterRef → Visits → Result) → Type 0
    Calls n call =
        (x : FilterRef) (s : Visits)
        → In x filters
        → Inv s
        → Stack x s
        → downs s.visiting < n
        → Ends filters connections (Visited x s) (call x s)
