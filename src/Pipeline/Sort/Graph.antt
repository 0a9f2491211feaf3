-- ===== src/Pipeline/Sort/Graph.antt =====
-- The graph of a pipeline's connections: edges, paths, and lists in topological order.
use bpipe.Base.{◌≡◌, ◌⊎◌, inl, inr, subst, List, [], ◌∷◌, ◌++◌}
use bpipe.Pipeline.{FilterRef, Connection}

module _ {A : Type 0} where
  -- Membership with the position kept.
  abbrev pub In : A → List A → Type 0
  In x [] = ⊥
  In x (y ∷ ys) = (x ≡ y) ⊎ In x ys

  pub In-append_left : (x : A) (xs ys : List A) → In x xs → In x (xs ++ ys)
  In-append_left x [] ys h = absurd h
  In-append_left x (y ∷ xs) ys (inl e) = inl e
  In-append_left x (y ∷ xs) ys (inr h) = inr (In-append_left x xs ys h)

module _ (connections : List Connection) where
  -- A connection from a port of `x` to a port of `y`.
  abbrev pub Edge : FilterRef → FilterRef → Type 0
  Edge x y = (c : Connection) × In c connections × (c.from_filter ≡ x) × (c.to_filter ≡ y)

  -- One connection or more lead from the first filter to the second.
  pub data Reach : FilterRef → FilterRef → Type 0 where
    edge : {x y : FilterRef} → Edge x y → Reach x y
    onward : {x y z : FilterRef} → Reach x y → Edge y z → Reach x z

  -- Each filter stands once, and before every filter that it feeds.
  abbrev pub Ordered : List FilterRef → Type 0
  Ordered [] = Unit
  Ordered (x ∷ l) = (¬ In x l) × ((y : FilterRef) → Edge x y → In y l) × Ordered l

  pub Edge-In : (l : List FilterRef) {a y : FilterRef} → Ordered l → In a l → Edge a y → In y l
  Edge-In [] o h e = absurd h
  Edge-In (x ∷ l) {a} {y} o (inl p) e = inr (o.1 y (subst (λ b. Edge b y) p e))
  Edge-In (x ∷ l) o (inr h) e = inr (Edge-In l o.2 h e)

  -- What the first filter of such a list reaches stands behind it.
  Reach-behind :
      {x a y : FilterRef} (l : List FilterRef) → Ordered (x ∷ l) → a ≡ x → Reach a y → In y l
  Reach-behind {x} l o p (edge {y = y} e) = o.1 y (subst (λ b. Edge b y) p e)
  Reach-behind l o p (onward r e) = Edge-In l o.2 (Reach-behind l o p r) e

  -- No filter of such a list reaches itself.
  pub Ordered-acyclic : (l : List FilterRef) {a : FilterRef} → Ordered l → In a l → ¬ Reach a a
  Ordered-acyclic [] o h r = absurd h
  Ordered-acyclic (x ∷ l) o (inl p) r = o.0 (subst (λ b. In b l) p (Reach-behind l o p r))
  Ordered-acyclic (x ∷ l) o (inr h) r = Ordered-acyclic l o.2 h r
