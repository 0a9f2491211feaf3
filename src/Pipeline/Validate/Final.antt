-- ===== src/Pipeline/Validate/Final.antt =====
-- pipeline_validate_properties of bpipe/pipeline.c as a whole: what a success says of the filters
-- as it leaves them.
use bpipe.Base.{
  ℕ, ◌<◌, ◌≡◌, ◌≢◌, inl, inr, refl, sym, ap, ◌∙◌, true, false, not, ◌&&◌, ◌==◌, Option, some, List,
  [], ◌∷◌, arith, Bool-cases,
}
use bpipe.Err.{Ec, ok, is_ok, invalid_config}
use bpipe.Property.{PropertyTable}
use bpipe.Pipeline.{FilterRef, null, Connection, Pipeline}
use bpipe.Pipeline.Sort.{topological_sort}
use bpipe.Pipeline.Sort.Graph.{In, Ordered, Edge-In}
use bpipe.Pipeline.Sort.Visit.{Closed}
use bpipe.Pipeline.Sort.Correct.{topological_sort_total}
use bpipe.Pipeline.Validate.Collect.{IsFed, IsMet}
use bpipe.Pipeline.Validate.Fed.{validate_filter-IsFed}
use bpipe.Pipeline.Validate.Frame.{
  SameContract, validate_filter-Touches, sorted-step, sorted-frame, sorted-SameContract,
}
use bpipe.Pipeline.Validate.{
  Store, validate_filter, validate_sorted, has_source, is_none, validate_properties,
}

module _ (p : Pipeline) (externals : List PropertyTable) where
  -- A connection that was met stays met if its ends keep what it depends on.
  IsMet-kept :
      (filters filters' : Store) (f : FilterRef) (port : ℕ) (c : Connection)
      → filters' c.from_filter ≡ filters c.from_filter
      → SameContract (filters f) (filters' f)
      → IsMet filters f port c
      → IsMet filters' f port c
  IsMet-kept filters filters' f port c same kept (to, at, n, out, met) =
      (to, at, n, out, rw (same, kept.0) met)

  IsFed-kept :
      (filters filters' : Store) (f : FilterRef) (port : ℕ)
      → ((c : Connection)
          → In c p.connections
          → c.to_filter ≡ f
          → filters' c.from_filter ≡ filters c.from_filter)
      → SameContract (filters f) (filters' f)
      → IsFed p externals filters f port
      → IsFed p externals filters' f port
  IsFed-kept filters filters' f port same kept (inl t) = inl t
  IsFed-kept filters filters' f port same kept (inr (inr r)) = inr (inr r)
  IsFed-kept filters filters' f port same kept (inr (inl (c, i, met))) =
      inr (inl (c, i, IsMet-kept filters filters' f port c (same c i met.0) kept met))

  -- In a topological order, each filter is fed by what the loop leaves.
  sorted-IsFed :
      (l : List FilterRef) (filters filters' : Store) (f : FilterRef) (port : ℕ)
      → Ordered p.connections l
      → validate_sorted p externals l filters ≡ some (ok, filters')
      → In f l
      → f ≢ null
      → port < (filters f).n_input_buffers
      → IsFed p externals filters' f port
  sorted-IsFed [] filters filters' f port o h i n lt = absurd i
  sorted-IsFed (g ∷ l) filters filters' f port o h (inr i) n lt =
      let (mid, one, rest) = sorted-step p externals g l filters filters' h in
      let (_, size) = (validate_filter-Touches p externals g filters mid ok one).contract f in
      sorted-IsFed l mid filters' f port o.2 rest i n (omega (arith, size))
  sorted-IsFed (g ∷ l) filters filters' f port o h (inl e) n lt =
      let (mid, one, rest) = sorted-step p externals g l filters filters' h in
      IsFed-kept filters filters' f port
        (λ c i to.
          sorted-frame p externals (g ∷ l) filters filters' c.from_filter h (behind c i to))
        (sorted-SameContract p externals (g ∷ l) filters filters' f h)
        (validate_filter-IsFed p externals filters mid f port n
          (ap (λ x. validate_filter p externals x filters) e ∙ one) lt)
    where
      behind : (c : Connection) → In c p.connections → c.to_filter ≡ f → ¬ In c.from_filter (g ∷ l)
      behind c i to (inl x) = o.0 (o.1 g (c, i, x, to ∙ e))
      behind c i to (inr x) = o.0 (Edge-In p.connections l o.2 x (c, i, refl, to ∙ e))

  properties-refused :
      (filters : Store)
      → (is_none externals && p.input_filter == null && not (has_source filters p.filters)) ≡ true
      → validate_properties p externals filters ≡ some (invalid_config, filters)
  unfolding validate_properties
  properties-refused filters h = rw h

  properties-sorted :
      (filters : Store) (l : List FilterRef)
      → (is_none externals && p.input_filter == null && not (has_source filters p.filters)) ≡ false
      → topological_sort p (λ f. (filters f).n_input_buffers) ≡ some (ok, l)
      → validate_properties p externals filters ≡ validate_sorted p externals l filters
  unfolding validate_properties is_ok
  properties-sorted filters l h s = rw (h, s, validate_properties)

  properties-cyclic :
      (filters : Store) (l : List FilterRef)
      → (is_none externals && p.input_filter == null && not (has_source filters p.filters)) ≡ false
      → topological_sort p (λ f. (filters f).n_input_buffers) ≡ some (invalid_config, l)
      → validate_properties p externals filters ≡ some (invalid_config, filters)
  unfolding validate_properties is_ok
  properties-cyclic filters l h s = rw (h, s, validate_properties)

  invalid-ok :
      (filters filters' : Store)
      → validate_properties p externals filters ≡ some (invalid_config, filters)
      → validate_properties p externals filters ≡ some (ok, filters')
      → ⊥
  invalid-ok filters filters' g h = clash (sym g ∙ h)
    where
      clash :
          ◌≡◌ {A = Option (Ec × Store)} (some (invalid_config, filters)) (some (ok, filters')) → ⊥
      clash e = cc

  -- If every connection leads to a filter of the pipeline and pipeline_validate_properties
  -- succeeds, each input port of each filter of the pipeline is fed: by an external input, by a
  -- connection whose output, as the validation leaves it, meets every constraint of the filter on
  -- the port, or, without external inputs, as the port that the pipeline exposes.
  pub validate_properties-IsFed :
      (filters filters' : Store) (f : FilterRef) (port : ℕ)
      → Closed p.filters p.connections
      → validate_properties p externals filters ≡ some (ok, filters')
      → In f p.filters
      → f ≢ null
      → port < (filters f).n_input_buffers
      → IsFed p externals filters' f port
  validate_properties-IsFed filters filters' f port closed h i n lt =
      elim (Bool-cases
        (is_none externals && p.input_filter == null && not (has_source filters p.filters))) [
          | inl r ↦ absurd (invalid-ok filters filters' (properties-refused filters r) h)
          | inr r ↦ elim (topological_sort_total p closed (λ f. (filters f).n_input_buffers)) [
            | inr (l, s, _) ↦
                absurd (invalid-ok filters filters' (properties-cyclic filters l r s) h)
            | inl (l, s, t) ↦
                sorted-IsFed l filters filters' f port t.ordered
                  (sym (properties-sorted filters l r s) ∙ h) (t.complete f i) n lt
          ]
        ]
