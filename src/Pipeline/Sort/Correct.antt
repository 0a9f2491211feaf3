-- ===== src/Pipeline/Sort/Correct.antt =====
-- topological_sort of bpipe/pipeline.c as a whole.
use mathlib.Core.List.{reverse}
use bpipe.Base.{
  ℕ, ◌<◌, ◌≡◌, ◌↔◌, refl, sym, ap, subst, ◌∙◌, ◌⊎◌, inl, inr, none, some, Option, List, arith, ◌==◌,
  ==_iff, Bool-cases, length, get_or,
}
use bpipe.Err.{Ec, ok, invalid_config, is_ok}
use bpipe.Pipeline.{FilterRef, Connection, Pipeline}
use bpipe.Pipeline.Sort.{
  Visits, Result, visit_starts, visit_rest, is_start, no_visits, sort_fuel, sort_rest, reversed,
  topological_sort,
}
use bpipe.Pipeline.Sort.Graph.{In, Ordered, Ordered-acyclic}
use bpipe.Pipeline.Sort.Marks.{ups_all}
use bpipe.Pipeline.Sort.Visit.{
  Closed, Cycle, Ends, Ends-continue, index, index-lt, get-index, Inv, Post-refl,
}
use bpipe.Pipeline.Sort.Dfs.{Ends-map}
use bpipe.Pipeline.Sort.Loops.{start, start-Inv, Started, Covered, starts-Started, rest-Covered}

-- A list of the filters in an order in which a pipeline can process them: the same filters, each
-- once and before every filter that it feeds.
pub record IsTopological (filters : List FilterRef) (connections : List Connection)
    (l : List FilterRef) : Type 0 where
  pub ordered : Ordered connections l
  pub complete : (x : FilterRef) → In x filters → In x l
  pub sound : (x : FilterRef) → In x l → In x filters

module _ (p : Pipeline) (closed : Closed p.filters p.connections) where
  abbrev fs : List FilterRef
  fs = p.filters

  abbrev cs : List Connection
  cs = p.connections

  abbrev Sorted : Visits → Type 0
  Sorted s = IsTopological fs cs (reverse s.sorted)

  sorted_of :
      (s : Visits) → Inv fs cs s → ((x : FilterRef) → In x fs → In x (reverse s.sorted)) → Sorted s
  sorted_of s v c = record { ordered = v.ordered; complete = c; sound = λ x h. (v.marked x h).0 }

  -- With as many entries as there are filters, all of them have been visited.
  all_sorted :
      (s : Visits)
      → Inv fs cs s
      → length s.sorted ≡ length fs
      → (x : FilterRef) → In x fs
      → In x (reverse s.sorted)
  all_sorted s v e x h =
      subst (λ y. In y (reverse s.sorted)) (get-index fs x h)
        (v.listed (index fs x) (index-lt fs x h) (
          ups_all s.visited (v.counted ∙ e ∙ sym v.visited_size) (index fs x)
            (subst (λ (n : ℕ). index fs x < n) (sym v.visited_size) (index-lt fs x h))))

  rest-Sorted : (s : Visits) → Started fs cs closed s → Ends fs cs Sorted (sort_rest p s)
  unfolding sort_rest
  rest-Sorted s q = elim (Bool-cases (length s.sorted == length fs)) [
    | inl e ↦
        rw (e, sort_rest) (inl (refl, sorted_of s q.inv (all_sorted s q.inv ((==_iff _ _).0 e))))
    | inr n ↦
        rw (n, sort_rest)
          (Ends-map fs cs (Covered fs cs closed fs s) Sorted (visit_rest fs cs (sort_fuel p) 0 fs s)
            (rest-Covered fs cs closed 0 fs s (λ x h. h)
              (λ k lt. (omega arith, ap (λ (j : ℕ). get_or fs j 0) (omega arith))) q)
            (λ s' r. sorted_of s' r.0.inv r.1))
  ]

  -- The sort always ends, on the fuel that it is given: with the filters in topological order, or
  -- with the error that reports a cycle, and then a filter of the pipeline reaches itself.
  abbrev pub Answers : Option (Ec × List FilterRef) → Type 0
  Answers r =
      ((l : List FilterRef) × (r ≡ some (ok, l)) × IsTopological fs cs l)
      ⊎ ((l : List FilterRef) × (r ≡ some (invalid_config, l)) × Cycle fs cs)

  Answers-reversed : (r : Result) → Ends fs cs Sorted r → Answers (reversed r)
  unfolding reversed is_ok
  Answers-reversed none h = absurd h
  Answers-reversed (some (e, s)) (inl (q, t)) = rw q (inl (reverse s.sorted, refl, t))
  Answers-reversed (some (e, s)) (inr (q, c)) = rw q (inr (s.sorted, refl, c))

  -- If every connection leads to a filter of the pipeline, topological_sort ends on its fuel: either
  -- it returns OK and an array with exactly the filters of the pipeline, each once and before every
  -- filter that it feeds, or it returns INVALID_CONFIG and some filter of the pipeline reaches
  -- itself over the connections.
  pub topological_sort_total :
      (n_input_buffers : FilterRef → ℕ)
      → ((l : List FilterRef) × (topological_sort p n_input_buffers ≡ some (ok, l))
          × IsTopological p.filters p.connections l)
        ⊎ ((l : List FilterRef) × (topological_sort p n_input_buffers ≡ some (invalid_config, l))
            × Cycle p.filters p.connections)
  unfolding topological_sort
  topological_sort_total n = Answers-reversed _ (
      Ends-continue fs cs (Started fs cs closed) Sorted (sort_rest p)
        (visit_starts fs cs (sort_fuel p) (is_start p n) fs (no_visits (length fs)))
        (starts-Started fs cs closed (is_start p n) fs (start fs cs closed) (λ x h. h)
          (Post-refl fs cs (start-Inv fs cs closed)))
        rest-Sorted)

  IsTopological-acyclic : (l : List FilterRef) → IsTopological fs cs l → ¬ Cycle fs cs
  IsTopological-acyclic l t (z, h, r) = Ordered-acyclic cs l t.ordered (t.complete z h) r

  -- If every connection leads to a filter of the pipeline, topological_sort returns OK exactly when
  -- no filter of the pipeline reaches itself over the connections.
  pub topological_sort-ok_iff :
      (n_input_buffers : FilterRef → ℕ)
      → ((l : List FilterRef) × (topological_sort p n_input_buffers ≡ some (ok, l)))
        ↔ ¬ Cycle p.filters p.connections
  topological_sort-ok_iff n = (acyclic, accepted)
    where
      acyclic : ((l : List FilterRef) × (topological_sort p n ≡ some (ok, l))) → ¬ Cycle fs cs
      acyclic (l, e) c = elim (topological_sort_total n) [
        | inl (k, f, t) ↦ IsTopological-acyclic k t c
        | inr (k, f, d) ↦ clash (sym e ∙ f)
      ]
        where
          clash :
              {k : List FilterRef}
              → ◌≡◌ {A = Option (Ec × List FilterRef)} (some (ok, l)) (some (invalid_config, k))
              → ⊥
          clash h = cc

      accepted : ¬ Cycle fs cs → (l : List FilterRef) × (topological_sort p n ≡ some (ok, l))
      accepted nc = elim (topological_sort_total n) [
        | inl (k, f, t) ↦ (k, f)
        | inr (k, f, d) ↦ absurd (nc d)
      ]
