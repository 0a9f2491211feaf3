-- ===== src/Pipeline/Validate/Frame.antt =====
-- What one round of pipeline_validate_properties of bpipe/pipeline.c leaves as it was.
use bpipe.Base.{
  ◌≡◌, ◌≢◌, inl, inr, refl, sym, ap, ◌∙◌, subst, true, false, Option, none, some, List, [], ◌∷◌,
  arith, ◌==◌, ==_false, ==_iff, Bool-cases, Option-cases,
}
use bpipe.Err.{Ec, ok, is_ok, is_ok→eq}
use bpipe.Property.{PropertyTable}
use bpipe.Filter.{Filter}
use bpipe.Pipeline.{FilterRef, null, Pipeline}
use bpipe.Pipeline.Sort.Graph.{In}
use bpipe.Pipeline.Validate.Collect.{passed, is_ok-ok, clash}
use bpipe.Pipeline.Validate.{
  Store, collect_ports, finish, put, validate_inputs, validate_filter, validate_sorted,
}

-- The parts of a filter that the validation only reads.
abbrev pub SameContract : Filter → Filter → Type 0
SameContract x y =
    (y.input_constraints ≡ x.input_constraints) × (y.n_input_buffers ≡ x.n_input_buffers)

-- At most the filter `f` has changed, and not its contract.
pub record Touches (f : FilterRef) (filters filters' : Store) : Type 0 where
  pub others : (g : FilterRef) → g ≢ f → filters' g ≡ filters g
  pub contract : (g : FilterRef) → SameContract (filters g) (filters' g)

Touches-refl : (f : FilterRef) (filters : Store) → Touches f filters filters
Touches-refl f filters = record { others = λ g n. refl; contract = λ g. (refl, refl) }

contract-put :
    (f g : FilterRef) (filters : Store) (x : Filter)
    → SameContract (filters f) x
    → SameContract (filters g) (put filters f x g)
contract-put f g filters x same = elim (Bool-cases (g == f)) [
  | inl y ↦ rw y (subst (λ h. SameContract (filters h) x) (sym ((==_iff g f).0 y)) same)
  | inr n ↦ rw n (refl, refl)
]

Touches-put :
    (f : FilterRef) (filters : Store) (x : Filter)
    → SameContract (filters f) x
    → Touches f filters (put filters f x)
Touches-put f filters x same = record {
  others = λ g n. ground (arith, ==_false g f n);
  contract = λ g. contract-put f g filters x same;
}

abbrev Touched : FilterRef → Store → Option (Ec × Store) → Type 0
Touched f filters none = Unit
Touched f filters (some r) = Touches f filters r.1

Touches-finish :
    (filters : Store) (f : FilterRef) (r : Ec × List PropertyTable)
    → Touches f filters (finish filters f r).1
unfolding finish
Touches-finish filters f (e, inputs) = elim (Bool-cases (is_ok e)) [
  | inr n ↦ rw (n, finish) (Touches-put f filters _ (refl, refl))
  | inl y ↦
      elim (Bool-cases (
        is_ok (validate_inputs (filters f).input_constraints inputs (filters f).n_input_buffers))) [
          | inr n ↦ rw (y, n, finish) (Touches-put f filters _ (refl, refl))
          | inl z ↦ rw (y, z, finish) (Touches-put f filters _ (refl, refl))
        ]
]

none-some : {A : Type 0} {x : A} → ◌≡◌ {A = Option A} none (some x) → ⊥
none-some e = cc

store-injective :
    {s t : Store} → ◌≡◌ {A = Option (Ec × Store)} (some (ok, s)) (some (ok, t)) → s ≡ t
store-injective e = cc

error-ok :
    (e : Ec) (s t : Store)
    → is_ok e ≡ false
    → ◌≡◌ {A = Option (Ec × Store)} (some (e, s)) (some (ok, t))
    → ⊥
unfolding passed
error-ok e s t n h = clash (sym n ∙ ap passed h ∙ is_ok-ok)

module _ (p : Pipeline) (externals : List PropertyTable) where
  filter-Touched :
      (f : FilterRef) (filters : Store) → Touched f filters (validate_filter p externals f filters)
  unfolding validate_filter
  filter-Touched f filters = elim (Bool-cases (f == null)) [
    | inl y ↦ rw (y, validate_filter) (Touches-refl f filters)
    | inr n ↦ elim (Bool-cases ((filters f).n_input_buffers == 0)) [
      | inl y ↦ rw (n, y, validate_filter) (Touches-put f filters _ (refl, refl))
      | inr m ↦
          elim (Option-cases (
            collect_ports p filters externals f (filters f).n_input_buffers 0
              (filters f).input_properties)) [
                | inl s ↦ rw (n, m, s, validate_filter) tt
                | inr (r, s) ↦ rw (n, m, s, validate_filter) (Touches-finish filters f r)
              ]
    ]
  ]

  pub validate_filter-Touches :
      (f : FilterRef) (filters filters' : Store) (e : Ec)
      → validate_filter p externals f filters ≡ some (e, filters')
      → Touches f filters filters'
  validate_filter-Touches f filters filters' e h =
      subst (Touched f filters) h (filter-Touched f filters)

  sorted-none :
      (f : FilterRef) (l : List FilterRef) (filters : Store)
      → validate_filter p externals f filters ≡ none
      → validate_sorted p externals (f ∷ l) filters ≡ none
  unfolding validate_sorted
  sorted-none f l filters h = rw (h, validate_sorted)

  sorted-more :
      (f : FilterRef) (l : List FilterRef) (filters mid : Store) (e : Ec)
      → validate_filter p externals f filters ≡ some (e, mid)
      → is_ok e ≡ true
      → validate_sorted p externals (f ∷ l) filters ≡ validate_sorted p externals l mid
  unfolding validate_sorted
  sorted-more f l filters mid e h y = rw (h, validate_sorted, y)

  sorted-error :
      (f : FilterRef) (l : List FilterRef) (filters mid : Store) (e : Ec)
      → validate_filter p externals f filters ≡ some (e, mid)
      → is_ok e ≡ false
      → validate_sorted p externals (f ∷ l) filters ≡ some (e, mid)
  unfolding validate_sorted
  sorted-error f l filters mid e h y = rw (h, validate_sorted, y)

  -- One round of the loop over the sorted filters.
  pub sorted-step :
      (f : FilterRef) (l : List FilterRef) (filters filters' : Store)
      → validate_sorted p externals (f ∷ l) filters ≡ some (ok, filters')
      → (mid : Store) × (validate_filter p externals f filters ≡ some (ok, mid))
        × (validate_sorted p externals l mid ≡ some (ok, filters'))
  sorted-step f l filters filters' h = elim (Option-cases (validate_filter p externals f filters)) [
    | inl s ↦ absurd (none-some (sym (sorted-none f l filters s) ∙ h))
    | inr ((e, mid), s) ↦ elim (Bool-cases (is_ok e)) [
      | inl y ↦ (
        mid,
        s ∙ ap (λ c. some (c, mid)) (is_ok→eq e y),
        sym (sorted-more f l filters mid e s y) ∙ h,
      )
      | inr n ↦ absurd (error-ok e mid filters' n (sym (sorted-error f l filters mid e s n) ∙ h))
    ]
  ]

  -- The filters that are not in the list are left as they were.
  pub sorted-frame :
      (l : List FilterRef) (filters filters' : Store) (g : FilterRef)
      → validate_sorted p externals l filters ≡ some (ok, filters')
      → ¬ In g l
      → filters' g ≡ filters g
  unfolding validate_sorted
  sorted-frame [] filters filters' g h n = ap (λ s. s g) (store-injective (sym h))
  sorted-frame (f ∷ l) filters filters' g h n =
      let (mid, one, rest) = sorted-step f l filters filters' h in
      sorted-frame l mid filters' g rest (λ i. n (inr i))
      ∙ (validate_filter-Touches f filters mid ok one).others g (λ e. n (inl e))

  -- No contract changes.
  pub sorted-SameContract :
      (l : List FilterRef) (filters filters' : Store) (g : FilterRef)
      → validate_sorted p externals l filters ≡ some (ok, filters')
      → SameContract (filters g) (filters' g)
  unfolding validate_sorted
  sorted-SameContract [] filters filters' g h =
      subst (λ s. SameContract (filters g) (s g)) (store-injective h) (refl, refl)
  sorted-SameContract (f ∷ l) filters filters' g h =
      let (mid, one, rest) = sorted-step f l filters filters' h in
      let (c, n) = (validate_filter-Touches f filters mid ok one).contract g in
      let (d, m) = sorted-SameContract l mid filters' g rest in (d ∙ c, m ∙ n)
