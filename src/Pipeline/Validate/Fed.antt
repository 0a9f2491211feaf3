-- ===== src/Pipeline/Validate/Fed.antt =====
-- What pipeline_validate_properties of bpipe/pipeline.c has checked of each input port.
use bpipe.Base.{
  ℕ, ◌<◌, ◌≡◌, ◌≢◌, inl, inr, sym, ap, ◌∙◌, true, false, none, some, List, arith, ==_false,
  Bool-cases, Option-cases,
}
use bpipe.Err.{Ec, ok, is_ok}
use bpipe.Property.{PropertyTable}
use bpipe.Pipeline.{FilterRef, null, Pipeline}
use bpipe.Pipeline.Validate.Collect.{
  IsFed, passed, passed-some, passed-none, is_ok-ok, clash, collect_ports-IsFed,
}
use bpipe.Pipeline.Validate.{Store, collect_ports, finish, validate_filter}

module _ (p : Pipeline) (externals : List PropertyTable) where
  filter-stuck :
      (filters : Store) (f : FilterRef)
      → f ≢ null
      → (filters f).n_input_buffers ≢ 0
      → collect_ports p filters externals f
          (filters f).n_input_buffers
          0
          (filters f).input_properties
        ≡ none
      → validate_filter p externals f filters ≡ none
  unfolding validate_filter
  filter-stuck filters f g n h = rw (==_false f null g, ==_false _ 0 n, h, validate_filter)

  filter-finish :
      (filters : Store) (f : FilterRef) (e : Ec) (ins : List PropertyTable)
      → f ≢ null
      → (filters f).n_input_buffers ≢ 0
      → collect_ports p filters externals f
          (filters f).n_input_buffers
          0
          (filters f).input_properties
        ≡ some (e, ins)
      → validate_filter p externals f filters ≡ some (finish filters f (e, ins))
  unfolding validate_filter
  filter-finish filters f e ins g n h = rw (==_false f null g, ==_false _ 0 n, h, validate_filter)

  finish-error :
      (filters : Store) (f : FilterRef) (e : Ec) (ins : List PropertyTable)
      → is_ok e ≡ false
      → passed (some (finish filters f (e, ins))) ≡ false
  unfolding finish passed
  finish-error filters f e ins h = rw (h, finish) h

  validate-collects :
      (filters : Store) (f : FilterRef)
      → f ≢ null
      → (filters f).n_input_buffers ≢ 0
      → passed (validate_filter p externals f filters) ≡ true
      → passed (
          collect_ports p filters externals f
            (filters f).n_input_buffers
            0
            (filters f).input_properties)
        ≡ true
  validate-collects filters f g n h =
      elim (Option-cases (
        collect_ports p filters externals f (filters f).n_input_buffers 0
          (filters f).input_properties)) [
            | inl s ↦ absurd (
                clash (
                  sym (passed-none p externals _)
                  ∙ sym (ap passed (filter-stuck filters f g n s))
                  ∙ h))
            | inr ((e, ins), m) ↦ elim (Bool-cases (is_ok e)) [
              | inl y ↦ ap passed m ∙ passed-some p externals e ins ∙ y
              | inr x ↦ absurd (
                  clash (
                    sym (finish-error filters f e ins x)
                    ∙ sym (ap passed (filter-finish filters f e ins g n m))
                    ∙ h))
            ]
          ]

  -- When pipeline_validate_properties has passed a filter, each of its input ports is fed: by an
  -- external input, by a connection from a filter whose output then meets every constraint on the
  -- port, or, without external inputs, as the port that the pipeline itself exposes.
  pub validate_filter-IsFed :
      (filters filters' : Store) (f : FilterRef) (port : ℕ)
      → f ≢ null
      → validate_filter p externals f filters ≡ some (ok, filters')
      → port < (filters f).n_input_buffers
      → IsFed p externals filters f port
  validate_filter-IsFed filters filters' f port g h lt =
      collect_ports-IsFed p externals filters f (filters f).n_input_buffers 0
        (filters f).input_properties port
        (validate-collects filters f g (λ e. omega arith)
          (ap passed h ∙ passed-some p externals ok filters' ∙ is_ok-ok))
        (omega arith) (omega arith)
