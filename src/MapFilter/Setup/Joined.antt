-- ===== src/MapFilter/Setup/Joined.antt =====
-- Two map filters that map_init (bpipe/map.c) has set up, joined by filt_connect (bpipe/core.c).
use bpipe.Base.{
  ℕ, ◌^◌, ◌<◌, ◌≤◌, ◌≡◌, ◌≢◌, ◌↔◌, refl, sym, ap, ap₂, ◌∙◌, subst, inl, inr, Bool, true, false, not,
  some, List, [], ◌∷◌, arith, if◌then◌else◌, get_or, replicate, has_bit-all_ports, All,
}
use bpipe.Err.{Ec, ok, is_ok, is_ok→eq}
use bpipe.Ring.{Config, dtype_max, data_size_lut}
use bpipe.Property.{
  PropertyTable, Constraint, eq, gte, lte, zero_property, low, table_init, prop_data_type,
  prop_min_batch_capacity, prop_max_batch_capacity, propagate, apply_behavior,
}
use bpipe.Property.Validate.{Met}
use bpipe.Filter.{BufRef, Heap, State, Filter, input, sink, sink_connect}
use bpipe.Filter.Lifecycle.{FilterConfig, configured, init}
use bpipe.Filter.Lifecycle.Created.{clash, is_ok-ok}
use bpipe.Filter.Lifecycle.Single.{IsSingle, init-IsSingle}
use bpipe.Filter.Kind.{Platform, kind_config, on_filter, own_batches, with_output}
use bpipe.Filter.Contract.{constraints_from_buffer_append, append_constraint, append_behavior}
use bpipe.Filter.Contract.Buffered.{entry, reported, pow_le_iff, pow_word}
use bpipe.Filter.Connect.{connect}
use bpipe.Filter.Sinks.{CanConnect, sink_connect_cases}
use bpipe.Filter.Join.{connect-ok_iff, joined}
use bpipe.Filter.Align.Agreed.{Aligned}
use bpipe.MapFilter.Setup.{map_contract, map_init, filt_t_map}

-- A fresh filter, and what the contract of a map filter makes of it.
abbrev fresh : FilterConfig → List BufRef → ℕ → Filter
fresh kc buffers width = record (configured kc) {
  input_buffers = buffers;
  data_width = width;
  n_outputs = 1;
}

abbrev wanted : Config → List Constraint
wanted c =
    entry prop_data_type eq (low c.dtype)
    ∷ entry prop_min_batch_capacity gte 1
    ∷ entry prop_max_batch_capacity lte (low (2 ^ c.batch_capacity_expo))
    ∷ []

abbrev declared : Config → PropertyTable
declared c =
    zero_property
    ∷ reported (low (low c.dtype))
    ∷ reported 1
    ∷ reported (low (low (2 ^ c.batch_capacity_expo)))
    ∷ replicate 5 zero_property

map_contract-constraints :
    (c : Config) (kc : FilterConfig) (buffers : List BufRef) (width : ℕ)
    → (map_contract c (fresh kc buffers width)).input_constraints ≡ wanted c
unfolding map_contract own_batches with_output constraints_from_buffer_append append_constraint
    append_behavior
map_contract-constraints c kc buffers width = refl

map_contract-output :
    (c : Config) (kc : FilterConfig) (buffers : List BufRef) (width : ℕ)
    → get_or (map_contract c (fresh kc buffers width)).output_properties 0 table_init ≡ declared c
unfolding map_contract own_batches with_output constraints_from_buffer_append append_constraint
    append_behavior propagate apply_behavior
map_contract-output c kc buffers width = rw (has_bit-all_ports 0 (omega arith)) refl

-- What the sink demands of the source, in terms of the two configurations.
Met-declared :
    (c c' : Config)
    → c.dtype < dtype_max
    → c'.dtype < dtype_max
    → c.batch_capacity_expo < 32
    → c'.batch_capacity_expo < 32
    → All (Met (declared c) 0) (wanted c')
      ↔ ((c.dtype ≡ c'.dtype) × (c.batch_capacity_expo ≤ c'.batch_capacity_expo))
Met-declared c c' d d' s s' =
    let p = pow_word c.batch_capacity_expo s in
    let p' = pow_word c'.batch_capacity_expo s' in
    let b = has_bit-all_ports 0 (omega arith) in
    (
      λ (t, (l, (h, _))). (
        let e = (t b).1.1 in omega arith,
        (pow_le_iff _ _).0 (let e = (h b).1.1 in omega (arith, p, p')),
      ),
      λ (e, le). (
        λ _. ((omega arith, omega arith), (refl, omega arith)),
        (
          λ _. ((omega arith, omega arith), (refl, omega arith)),
          (
            λ _. (
              (omega arith, omega arith),
              (
                refl,
                let up = (pow_le_iff c.batch_capacity_expo c'.batch_capacity_expo).1 le in
                    omega (arith, p, p'),
              ),
            ),
            tt,
          ),
        ),
      ),
    )

chosen :
    (b : Bool) (e : Ec) (s₀ s₁ s : State)
    → is_ok e ≡ b
    → ◌≡◌ {A = Ec × State} (if not b then (e, s₀) else (ok, s₁)) (ok, s)
    → (e ≡ ok) × (s ≡ s₁)
chosen true e s₀ s₁ s h k = (is_ok→eq e h, sym (ap (λ x. x.1) k))
chosen false e s₀ s₁ s h k =
    absurd (clash (sym h ∙ ap is_ok (ap (λ (x : Ec × State). x.0) k) ∙ is_ok-ok))

-- What a success of map_init leaves: the contract, on a filter that filt_init has set up.
map_init-IsSingle :
    (p : Platform) (c : Config) (timeout_us : ℕ) (h : Heap) (s : State)
    → map_init p c timeout_us true h ≡ (ok, s)
    → (s₀ : State) × IsSingle (kind_config p filt_t_map 1 1 c timeout_us) h s₀
      × (s ≡ on_filter (map_contract c) s₀)
unfolding map_init
map_init-IsSingle p c timeout_us h s e =
    let kc : FilterConfig = kind_config p filt_t_map 1 1 c timeout_us in
    let r : Ec × State = init p.sizeof_filter kc p.answers p.mutex h in
    let (fine, same) = chosen (is_ok r.0) r.0 r.1 (on_filter (map_contract c) r.1) s refl e in
    (
      r.1,
      init-IsSingle p.sizeof_filter kc p.answers p.mutex h refl r.1
          (ap (λ (x : Ec). (x, r.1)) fine),
      same,
    )

-- A fresh map filter.
record IsMap (c : Config) (h : Heap) (s : State) : Type 0 where
  constraints : s.filter.input_constraints ≡ wanted c
  output : get_or s.filter.output_properties 0 table_init ≡ declared c
  one_input : s.filter.n_input_buffers ≡ 1
  one_sink : s.filter.max_supported_sinks ≡ 1
  unconnected : sink s.filter 0 ≡ 0
  set_up : input s.filter 0 ≢ 0
  typed : (s.heap (input s.filter 0)).dtype ≡ c.dtype
  known : c.dtype < dtype_max
  small : c.batch_capacity_expo ≤ 20
  others : (r : BufRef) → r ≢ input s.filter 0 → s.heap r ≡ h r

fresh-IsMap :
    (c : Config) (h : Heap) (kc : FilterConfig) (buffers : List BufRef) (width : ℕ) (heap : Heap)
    → kc.n_inputs ≡ 1
    → kc.max_supported_sinks ≡ 1
    → get_or buffers 0 0 ≢ 0
    → (heap (get_or buffers 0 0)).dtype ≡ c.dtype
    → c.dtype < dtype_max
    → c.batch_capacity_expo ≤ 20
    → ((r : BufRef) → r ≢ get_or buffers 0 0 → heap r ≡ h r)
    → IsMap c h (record { filter = map_contract c (fresh kc buffers width); heap = heap })
unfolding map_contract own_batches with_output constraints_from_buffer_append append_constraint
    append_behavior
fresh-IsMap c h kc buffers width heap n m set typed known small others = record {
  constraints = map_contract-constraints c kc buffers width;
  output = map_contract-output c kc buffers width;
  one_input = n;
  one_sink = m;
  unconnected = refl;
  set_up = set;
  typed = typed;
  known = known;
  small = small;
  others = others;
}

map_init-IsMap :
    (p : Platform) (c : Config) (timeout_us : ℕ) (h : Heap) (s : State)
    → map_init p c timeout_us true h ≡ (ok, s)
    → IsMap c h s
map_init-IsMap p c timeout_us h s e =
    let (s₀, single, same) = map_init-IsSingle p c timeout_us h s e in
    let kc : FilterConfig = kind_config p filt_t_map 1 1 c timeout_us in
    let width : ℕ = get_or data_size_lut c.dtype 0 in
    let f : s₀.filter ≡ fresh kc single.buffers width = single.fields in
    let at : input s₀.filter 0 ≡ get_or single.buffers 0 0 = ap (λ (x : Filter). input x 0) f in
    subst (IsMap c h)
      (sym (same ∙ ap (λ x. record { filter = map_contract c x; heap = s₀.heap }) f))
      (fresh-IsMap c h kc single.buffers width s₀.heap refl refl (λ z. single.set_up (at ∙ z))
        (ap (λ (r : BufRef). (s₀.heap r).dtype) (sym at) ∙ single.typed) single.known single.small
        (λ r ne. single.others r (λ z. ne (z ∙ at))))

none-Aligned : (f : Filter) (t : PropertyTable) (c : Config) → All (Aligned f 0 t) (wanted c)
none-Aligned f t c =
    ((λ e. absurd (clash e)), ((λ e. absurd (clash e)), ((λ e. absurd (clash e)), tt)))

module _ (c c' : Config) (h : Heap) (s d : State) (from : IsMap c h s) (to : IsMap c' s.heap d)
    (apart : input d.filter 0 ≢ input s.filter 0) where
  -- The source, once the sink has been set up as well.
  abbrev source : State
  source = record s { heap = d.heap }

  can_connect : c.dtype ≡ c'.dtype → CanConnect source 0 (input d.filter 0)
  can_connect e = (
    to.set_up,
    omega arith,
    omega (arith, from.one_sink),
    from.unconnected,
    λ n i.
        to.typed
        ∙ sym e
        ∙ sym from.typed
        ∙ sym (ap (λ b. b.dtype) (to.others (input s.filter 0) (λ z. apart (sym z)))),
  )

  sink_connect-ok :
      c.dtype ≡ c'.dtype
      → sink_connect source 0 (input d.filter 0)
        ≡ (ok, (sink_connect source 0 (input d.filter 0)).1)
  sink_connect-ok e = elim (sink_connect_cases source 0 (input d.filter 0)) [
    | inl (can, fine, slots) ↦
        ap (λ (x : Ec). (x, (sink_connect source 0 (input d.filter 0)).1)) fine
    | inr (cannot, failing, same) ↦ absurd (cannot (can_connect e))
  ]

  connect_iff :
      ((s' : State) × (f' : Filter) × (connect sink_connect source 0 d.filter 0
          ≡ some (ok, s', f')))
      ↔ ((c.dtype ≡ c'.dtype) × (c.batch_capacity_expo ≤ c'.batch_capacity_expo))
  connect_iff =
      let met =
        Met-declared c c' from.known to.known (omega (arith, from.small))
          (omega (arith, to.small)) in
      let asks : All (Met (get_or s.filter.output_properties 0 table_init) 0)
            d.filter.input_constraints
          ≡ All (Met (declared c) 0) (wanted c') =
        ap₂ (λ t cs. All (Met t 0) cs) from.output to.constraints in
      (
        λ (s', f', e).
            let (p, o, m, a, op) =
              ((connect-ok_iff sink_connect source 0 d.filter 0 s' f').0 e).0 in
            met.0 (subst (λ T. T) asks m),
        λ (same, le). (
          (sink_connect source 0 (input d.filter 0)).1,
          joined sink_connect source 0 d.filter 0,
          (connect-ok_iff sink_connect source 0 d.filter 0 _ _).1 (
            (
              omega (arith, to.one_input),
              omega arith,
              subst (λ T. T) (sym asks) (met.1 (same, le)),
              subst
                  (λ cs.
                    All (Aligned d.filter 0 (get_or s.filter.output_properties 0 table_init)) cs)
                  (sym to.constraints)
                  (none-Aligned d.filter (get_or s.filter.output_properties 0 table_init) c'),
              sink_connect-ok same,
            ),
            refl,
          ),
        ),
      )

-- Of two map filters that map_init has set up one after the other, with buffers of their own, the
-- output of the first can be connected to the input of the second by filt_connect exactly if their
-- data types are equal and the batches of the first are not larger than those of the second.
pub map_init-connect :
    (p p' : Platform) (c c' : Config) (timeout_us timeout_us' : ℕ) (h : Heap) (s d : State)
    → map_init p c timeout_us true h ≡ (ok, s)
    → map_init p' c' timeout_us' true s.heap ≡ (ok, d)
    → input d.filter 0 ≢ input s.filter 0
    → ((s' : State) × (f' : Filter) × (connect sink_connect
            (record s { heap = d.heap })
            0
            d.filter
            0
          ≡ some (ok, s', f')))
      ↔ ((c.dtype ≡ c'.dtype) × (c.batch_capacity_expo ≤ c'.batch_capacity_expo))
map_init-connect p p' c c' timeout_us timeout_us' h s d made made' apart =
    connect_iff c c' h s d (map_init-IsMap p c timeout_us h s made)
      (map_init-IsMap p' c' timeout_us' s.heap d made') apart
