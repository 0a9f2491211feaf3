-- ===== src/Filter/Join.antt =====
-- filt_connect of bpipe/core.c: when it joins two filters, and what it leaves behind.
use bpipe.Base.{
  ℕ, ◌<◌, ◌≡◌, ◌≢◌, ◌↔◌, inl, inr, refl, sym, ap, ap₂, ◌∙◌, Bool, true, false, ◌&&◌, Option, none,
  some, List, [], ◌∷◌, arith, ltb, if◌then◌else◌, Bool-cases, length, get_or, set, All,
}
use bpipe.Err.{Ec, ok, is_ok, is_ok→eq}
use bpipe.Property.{PropertyTable, Constraint, table_init, validate_connection}
use bpipe.Property.Validate.{Met, validate_connection-ok_iff}
use bpipe.Filter.{BufRef, Filter, State, max_outputs, input}
use bpipe.Filter.Align.{validate_multi_input_alignment}
use bpipe.Filter.Align.Agreed.{Aligned, validate_multi_input_alignment-ok_iff}
use bpipe.Filter.Connect.{connect}

is_ok-ok : is_ok ok ≡ true
unfolding is_ok
is_ok-ok = refl

clash : false ≢ true
clash e = cc

module _ (op : State → ℕ → BufRef → Ec × State) (s : State) (out : ℕ) (f : Filter) (port : ℕ) where
  -- What the source emits at the output port.
  abbrev pub emitted : PropertyTable
  emitted = get_or s.filter.output_properties out table_init

  -- The sink after the connection.
  abbrev pub joined : Filter
  joined = record f { input_properties = set f.input_properties port emitted }

  contract : Ec
  contract =
      if ltb 0 (length f.input_constraints)
      then validate_connection (some emitted) (some f.input_constraints) port
      else ok

  is_ready : Bool
  is_ready =
      ltb port f.n_input_buffers
      && ltb out max_outputs
      && is_ok contract
      && is_ok (validate_multi_input_alignment f port emitted)

  connect-ready :
      is_ready ≡ true
      → connect op s out f port
        ≡ some ((op s out (input f port)).0, (op s out (input f port)).1, joined)
  unfolding connect is_ready contract
  connect-ready h = ground arith

  succeeded : Option (Ec × State × Filter) → Bool
  succeeded none = false
  succeeded (some r) = is_ok r.0

  connect-unready : is_ready ≡ false → succeeded (connect op s out f port) ≡ false
  unfolding connect is_ready contract succeeded is_ok
  connect-unready h = ground arith

  succeeded-ok : (s' : State) (f' : Filter) → succeeded (some (ok, s', f')) ≡ true
  unfolding succeeded
  succeeded-ok s' f' = is_ok-ok

  contract_iff : (is_ok contract ≡ true) ↔ All (Met emitted port) f.input_constraints
  unfolding contract
  contract_iff = elim (Bool-cases (ltb 0 (length f.input_constraints))) [
    | inl y ↦ (
      λ h.
          (validate_connection-ok_iff emitted f.input_constraints port).0
            (is_ok→eq _ (let e = h in by_validation y e)),
      λ a.
          let e = (validate_connection-ok_iff emitted f.input_constraints port).1 a in
          rw (y, e, is_ok-ok),
    )
    | inr n ↦ (λ h. none_asked f.input_constraints n, λ a. rw (n, is_ok-ok))
  ]
    where
      by_validation :
          ltb 0 (length f.input_constraints) ≡ true
          → is_ok contract ≡ true
          → is_ok (validate_connection (some emitted) (some f.input_constraints) port) ≡ true
      by_validation y h = ground arith

      none_asked : (cs : List Constraint) → ltb 0 (length cs) ≡ false → All (Met emitted port) cs
      none_asked [] n = tt
      none_asked (c ∷ cs) n = ground arith

  -- What filt_connect demands of the two filters and of the sink_connect of the source.
  abbrev pub IsJoint : State → Type 0
  IsJoint s' =
      (port < f.n_input_buffers)
      × (out < max_outputs)
      × All (Met emitted port) f.input_constraints
      × All (Aligned f port emitted) f.input_constraints
      × (op s out (input f port) ≡ (ok, s'))

  is_ready_iff : (is_ready ≡ true) ↔ (
      (port < f.n_input_buffers)
      × (out < max_outputs)
      × All (Met emitted port) f.input_constraints
      × All (Aligned f port emitted) f.input_constraints)
  unfolding is_ready
  is_ready_iff = (
    λ h. (
      ground arith,
      ground arith,
      contract_iff.0 (ground arith),
      (validate_multi_input_alignment-ok_iff f port emitted).0 (is_ok→eq _ (ground arith)),
    ),
    λ (p, o, m, a).
        let c = contract_iff.1 m in
        let e = ap is_ok ((validate_multi_input_alignment-ok_iff f port emitted).1 a) ∙ is_ok-ok in
        ground arith,
  )

  answer : State → Filter → Option (Ec × State × Filter) → Ec × State × Filter
  answer s' f' none = (ok, s', f')
  answer s' f' (some r) = r

  parts :
      (e : Ec) (s₁ s' : State) (f₁ f' : Filter)
      → Path (Option (Ec × State × Filter)) (some (e, s₁, f₁)) (some (ok, s', f'))
      → (e ≡ ok) × (s₁ ≡ s') × (f₁ ≡ f')
  unfolding answer
  parts e s₁ s' f₁ f' h = (
    ap (λ o. (answer s' f' o).0) h,
    ap (λ o. (answer s' f' o).1) h,
    ap (λ o. (answer s' f' o).2) h,
  )

  -- Two filters are joined, by any sink_connect of the source, exactly if the input port exists,
  -- the output port has an entry, the properties of the output meet every constraint of the sink
  -- on that port and agree with its lower inputs where it demands alignment, and sink_connect
  -- succeeds on the sink's buffer. The sink then records the properties of its input.
  pub connect-ok_iff :
      (s' : State) (f' : Filter)
      → (connect op s out f port ≡ some (ok, s', f')) ↔ (IsJoint s' × (f' ≡ joined))
  connect-ok_iff s' f' = (
    λ h. elim (Bool-cases is_ready) [
      | inr n ↦ absurd (clash (sym (connect-unready n) ∙ ap succeeded h ∙ succeeded-ok s' f'))
      | inl y ↦
          let (p, o, m, a) = is_ready_iff.0 y in
          let (e, t, g) = parts _ _ _ _ _ (sym (connect-ready y) ∙ h) in
          ((p, o, m, a, ap₂ (λ x y. (x, y)) e t), sym g)
    ],
    λ ((p, o, m, a, c), g).
        connect-ready (is_ready_iff.1 (p, o, m, a))
        ∙ ap (λ r. some (r.0, r.1, joined)) c
        ∙ ap (λ x. some (ok, s', x)) (sym g),
  )
