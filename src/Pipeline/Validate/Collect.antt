-- ===== src/Pipeline/Validate/Collect.antt =====
-- The loop of pipeline_validate_properties of bpipe/pipeline.c that collects the inputs of a filter.
use bpipe.Base.{
  ℕ, zero, suc, ◌+◌, ◌≤◌, ◌<◌, ◌≡◌, ◌≢◌, ◌⊎◌, inl, inr, refl, sym, ap, ◌∙◌, subst, Bool, true,
  false, not, ◌&&◌, Option, none, some, List, [], ◌∷◌, arith, leb, ◌==◌, ==_iff, if◌then◌else◌,
  Bool-cases, Option-cases, get_or, set, All,
}
use bpipe.Err.{Ec, ok, is_ok, is_ok→eq}
use bpipe.Property.{PropertyTable, table_init, validate_connection}
use bpipe.Property.Validate.{Met, validate_connection-ok_iff}
use bpipe.Filter.{max_outputs}
use bpipe.Pipeline.{FilterRef, null, Connection, Pipeline}
use bpipe.Pipeline.Sort.Graph.{In}
use bpipe.Pipeline.Validate.{
  Store, find_external_input, find_connection, is_none, unconnected, connected, collect_port,
  collect_ports,
}

-- What connects the port: an output of another filter that meets the contract on this port.
abbrev pub IsMet : Store → FilterRef → ℕ → Connection → Type 0
IsMet filters f port c =
    (c.to_filter ≡ f)
    × (c.to_port ≡ port)
    × (c.from_filter ≢ null)
    × (c.from_port < max_outputs)
    × All (Met (get_or (filters c.from_filter).output_properties c.from_port table_init) port)
        (filters f).input_constraints

-- The code of an answer.
unfoldable pub passed : {A : Type 0} → Option (Ec × A) → Bool
passed none = false
passed (some r) = is_ok r.0

passed-ok : {A : Type 0} (o : Option (Ec × A)) (a : A) → o ≡ some (ok, a) → passed o ≡ true
unfolding passed is_ok
passed-ok o a h = ap passed h

pub is_ok-ok : is_ok ok ≡ true
unfolding is_ok
is_ok-ok = refl

pub clash : false ≢ true
clash e = cc

is_none-nil : (ts : List PropertyTable) → is_none ts ≡ true → ts ≡ []
is_none-nil [] h = refl
is_none-nil (t ∷ ts) h = absurd (clash h)

module _ (p : Pipeline) (externals : List PropertyTable) where
  -- An input port is fed by an external input, by a connection, or, without external inputs, by
  -- what the pipeline itself receives.
  abbrev pub IsFed : Store → FilterRef → ℕ → Type 0
  IsFed filters f port =
      ((t : PropertyTable) × (find_external_input p.n_external_inputs p.external_input_mappings
            externals f port
          ≡ some t))
      ⊎ (((c : Connection) × In c p.connections × IsMet filters f port c)
          ⊎ ((f ≡ p.input_filter) × (port ≡ p.input_port) × (externals ≡ [])))

  found-head :
      (d : Connection) (cs : List Connection) (f : FilterRef) (port : ℕ)
      → (d.to_filter == f && d.to_port == port) ≡ true
      → find_connection (d ∷ cs) f port ≡ some d
  unfolding find_connection
  found-head d cs f port h = rw h

  found-tail :
      (d : Connection) (cs : List Connection) (f : FilterRef) (port : ℕ)
      → (d.to_filter == f && d.to_port == port) ≡ false
      → find_connection (d ∷ cs) f port ≡ find_connection cs f port
  unfolding find_connection
  found-tail d cs f port h = rw h

  some-injective : {A : Type 0} {x y : A} → ◌≡◌ {A = Option A} (some x) (some y) → x ≡ y
  some-injective e = cc

  none-some : {A : Type 0} {x : A} → ◌≡◌ {A = Option A} none (some x) → ⊥
  none-some e = cc

  find_connection-In :
      (cs : List Connection) (f : FilterRef) (port : ℕ) (c : Connection)
      → find_connection cs f port ≡ some c
      → In c cs × (c.to_filter ≡ f) × (c.to_port ≡ port)
  unfolding find_connection
  find_connection-In [] f port c h = absurd (none-some h)
  find_connection-In (d ∷ cs) f port c h =
      elim (Bool-cases (d.to_filter == f && d.to_port == port)) [
        | inl y ↦
            let e : d ≡ c = some-injective (sym (found-head d cs f port y) ∙ h) in
            (
              inl (sym e),
              ap (λ x. x.to_filter) (sym e) ∙ ground arith,
              ap (λ x. x.to_port) (sym e) ∙ ground arith,
            )
        | inr n ↦
            let (i, q, r) = find_connection-In cs f port c (sym (found-tail d cs f port n) ∙ h) in
            (inr i, q, r)
      ]

  unconnected-IsFed :
      (f : FilterRef) (port : ℕ)
      → passed (unconnected p externals f port) ≡ true
      → (f ≡ p.input_filter) × (port ≡ p.input_port) × (externals ≡ [])
  unfolding unconnected passed is_ok
  unconnected-IsFed f port h = (ground arith, ground arith, is_none-nil externals (ground arith))

  passed-connected :
      (filters : Store) (f : FilterRef) (port : ℕ) (c : Connection)
      → passed (connected filters f port c) ≡ (
          not (leb max_outputs c.from_port)
          && is_ok (
              validate_connection
                (some (get_or (filters c.from_filter).output_properties c.from_port table_init))
                (some (filters f).input_constraints)
                port))
  unfolding connected passed
  passed-connected filters f port c = elim (Bool-cases (leb max_outputs c.from_port)) [
    | inl y ↦ rw y
    | inr n ↦ rw n
  ]

  connected-Met :
      (filters : Store) (f : FilterRef) (port : ℕ) (c : Connection)
      → passed (connected filters f port c) ≡ true
      → (c.from_port < max_outputs)
        × All
            (Met (get_or (filters c.from_filter).output_properties c.from_port table_init) port)
            (filters f).input_constraints
  connected-Met filters f port c h =
      let e = sym (passed-connected filters f port c) ∙ h in
      (
        ground arith,
        (validate_connection-ok_iff
              (get_or (filters c.from_filter).output_properties c.from_port table_init)
              (filters f).input_constraints port).0
            (is_ok→eq _ (ground arith)),
      )

  collect-joined :
      (filters : Store) (f : FilterRef) (port : ℕ) (c : Connection)
      → find_external_input p.n_external_inputs p.external_input_mappings externals f port ≡ none
      → find_connection p.connections f port ≡ some c
      → collect_port p filters externals f port ≡ (
          if c.from_filter == null
          then unconnected p externals f port
          else connected filters f port c)
  unfolding collect_port
  collect-joined filters f port c h g = rw (h, collect_port, g)

  collect-free :
      (filters : Store) (f : FilterRef) (port : ℕ)
      → find_external_input p.n_external_inputs p.external_input_mappings externals f port ≡ none
      → find_connection p.connections f port ≡ none
      → collect_port p filters externals f port ≡ unconnected p externals f port
  unfolding collect_port
  collect-free filters f port h g = rw (h, collect_port, g)

  joined-IsFed :
      (filters : Store) (f : FilterRef) (port : ℕ) (c : Connection) (b : Bool)
      → (c.from_filter == null) ≡ b
      → find_connection p.connections f port ≡ some c
      → passed (if b then unconnected p externals f port else connected filters f port c) ≡ true
      → IsFed filters f port
  joined-IsFed filters f port c true e g h = inr (inr (unconnected-IsFed f port h))
  joined-IsFed filters f port c false e g h =
      let (i, to, at) = find_connection-In p.connections f port c g in
      let (out, met) = connected-Met filters f port c h in
      inr (inl (c, i, (to, at, (λ z. clash (sym e ∙ (==_iff c.from_filter null).1 z)), out, met)))

  collect_port-IsFed :
      (filters : Store) (f : FilterRef) (port : ℕ)
      → passed (collect_port p filters externals f port) ≡ true
      → IsFed filters f port
  collect_port-IsFed filters f port h =
      elim (Option-cases
        (find_external_input p.n_external_inputs p.external_input_mappings externals f port)) [
          | inr found ↦ inl found
          | inl n ↦ elim (Option-cases (find_connection p.connections f port)) [
            | inl m ↦ inr (
                inr (
                  unconnected-IsFed f port (sym (ap passed (collect-free filters f port n m)) ∙ h)))
            | inr (c, m) ↦
                joined-IsFed filters f port c (c.from_filter == null) refl m
                  (sym (ap passed (collect-joined filters f port c n m)) ∙ h)
          ]
        ]

  -- One round of the loop over the ports.
  collect-more :
      (filters : Store) (f : FilterRef) (n port : ℕ) (inputs : List PropertyTable) (e : Ec)
      (t : PropertyTable)
      → collect_port p filters externals f port ≡ some (e, t)
      → is_ok e ≡ true
      → collect_ports p filters externals f (suc n) port inputs
        ≡ collect_ports p filters externals f n (port + 1) (set inputs port t)
  unfolding collect_ports
  collect-more filters f n port inputs e t h k = rw (h, collect_ports, k)

  collect-error :
      (filters : Store) (f : FilterRef) (n port : ℕ) (inputs : List PropertyTable) (e : Ec)
      (t : PropertyTable)
      → collect_port p filters externals f port ≡ some (e, t)
      → is_ok e ≡ false
      → collect_ports p filters externals f (suc n) port inputs ≡ some (e, inputs)
  unfolding collect_ports
  collect-error filters f n port inputs e t h k = rw (h, collect_ports, k)

  collect-stuck :
      (filters : Store) (f : FilterRef) (n port : ℕ) (inputs : List PropertyTable)
      → collect_port p filters externals f port ≡ none
      → collect_ports p filters externals f (suc n) port inputs ≡ none
  unfolding collect_ports
  collect-stuck filters f n port inputs h = rw (h, collect_ports)

  pub passed-some : {A : Type 0} (e : Ec) (a : A) → passed (some (e, a)) ≡ is_ok e
  unfolding passed
  passed-some e a = refl

  pub passed-none : (A : Type 0) → passed {A = A} none ≡ false
  unfolding passed
  passed-none A = refl

  collect-round :
      (filters : Store) (f : FilterRef) (n port : ℕ) (inputs : List PropertyTable)
      → passed (collect_ports p filters externals f (suc n) port inputs) ≡ true
      → (passed (collect_port p filters externals f port) ≡ true)
        × ((ins : List PropertyTable) × (passed
                (collect_ports p filters externals f n (port + 1) ins)
              ≡ true))
  collect-round filters f n port inputs h =
      elim (Option-cases (collect_port p filters externals f port)) [
        | inl s ↦ absurd (
            clash
              (sym (passed-none _) ∙ sym (ap passed (collect-stuck filters f n port inputs s)) ∙ h))
        | inr ((e, t), m) ↦ elim (Bool-cases (is_ok e)) [
          | inl y ↦ (
            ap passed m ∙ passed-some e t ∙ y,
            (set inputs port t, sym (ap passed (collect-more filters f n port inputs e t m y)) ∙ h),
          )
          | inr x ↦ absurd (
              clash (
                sym x
                ∙ sym (passed-some e inputs)
                ∙ sym (ap passed (collect-error filters f n port inputs e t m x))
                ∙ h))
        ]
      ]

  pub collect_ports-IsFed :
      (filters : Store) (f : FilterRef) (n port : ℕ) (inputs : List PropertyTable) (i : ℕ)
      → passed (collect_ports p filters externals f n port inputs) ≡ true
      → port ≤ i
      → i < port + n
      → IsFed filters f i
  collect_ports-IsFed filters f zero port inputs i h l u = absurd (omega arith)
  collect_ports-IsFed filters f (suc n) port inputs i h l u =
      let (now, (ins, later)) = collect-round filters f n port inputs h in
      elim (Bool-cases (i == port)) [
        | inl e ↦
            subst (IsFed filters f) (sym ((==_iff i port).0 e))
              (collect_port-IsFed filters f port now)
        | inr ne ↦
            collect_ports-IsFed filters f n (port + 1) ins i later (ground arith) (omega arith)
      ]
