-- ===== src/Filter/Contract/Buffered.antt =====
-- The contract that prop_constraints_from_buffer_append of bpipe/properties.c gives a filter,
-- against the properties that prop_from_buffer_config reports for an upstream buffer.
use bpipe.Base.{
  ℕ, suc, ◌^◌, ◌<◌, ◌≤◌, ◌≡◌, ◌≢◌, ◌↔◌, refl, sym, ap, ◌∙◌, Bool, true, false, some, List, [], ◌∷◌,
  arith, ltb, ◌==◌, all_ports, has_bit, has_bit-all_ports, All, Bool-cases, inl, inr, replicate,
}
use bpipe.Err.{ok}
use bpipe.Ring.{Config, dtype_ndef}
use bpipe.Property.{
  Property, PropertyTable, property, Constraint, ConstraintOp, eq, gte, lte, low, set_low,
  zero_property, prop_data_type, prop_min_batch_capacity, prop_max_batch_capacity,
  prop_max_total_samples, from_buffer_config, validate_connection,
}
use bpipe.Property.Validate.{Met, validate_connection-ok_iff}
use bpipe.Filter.{Filter}
use bpipe.Filter.Contract.{append_constraint, constraints_from_buffer_append}
use native.Mathlib.Nat.{pow-le-pow_right}

pow_pos : (e : ℕ) → 1 ≤ 2 ^ e
pow_pos e = pow-le-pow_right {n = 2} (omega arith) {i = 0} {j = e} (omega arith)

pub pow_le_iff : (d e : ℕ) → (2 ^ d ≤ 2 ^ e) ↔ (d ≤ e)
pow_le_iff d e = (
  λ h. elim (Bool-cases (ltb e d)) [
    | inl y ↦
        let up : 2 ^ suc e ≤ 2 ^ d =
          pow-le-pow_right {n = 2} (omega arith) {i = suc e} {j = d} (ground arith) in
        absurd (omega (arith, pow_pos e))
    | inr n ↦ ground arith
  ],
  λ h. pow-le-pow_right (omega arith) h,
)

pub pow_word : (e : ℕ) → e < 32 → low (2 ^ e) ≡ 2 ^ e
pow_word e h =
    let up : 2 ^ suc e ≤ 2 ^ 32 =
      pow-le-pow_right {n = 2} (omega arith) {i = suc e} {j = 32} (omega arith) in
    omega (arith, pow_pos e)

pow_eq_iff : (d e : ℕ) → (2 ^ d ≡ 2 ^ e) ↔ (d ≡ e)
pow_eq_iff d e = (
  λ h.
      let a = (pow_le_iff d e).0 (omega arith) in
      let b = (pow_le_iff e d).0 (omega arith) in omega arith,
  λ h. ap (λ n. 2 ^ n) h,
)

true_ne_false : true ≢ false
true_ne_false e = cc

abbrev pub entry : ℕ → ConstraintOp → ℕ → Constraint
entry p o v = record { property = p; op = o; input_mask = all_ports; operand = v }

abbrev wanted : Config → Bool → List Constraint
wanted c true =
    entry prop_data_type eq (low c.dtype)
    ∷ entry prop_min_batch_capacity gte 1
    ∷ entry prop_max_batch_capacity lte (low (2 ^ c.batch_capacity_expo))
    ∷ []
wanted c false =
    entry prop_data_type eq (low c.dtype)
    ∷ entry prop_min_batch_capacity eq (low (2 ^ c.batch_capacity_expo))
    ∷ entry prop_max_batch_capacity eq (low (2 ^ c.batch_capacity_expo))
    ∷ []

constraints-wanted :
    (f : Filter) (c : Config) (partial : Bool)
    → f.input_constraints ≡ []
    → (constraints_from_buffer_append f c partial).input_constraints ≡ wanted c partial
unfolding constraints_from_buffer_append append_constraint
constraints-wanted f c true h = rw h
constraints-wanted f c false h = rw h

-- What prop_from_buffer_config reports.
abbrev pub reported : ℕ → Property
reported v = record { known = true; value = set_low 0 v }

module _ (u : Config) (typed : u.dtype ≢ dtype_ndef) where
  abbrev reported_properties : PropertyTable
  reported_properties =
      zero_property
      ∷ reported u.dtype
      ∷ reported (2 ^ u.batch_capacity_expo)
      ∷ reported (2 ^ u.batch_capacity_expo)
      ∷ replicate 5 zero_property

  reported_table : from_buffer_config u ≡ reported_properties
  unfolding from_buffer_config
  reported_table =
      let t : (u.dtype == dtype_ndef) ≡ false = ground arith in
      let c : ltb 0 (2 ^ u.batch_capacity_expo) ≡ true =
        ground (arith, pow_pos u.batch_capacity_expo) in
      rw (t, c)

  -- The types agree, and the capacities too, up to those that a filter of partial batches takes.
  abbrev pub Fits : Config → Bool → Type 0
  Fits c partial =
      (low u.dtype ≡ low c.dtype)
      × (partial ≡ true → u.batch_capacity_expo ≤ c.batch_capacity_expo)
      × (partial ≡ false → u.batch_capacity_expo ≡ c.batch_capacity_expo)

  module _ (c : Config) (port : ℕ) (small : u.batch_capacity_expo < 32)
      (fit : c.batch_capacity_expo < 32) where
    Met-iff :
        (partial : Bool)
        → has_bit all_ports port ≡ true
        → All (Met reported_properties port) (wanted c partial) ↔ Fits c partial
    Met-iff true b = (
      λ (d, (l, (h, _))). (
        let e = (d b).1.1 in omega arith,
        λ _. (pow_le_iff _ _).0 (
            let e = (h b).1.1 in
            omega
              (arith, pow_word u.batch_capacity_expo small, pow_word c.batch_capacity_expo fit)),
        λ e. absurd (true_ne_false e),
      ),
      λ (d, h, _). (
        λ _. ((omega arith, omega arith), (refl, omega arith)),
        (
          λ _. (
            (omega arith, omega arith),
            (
              refl,
              omega (arith, pow_word u.batch_capacity_expo small, pow_pos u.batch_capacity_expo),
            ),
          ),
          (
            λ _. (
              (omega arith, omega arith),
              (
                refl,
                let le = (pow_le_iff u.batch_capacity_expo c.batch_capacity_expo).1 (h refl) in
                    omega (
                      arith,
                      pow_word u.batch_capacity_expo small,
                      pow_word c.batch_capacity_expo fit,
                    ),
              ),
            ),
            tt,
          ),
        ),
      ),
    )
    Met-iff false b = (
      λ (d, (l, (h, _))). (
        let e = (d b).1.1 in omega arith,
        λ e. absurd (true_ne_false (sym e)),
        λ _. (pow_eq_iff _ _).0 (
            let e = (h b).1.1 in
            omega
              (arith, pow_word u.batch_capacity_expo small, pow_word c.batch_capacity_expo fit)),
      ),
      λ (d, _, h).
          let same : low (set_low 0 (2 ^ u.batch_capacity_expo))
              ≡ low (low (2 ^ c.batch_capacity_expo)) =
            let e = ap (λ n. 2 ^ n) (h refl) in omega arith in
          (
            λ _. ((omega arith, omega arith), (refl, omega arith)),
            (
              λ _. ((omega arith, omega arith), (refl, same)),
              (λ _. ((omega arith, omega arith), (refl, same)), tt),
            ),
          ),
    )

    -- A filter whose contract comes from its buffer's configuration accepts an upstream buffer
    -- with a data type exactly if the data types are equal and the upstream capacity is its own,
    -- or at most its own if it accepts partial batches.
    pub buffered-ok_iff :
        (f : Filter) (partial : Bool)
        → f.input_constraints ≡ []
        → port < 32
        → (validate_connection
              (some (from_buffer_config u))
              (some (constraints_from_buffer_append f c partial).input_constraints)
              port
            ≡ ok)
          ↔ Fits c partial
    buffered-ok_iff f partial fresh p =
        rw (reported_table, constraints-wanted f c partial fresh)
          (let v = validate_connection-ok_iff reported_properties (wanted c partial) port in
            let m = Met-iff partial (has_bit-all_ports port p) in
            (λ h. m.0 (v.0 h), λ h. v.1 (m.1 h)))

appended :
    (f : Filter) (total : ℕ)
    → f.input_constraints ≡ []
    → (append_constraint f prop_max_total_samples eq (some total) all_ports).1.input_constraints
      ≡ entry prop_max_total_samples eq (low total) ∷ []
unfolding append_constraint
appended f total h = rw h

-- A limit on the total number of samples is cut to 32 bits when it is stored, while it is compared
-- on 64: upstream properties that state exactly the demanded total pass exactly below `2 ^ 32`.
pub total_samples-ok_iff :
    (f : Filter) (t : PropertyTable) (total port : ℕ)
    → f.input_constraints ≡ []
    → port < 32
    → property t prop_max_total_samples ≡ record { known = true; value = total }
    → (validate_connection
          (some t)
          (some
            (append_constraint f prop_max_total_samples eq
              (some total)
              all_ports).1.input_constraints)
          port
        ≡ ok)
      ↔ (total < 2 ^ 32)
total_samples-ok_iff f t total port fresh p k =
    let cut = entry prop_max_total_samples eq (low total) in
    let b = has_bit-all_ports port p in
    let v = validate_connection-ok_iff t (cut ∷ []) port in
    rw (appended f total fresh) (
      λ h.
          let e = ((v.0 h).0 b).1.1 in
          let same : (property t prop_max_total_samples).value ≡ total = ap (λ x. x.value) k in
          omega arith,
      λ h. v.1 (
        λ _. ((omega arith, omega arith), (ap (λ x. x.known) k, ap (λ x. x.value) k ∙ omega arith)),
        tt,
      ),
    )
