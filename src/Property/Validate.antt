-- ===== src/Property/Validate.antt =====
-- prop_validate_connection of bpipe/properties.c against what its constraints demand.
use bpipe.Base.{
  ℕ, ◌≤◌, ◌≡◌, ◌↔◌, inl, inr, refl, sym, ◌∙◌, true, false, some, List, [], ◌∷◌, arith,
  if◌then◌else◌, Bool-cases, has_bit, All,
}
use bpipe.Err.{ok, invalid_config, property_mismatch}
use bpipe.Property.{
  Property, PropertyTable, property, Constraint, exists, eq, gte, lte, multi_input_aligned,
  ConstraintOp, low, is_wide, is_bad_index, prop_count_mvp, check, validate_constraint,
  validate_all, validate_connection,
}

-- The value of a property: a number of 64 bits for a period or a total, of 32 for the others.
abbrev pub value_of : ℕ → ℕ → ℕ
value_of p v = if is_wide p then v else low v

-- What each operator demands of the property that it names.
abbrev Demands : ConstraintOp → ℕ → Property → ℕ → Type 0
Demands exists p x v = x.known ≡ true
Demands eq p x v = (x.known ≡ true) × (value_of p x.value ≡ value_of p v)
Demands gte p x v = (x.known ≡ true) × (value_of p v ≤ value_of p x.value)
Demands lte p x v = (x.known ≡ true) × (value_of p x.value ≤ value_of p v)
Demands multi_input_aligned p x v = Unit

abbrev pub Satisfies : Property → Constraint → Type 0
Satisfies x c = Demands c.op c.property x c.operand

-- The constraint names a property that the table holds.
abbrev pub Indexed : Constraint → Type 0
Indexed c = (1 ≤ c.property) × (c.property ≤ prop_count_mvp)

-- What a constraint asks of a table, at an input port of its mask.
abbrev pub Met : PropertyTable → ℕ → Constraint → Type 0
Met t port c = has_bit c.input_mask port ≡ true → Indexed c × Satisfies (property t c.property) c

check_iff :
    (o : ConstraintOp) (p : ℕ) (x : Property) (v : ℕ) → (check o p x v ≡ true) ↔ Demands o p x v
unfolding check
check_iff exists p x v = (λ h. h, λ h. h)
check_iff eq p x v = (λ h. ground arith, λ h. ground arith)
check_iff gte p x v = (λ h. ground arith, λ h. ground arith)
check_iff lte p x v = (λ h. ground arith, λ h. ground arith)
check_iff multi_input_aligned p x v = (λ h. tt, λ h. refl)

validate_constraint_iff :
    (x : Property) (c : Constraint) → (validate_constraint x c ≡ true) ↔ Satisfies x c
unfolding validate_constraint
validate_constraint_iff x c = check_iff c.op c.property x c.operand

-- One round of the loop.
validate-skip :
    (t : PropertyTable) (port : ℕ) (c : Constraint) (cs : List Constraint)
    → has_bit c.input_mask port ≡ false
    → validate_all t port (c ∷ cs) ≡ validate_all t port cs
unfolding validate_all
validate-skip t port c cs h = ground arith

validate-bad :
    (t : PropertyTable) (port : ℕ) (c : Constraint) (cs : List Constraint)
    → has_bit c.input_mask port ≡ true
    → is_bad_index c.property ≡ true
    → validate_all t port (c ∷ cs) ≡ invalid_config
unfolding validate_all
validate-bad t port c cs h b = ground arith

validate-fail :
    (t : PropertyTable) (port : ℕ) (c : Constraint) (cs : List Constraint)
    → has_bit c.input_mask port ≡ true
    → is_bad_index c.property ≡ false
    → validate_constraint (property t c.property) c ≡ false
    → validate_all t port (c ∷ cs) ≡ property_mismatch
unfolding validate_all
validate-fail t port c cs h b v = ground arith

validate-pass :
    (t : PropertyTable) (port : ℕ) (c : Constraint) (cs : List Constraint)
    → has_bit c.input_mask port ≡ true
    → is_bad_index c.property ≡ false
    → validate_constraint (property t c.property) c ≡ true
    → validate_all t port (c ∷ cs) ≡ validate_all t port cs
unfolding validate_all
validate-pass t port c cs h b v = ground arith

index_good : (p : ℕ) → (is_bad_index p ≡ false) ↔ ((1 ≤ p) × (p ≤ prop_count_mvp))
index_good p = (λ h. (ground arith, ground arith), λ h. ground arith)

validate_all_sound :
    (t : PropertyTable) (cs : List Constraint) (port : ℕ)
    → validate_all t port cs ≡ ok
    → All (Met t port) cs
validate_all_sound t [] port h = tt
validate_all_sound t (c ∷ cs) port h = elim (Bool-cases (has_bit c.input_mask port)) [
  | inr skip ↦ (
    λ a. absurd (true_ne_false (sym a ∙ skip)),
    validate_all_sound t cs port (sym (validate-skip t port c cs skip) ∙ h),
  )
  | inl on ↦ elim (Bool-cases (is_bad_index c.property)) [
    | inl bad ↦ absurd (invalid-ne-ok (sym (validate-bad t port c cs on bad) ∙ h))
    | inr good ↦ elim (Bool-cases (validate_constraint (property t c.property) c)) [
      | inr fails ↦ absurd (mismatch-ne-ok (sym (validate-fail t port c cs on good fails) ∙ h))
      | inl holds ↦ (
        λ a. ((index_good c.property).0 good, (validate_constraint_iff _ c).0 holds),
        validate_all_sound t cs port (sym (validate-pass t port c cs on good holds) ∙ h),
      )
    ]
  ]
]
  where
    true_ne_false : true ≡ false → ⊥
    true_ne_false e = cc

    invalid-ne-ok : invalid_config ≡ ok → ⊥
    invalid-ne-ok e = cc

    mismatch-ne-ok : property_mismatch ≡ ok → ⊥
    mismatch-ne-ok e = cc

validate_all_complete :
    (t : PropertyTable) (cs : List Constraint) (port : ℕ)
    → All (Met t port) cs
    → validate_all t port cs ≡ ok
unfolding validate_all
validate_all_complete t [] port h = refl
validate_all_complete t (c ∷ cs) port (m, h) = elim (Bool-cases (has_bit c.input_mask port)) [
  | inr skip ↦ validate-skip t port c cs skip ∙ validate_all_complete t cs port h
  | inl on ↦
      validate-pass t port c cs on ((index_good c.property).1 (m on).0)
        ((validate_constraint_iff _ c).1 (m on).1)
      ∙ validate_all_complete t cs port h
]

-- A connection is valid exactly if every constraint of the contract that applies to the input port
-- names a property of the table and is satisfied by the upstream value of that property.
pub validate_connection-ok_iff :
    (t : PropertyTable) (cs : List Constraint) (port : ℕ)
    → (validate_connection (some t) (some cs) port ≡ ok) ↔ All (Met t port) cs
unfolding validate_connection
validate_connection-ok_iff t cs port =
    (validate_all_sound t cs port, validate_all_complete t cs port)
