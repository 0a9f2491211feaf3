-- ===== src/Filter/Align/Agreed.antt =====
-- What prop_validate_multi_input_alignment (bpipe/properties.c) accepts.
use bpipe.Base.{
  ℕ, zero, suc, ◌+◌, ◌<◌, ◌≤◌, ◌≡◌, ◌≢◌, ◌↔◌, inl, inr, refl, sym, ◌∙◌, Bool, true, false, not,
  ◌&&◌, List, [], ◌∷◌, arith, ◌==◌, if◌then◌else◌, Bool-cases, has_bit, All, ==_iff, subst,
}
use bpipe.Err.{ok, invalid_config, property_mismatch}
use bpipe.Property.{
  Property, PropertyTable, property, Constraint, low, is_bad_index, prop_count_mvp,
  prop_sample_period_ns,
}
use bpipe.Property.Validate.{Indexed}
use bpipe.Filter.{Filter, input, max_inputs}
use bpipe.Filter.Align.{
  properties_match, is_skipped, existing, is_port_aligned, are_ports_aligned, is_alignment,
  validate_alignment, validate_multi_input_alignment,
}

-- The inputs connected before `new` that the constraint covers.
abbrev pub IsPeer : Filter → Constraint → ℕ → ℕ → Type 0
IsPeer f c new port =
    (has_bit c.input_mask port ≡ true)
    × (port < new)
    × (port < f.n_input_buffers)
    × ((input f port == 0) ≡ false)

-- Two known properties that agree: on all 64 bits for a period, on 32 for the others.
abbrev pub Agree : Property → Property → ℕ → Type 0
Agree x y p =
    (x.known ≡ true)
    × (y.known ≡ true)
    × ((if p == prop_sample_period_ns then x.value else low x.value)
        ≡ (if p == prop_sample_period_ns then y.value else low y.value))

-- What an alignment constraint asks of the table that arrives at the port `new`.
abbrev pub Aligned : Filter → ℕ → PropertyTable → Constraint → Type 0
Aligned f new t c =
    is_alignment c.op ≡ true
    → has_bit c.input_mask new ≡ true
    → Indexed c
      × ((property t c.property).known ≡ true)
      × ((port : ℕ)
          → port < max_inputs
          → IsPeer f c new port
          → Agree (property t c.property) (existing f c port) c.property)

is_skipped_iff :
    (f : Filter) (c : Constraint) (new port : ℕ)
    → (is_skipped f c new port ≡ false) ↔ IsPeer f c new port
unfolding is_skipped
is_skipped_iff f c new port =
    (λ h. (ground arith, ground arith, ground arith, ground arith), λ (m, l, i, r). ground arith)

properties_match_iff :
    (x y : Property) (p : ℕ) → ((y.known && properties_match x y p) ≡ true) ↔ Agree x y p
unfolding properties_match
properties_match_iff x y p =
    (λ h. (ground arith, ground arith, ground arith), λ (k, l, e). ground arith)

is_port_aligned_iff :
    (f : Filter) (x : Property) (c : Constraint) (new port : ℕ)
    → (is_port_aligned f x c new port ≡ true)
      ↔ (IsPeer f c new port → Agree x (existing f c port) c.property)
unfolding is_port_aligned
is_port_aligned_iff f x c new port = (
  λ h peer. (properties_match_iff x _ _).0 (ground (arith, (is_skipped_iff f c new port).1 peer)),
  λ h. elim (Bool-cases (is_skipped f c new port)) [
    | inl y ↦ ground arith
    | inr n ↦ ground (arith, (properties_match_iff x _ _).1 (h ((is_skipped_iff f c new port).0 n)))
  ],
)

-- One round of the loop over the ports.
ports-step :
    (f : Filter) (x : Property) (c : Constraint) (new n port : ℕ)
    → (are_ports_aligned f x c new (suc n) port ≡ true) ↔ (
        (is_port_aligned f x c new port ≡ true) × (are_ports_aligned f x c new n (port + 1) ≡ true))
unfolding are_ports_aligned
ports-step f x c new n port = (λ h. (ground arith, ground arith), λ (a, b). ground arith)

are_ports_aligned_iff :
    (f : Filter) (x : Property) (c : Constraint) (new n port : ℕ)
    → (are_ports_aligned f x c new n port ≡ true)
      ↔ ((i : ℕ) → port ≤ i → i < port + n → is_port_aligned f x c new i ≡ true)
unfolding are_ports_aligned
are_ports_aligned_iff f x c new zero port = (λ h i l u. absurd (omega arith), λ h. refl)
are_ports_aligned_iff f x c new (suc n) port = (
  λ h i l u. elim (Bool-cases (i == port)) [
    | inl e ↦
        subst (λ j. is_port_aligned f x c new j ≡ true) (sym ((==_iff i port).0 e))
          ((ports-step f x c new n port).0 h).0
    | inr ne ↦
        (are_ports_aligned_iff f x c new n (port + 1)).0 ((ports-step f x c new n port).0 h).1 i
          (ground arith) (omega arith)
  ],
  λ h. (ports-step f x c new n port).1 (
    h port (omega arith) (omega arith),
    (are_ports_aligned_iff f x c new n (port + 1)).1 (λ i l u. h i (omega arith) (omega arith)),
  ),
)

index_good : (p : ℕ) → (is_bad_index p ≡ false) ↔ ((1 ≤ p) × (p ≤ prop_count_mvp))
index_good p = (λ h. (ground arith, ground arith), λ h. ground arith)

-- What one round of the loop over the constraints demands of a constraint that applies.
is_round_ok : Filter → ℕ → PropertyTable → Constraint → Bool
is_round_ok f new t c =
    not (is_bad_index c.property)
    && (property t c.property).known
    && are_ports_aligned f (property t c.property) c new max_inputs 0

is_round_ok_iff :
    (f : Filter) (new : ℕ) (t : PropertyTable) (c : Constraint)
    → (is_round_ok f new t c ≡ true) ↔ (
        Indexed c
        × ((property t c.property).known ≡ true)
        × ((port : ℕ)
            → port < max_inputs
            → IsPeer f c new port
            → Agree (property t c.property) (existing f c port) c.property))
unfolding is_round_ok
is_round_ok_iff f new t c = (
  λ h. (
    (index_good c.property).0 (ground arith),
    ground arith,
    λ port lt peer.
        (is_port_aligned_iff f _ c new port).0
          ((are_ports_aligned_iff f _ c new max_inputs 0).0 (ground arith) port (omega arith) lt)
          peer,
  ),
  λ (i, k, h).
      let good : is_bad_index c.property ≡ false = (index_good c.property).1 i in
      let all : are_ports_aligned f (property t c.property) c new max_inputs 0 ≡ true =
        (are_ports_aligned_iff f _ c new max_inputs 0).1
          (λ port l lt. (is_port_aligned_iff f _ c new port).1 (h port lt)) in
      rw (good, k, all),
)

alignment-skip :
    (f : Filter) (new : ℕ) (t : PropertyTable) (c : Constraint) (cs : List Constraint)
    → (is_alignment c.op && has_bit c.input_mask new) ≡ false
    → validate_alignment f new t (c ∷ cs) ≡ validate_alignment f new t cs
unfolding validate_alignment
alignment-skip f new t c cs h = ground arith

alignment-pass :
    (f : Filter) (new : ℕ) (t : PropertyTable) (c : Constraint) (cs : List Constraint)
    → is_alignment c.op ≡ true
    → has_bit c.input_mask new ≡ true
    → is_round_ok f new t c ≡ true
    → validate_alignment f new t (c ∷ cs) ≡ validate_alignment f new t cs
unfolding validate_alignment is_round_ok
alignment-pass f new t c cs a m r = ground arith

alignment-fail :
    (f : Filter) (new : ℕ) (t : PropertyTable) (c : Constraint) (cs : List Constraint)
    → is_alignment c.op ≡ true
    → has_bit c.input_mask new ≡ true
    → is_round_ok f new t c ≡ false
    → validate_alignment f new t (c ∷ cs)
      ≡ (if is_bad_index c.property then invalid_config else property_mismatch)
unfolding validate_alignment is_round_ok
alignment-fail f new t c cs a m r = ground arith

error-ne-ok : (b : Bool) → (if b then invalid_config else property_mismatch) ≢ ok
error-ne-ok true = λ e. cc
error-ne-ok false = λ e. cc

alignment-round :
    (f : Filter) (new : ℕ) (t : PropertyTable) (c : Constraint) (cs : List Constraint)
    → is_alignment c.op ≡ true
    → has_bit c.input_mask new ≡ true
    → (validate_alignment f new t (c ∷ cs) ≡ ok)
      ↔ ((is_round_ok f new t c ≡ true) × (validate_alignment f new t cs ≡ ok))
alignment-round f new t c cs a m = (
  λ h. elim (Bool-cases (is_round_ok f new t c)) [
    | inl y ↦ (y, sym (alignment-pass f new t c cs a m y) ∙ h)
    | inr n ↦ absurd (error-ne-ok _ (sym (alignment-fail f new t c cs a m n) ∙ h))
  ],
  λ (r, h). alignment-pass f new t c cs a m r ∙ h,
)

alignment-step :
    (f : Filter) (new : ℕ) (t : PropertyTable) (c : Constraint) (cs : List Constraint)
    → (validate_alignment f new t (c ∷ cs) ≡ ok)
      ↔ (Aligned f new t c × (validate_alignment f new t cs ≡ ok))
alignment-step f new t c cs = elim (Bool-cases (is_alignment c.op && has_bit c.input_mask new)) [
  | inr off ↦ (
    λ h. (λ a m. absurd (both_ne a m off), sym (alignment-skip f new t c cs off) ∙ h),
    λ (a, h). alignment-skip f new t c cs off ∙ h,
  )
  | inl on ↦
      let a : is_alignment c.op ≡ true = ground arith in
      let m : has_bit c.input_mask new ≡ true = ground arith in
      let step = alignment-round f new t c cs a m in
      (
        λ h. let (r, rest) = step.0 h in (λ _ _. (is_round_ok_iff f new t c).0 r, rest),
        λ (al, h). step.1 ((is_round_ok_iff f new t c).1 (al a m), h),
      )
]
  where
    both_ne : {a b : Bool} → a ≡ true → b ≡ true → (a && b) ≡ false → ⊥
    both_ne g h e = ground arith

validate_alignment-ok_iff :
    (f : Filter) (new : ℕ) (t : PropertyTable) (cs : List Constraint)
    → (validate_alignment f new t cs ≡ ok) ↔ All (Aligned f new t) cs
unfolding validate_alignment
validate_alignment-ok_iff f new t [] = (λ h. tt, λ h. refl)
validate_alignment-ok_iff f new t (c ∷ cs) = (
  λ h.
      let (a, rest) = (alignment-step f new t c cs).0 h in
      (a, (validate_alignment-ok_iff f new t cs).0 rest),
  λ (a, h). (alignment-step f new t c cs).1 (a, (validate_alignment-ok_iff f new t cs).1 h),
)

-- The check of a connection to the port `new` succeeds exactly if, for every alignment constraint
-- of the filter that covers `new`, the property is one of the table and known there, and agrees
-- with that of every lower port that the constraint covers and that has a buffer, connected or not.
pub validate_multi_input_alignment-ok_iff :
    (f : Filter) (new : ℕ) (t : PropertyTable)
    → (validate_multi_input_alignment f new t ≡ ok) ↔ All (Aligned f new t) f.input_constraints
unfolding validate_multi_input_alignment
validate_multi_input_alignment-ok_iff f new t =
    validate_alignment-ok_iff f new t f.input_constraints
