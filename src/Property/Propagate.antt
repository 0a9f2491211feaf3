-- ===== src/Property/Propagate.antt =====
-- prop_propagate of bpipe/properties.c, property by property.
use bpipe.Base.{
  ℕ, ◌+◌, ◌<◌, ◌≤◌, ◌≡◌, ◌⊎◌, inl, inr, refl, sym, ap, subst, ◌∙◌, Bool, true, false, not, ◌&&◌,
  ◌||◌, some, List, [], ◌∷◌, ◌++◌, arith, ◌==◌, ==_iff, if◌then◌else◌, Bool-cases, has_bit, All,
  length, set, length-set, get_or-set_self, get_or-set_ne, get_or-replicate, get_or, leb,
}
use bpipe.Property.Validate.{value_of}
use bpipe.Property.{
  Property, PropertyTable, property, Behavior, BehaviorOp, op_preserve, low, preserved,
  prop_count_mvp, op_set, is_bad_index, apply_behavior, apply_all, inherited, propagate,
  zero_property,
}

-- The behaviour applies to the output port and names the property.
abbrev pub governs : ℕ → ℕ → Behavior → Bool
governs port p b = has_bit b.output_mask port && not (is_bad_index b.property) && b.property == p

-- What the behaviours, in their order, make of the property `p` alone.
effects : List PropertyTable → ℕ → ℕ → List Behavior → Property → Property
effects inputs port p [] x = x
effects inputs port p (b ∷ bs) x =
    effects inputs port p bs (if governs port p b then apply_behavior x b inputs else x)

-- The table after one behaviour.
abbrev step : List PropertyTable → ℕ → Behavior → PropertyTable → PropertyTable
step inputs port b t =
    if not (has_bit b.output_mask port) || is_bad_index b.property
    then t
    else set t b.property (apply_behavior (property t b.property) b inputs)

length-step :
    (inputs : List PropertyTable) (port : ℕ) (b : Behavior) (t : PropertyTable)
    → length (step inputs port b t) ≡ length t
length-step inputs port b t =
    ground (arith, length-set t b.property (apply_behavior (property t b.property) b inputs))

property-step :
    (inputs : List PropertyTable) (port p : ℕ) (b : Behavior) (t : PropertyTable)
    → p < length t
    → property (step inputs port b t) p
      ≡ (if governs port p b then apply_behavior (property t p) b inputs else property t p)
property-step inputs port p b t h = elim (Bool-cases (b.property == p)) [
  | inl e ↦
      let q : b.property ≡ p = (==_iff _ _).0 e in
      ground (
        arith,
        get_or-set_self t b.property (apply_behavior (property t b.property) b inputs)
            zero_property,
        ap (property t) q,
        ap (λ (k : ℕ). apply_behavior (property t k) b inputs) q,
        ap (property (set t b.property (apply_behavior (property t b.property) b inputs))) q,
      )
  | inr n ↦ ground (
    arith,
    get_or-set_ne t b.property p (apply_behavior (property t b.property) b inputs) zero_property,
  )
]

apply_all-effects :
    (inputs : List PropertyTable) (port p : ℕ) (bs : List Behavior) (t : PropertyTable)
    → p < length t
    → property (apply_all inputs port bs t) p ≡ effects inputs port p bs (property t p)
unfolding apply_all effects
apply_all-effects inputs port p [] t h = refl
apply_all-effects inputs port p (b ∷ bs) t h =
    apply_all-effects inputs port p bs (step inputs port b t)
      (subst (λ (n : ℕ). p < n) (sym (length-step inputs port b t)) h)
    ∙ ap (effects inputs port p bs) (property-step inputs port p b t h)

propagate-effects :
    (inputs : List PropertyTable) (bs : List Behavior) (port p : ℕ)
    → p < length (inherited inputs)
    → property (propagate inputs (some bs) port) p
      ≡ effects inputs port p bs (property (inherited inputs) p)
unfolding propagate
propagate-effects inputs bs port p h = apply_all-effects inputs port p bs (inherited inputs) h

effects-none :
    (inputs : List PropertyTable) (port p : ℕ) (bs : List Behavior) (x : Property)
    → All (λ b. governs port p b ≡ false) bs
    → effects inputs port p bs x ≡ x
unfolding effects
effects-none inputs port p [] x h = refl
effects-none inputs port p (b ∷ bs) x (n, h) = rw n (effects-none inputs port p bs x h)

effects-governed :
    (inputs : List PropertyTable) (port p : ℕ) (b : Behavior) (bs : List Behavior) (x : Property)
    → governs port p b ≡ true
    → effects inputs port p (b ∷ bs) x ≡ effects inputs port p bs (apply_behavior x b inputs)
unfolding effects
effects-governed inputs port p b bs x g = rw g

effects-append :
    (inputs : List PropertyTable) (port p : ℕ) (earlier bs : List Behavior) (x : Property)
    → effects inputs port p (earlier ++ bs) x
      ≡ effects inputs port p bs (effects inputs port p earlier x)
unfolding effects
effects-append inputs port p [] bs x = refl
effects-append inputs port p (a ∷ earlier) bs x = effects-append inputs port p earlier bs _

-- A property that no behaviour governs is inherited from the first input.
propagate_inherits :
    (inputs : List PropertyTable) (bs : List Behavior) (port p : ℕ)
    → p < length (inherited inputs)
    → All (λ b. governs port p b ≡ false) bs
    → property (propagate inputs (some bs) port) p ≡ property (inherited inputs) p
propagate_inherits inputs bs port p h n =
    propagate-effects inputs bs port p h ∙ effects-none inputs port p bs _ n

apply_behavior-set :
    (x : Property) (b : Behavior) (inputs : List PropertyTable)
    → b.op ≡ op_set
    → ((apply_behavior x b inputs).known ≡ true)
      × (value_of b.property (apply_behavior x b inputs).value ≡ value_of b.property b.operand)
unfolding apply_behavior
apply_behavior-set x b inputs e = (ground arith, ground arith)

-- The last behaviour that governs a property, if there is one.
last_governing :
    (port p : ℕ) (bs : List Behavior)
    → All (λ b. governs port p b ≡ false) bs
      ⊎ ((before : List Behavior) × (b : Behavior) × (later : List Behavior) × (bs
            ≡ before ++ b ∷ later)
          × (governs port p b ≡ true)
          × All (λ c. governs port p c ≡ false) later)
last_governing port p [] = inl tt
last_governing port p (b ∷ bs) = elim (last_governing port p bs) [
  | inr (before, c, later, e, g, n) ↦ inr (b ∷ before, c, later, ap (◌∷◌ b) e, g, n)
  | inl n ↦ elim (Bool-cases (governs port p b)) [
    | inl g ↦ inr ([], b, bs, refl, g, n)
    | inr m ↦ inl (m, n)
  ]
]

-- The property of the first input, unknown without inputs.
abbrev pub IsInherited : List PropertyTable → ℕ → Property → Type 0
IsInherited [] p x = x.known ≡ false
IsInherited (t ∷ ts) p x = x ≡ property t p

-- The property of the input `i`, of the first one where there is no input `i`; without inputs the
-- property is left as it is, `old`.
abbrev pub IsPreserved : List PropertyTable → ℕ → ℕ → Property → Property → Type 0
IsPreserved [] p i old x = x ≡ old
IsPreserved (t ∷ ts) p i old x =
    ((i < length (t ∷ ts)) × (x ≡ property (get_or (t ∷ ts) i t) p))
    ⊎ ((length (t ∷ ts) ≤ i) × (x ≡ property t p))

-- What the operator of a behaviour makes of the property.
abbrev pub IsGivenBy : BehaviorOp → List PropertyTable → Behavior → ℕ → Property → Property → Type 0
IsGivenBy op_set inputs b p old x = (x.known ≡ true) × (value_of p x.value ≡ value_of p b.operand)
IsGivenBy op_preserve inputs b p old x = IsPreserved inputs p (low b.operand) old x

preserved-IsPreserved :
    (inputs : List PropertyTable) (p i : ℕ) (old : Property)
    → IsPreserved inputs p i old (preserved old p i inputs)
unfolding preserved
preserved-IsPreserved [] p i old = refl
preserved-IsPreserved (t ∷ ts) p i old = elim (Bool-cases (leb (length (t ∷ ts)) i)) [
  | inl y ↦
      inr (ground arith, ap (λ (c : Bool). property (if c then t else get_or (t ∷ ts) i t) p) y)
  | inr n ↦
      inl (ground arith, ap (λ (c : Bool). property (if c then t else get_or (t ∷ ts) i t) p) n)
]

apply_behavior-IsGivenBy :
    (op : BehaviorOp) (inputs : List PropertyTable) (b : Behavior) (old : Property)
    → b.op ≡ op
    → IsGivenBy op inputs b b.property old (apply_behavior old b inputs)
unfolding apply_behavior
apply_behavior-IsGivenBy op_set inputs b old e = apply_behavior-set old b inputs e
apply_behavior-IsGivenBy op_preserve inputs b old e =
    rw e (preserved-IsPreserved inputs b.property (low b.operand) old)

inherited-IsInherited :
    (inputs : List PropertyTable) (p : ℕ) → IsInherited inputs p (property (inherited inputs) p)
inherited-IsInherited (t ∷ ts) p = refl
inherited-IsInherited [] p =
    ap (λ (x : Property). x.known) (get_or-replicate (prop_count_mvp + 1) p zero_property)

-- Each property of a filter's output is decided by the last behaviour that applies to the port and
-- names it: it has the operand's value if that behaviour sets it; if it preserves it, it is that of
-- the input that the operand names, of the first input where there is no such, and without inputs
-- what the earlier behaviours have made of it. With no such behaviour it is inherited from the first
-- input, and unknown without inputs.
pub propagate_decided :
    (inputs : List PropertyTable) (bs : List Behavior) (port p : ℕ)
    → p < length (inherited inputs)
    → let x = property (propagate inputs (some bs) port) p in
      (All (λ b. governs port p b ≡ false) bs × IsInherited inputs p x)
      ⊎ ((before : List Behavior) × (b : Behavior) × (later : List Behavior) × (bs
            ≡ before ++ b ∷ later)
          × (governs port p b ≡ true)
          × All (λ c. governs port p c ≡ false) later
          × IsGivenBy b.op inputs b p (property (propagate inputs (some before) port) p) x)
propagate_decided inputs bs port p h = elim (last_governing port p bs) [
  | inl n ↦ inl (
    n,
    subst (IsInherited inputs p) (sym (propagate_inherits inputs bs port p h n))
        (inherited-IsInherited inputs p),
  )
  | inr (before, b, later, e, g, n) ↦
      let old : Property = property (propagate inputs (some before) port) p in
      let x : Property = apply_behavior old b inputs in
      let same : b.property ≡ p = ground arith in
      let made : property (propagate inputs (some bs) port) p ≡ x =
        propagate-effects inputs bs port p h
        ∙ ap (λ l. effects inputs port p l (property (inherited inputs) p)) e
        ∙ effects-append inputs port p before (b ∷ later) (property (inherited inputs) p)
        ∙ effects-governed inputs port p b later _ g
        ∙ effects-none inputs port p later _ n
        ∙ ap (λ (y : Property). apply_behavior y b inputs)
            (sym (propagate-effects inputs before port p h)) in
      inr (
        before,
        b,
        later,
        e,
        g,
        n,
        subst (IsGivenBy b.op inputs b p old) (sym made) (
            subst (λ (q : ℕ). IsGivenBy b.op inputs b q old x) same
              (apply_behavior-IsGivenBy b.op inputs b old refl)),
      )
]
