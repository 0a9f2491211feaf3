-- ===== src/Filter/Sinks.antt =====
-- default_sink_connect of bpipe/core.c: when it succeeds, and what it changes.
use bpipe.Base.{
  ℕ, ◌+◌, ◌-◌, ◌<◌, ◌≡◌, ◌≢◌, ◌↔◌, ◌⊎◌, inl, inr, refl, sym, ap, ◌∙◌, Bool, true, false, not, ◌&&◌,
  ◌||◌, [], arith, ltb, leb, ◌==◌, if◌then◌else◌, Bool-cases, set,
}
use bpipe.Err.{Ec, ok, is_ok, null_buff, invalid_sink_idx, connection_occupied, dtype_mismatch}
use bpipe.Filter.{BufRef, State, max_sinks, input, sink, attach, sink_connect}
pub mod Wired

-- The data type of the first input, if there is one, is the sink's.
abbrev is_typed : State → BufRef → Bool
is_typed s ref = not (
    ltb 0 s.filter.n_input_buffers
    && not (input s.filter 0 == 0)
    && not ((s.heap ref).dtype == (s.heap (input s.filter 0)).dtype))

abbrev pub is_free : State → ℕ → BufRef → Bool
is_free s port ref =
    not (ref == 0)
    && ltb port max_sinks
    && ltb port s.filter.max_supported_sinks
    && sink s.filter port == 0
    && is_typed s ref

abbrev refusal : State → ℕ → BufRef → Ec
refusal s port ref =
    if ref == 0
    then null_buff
    else if leb max_sinks port || leb s.filter.max_supported_sinks port
    then invalid_sink_idx
    else if not (sink s.filter port == 0)
    then connection_occupied
    else if not (is_typed s ref)
    then dtype_mismatch
    else ok

pub connect-attach :
    (s : State) (port : ℕ) (ref : BufRef)
    → is_free s port ref ≡ true
    → sink_connect s port ref ≡ attach s port ref
unfolding sink_connect
connect-attach s port ref h = ground arith

pub connect-refuse :
    (s : State) (port : ℕ) (ref : BufRef)
    → is_free s port ref ≡ false
    → sink_connect s port ref ≡ (refusal s port ref, s)
unfolding sink_connect
connect-refuse s port ref h = ground arith

refusal-ne-ok :
    (s : State) (port : ℕ) (ref : BufRef)
    → is_free s port ref ≡ false
    → is_ok (refusal s port ref) ≡ false
unfolding is_ok
refusal-ne-ok s port ref h = ground arith

is_ok-ok : is_ok ok ≡ true
unfolding is_ok
is_ok-ok = refl

clash : false ≢ true
clash e = cc

pub attach-sinks :
    (s : State) (port : ℕ) (ref : BufRef)
    → (attach s port ref).1.filter.sinks ≡ set s.filter.sinks port ref
unfolding attach
attach-sinks s port ref = ground arith

pub attach-n_sinks :
    (s : State) (port : ℕ) (ref : BufRef)
    → (attach s port ref).1.filter.n_sinks ≡ s.filter.n_sinks + 1
unfolding attach
attach-n_sinks s port ref = ground arith

pub sink_connect-inputs :
    (s : State) (port : ℕ) (ref : BufRef)
    → (sink_connect s port ref).1.filter.input_buffers ≡ s.filter.input_buffers
unfolding sink_connect attach
sink_connect-inputs s port ref = ground arith

-- The first input buffer, if there is one, has the sink's data type.
abbrev pub IsTyped : State → BufRef → Type 0
IsTyped s ref =
    0 < s.filter.n_input_buffers
    → input s.filter 0 ≢ 0
    → (s.heap ref).dtype ≡ (s.heap (input s.filter 0)).dtype

abbrev pub CanConnect : State → ℕ → BufRef → Type 0
CanConnect s port ref =
    (ref ≢ 0)
    × (port < max_sinks)
    × (port < s.filter.max_supported_sinks)
    × (sink s.filter port ≡ 0)
    × IsTyped s ref

is_typed_iff : (s : State) (ref : BufRef) → (is_typed s ref ≡ true) ↔ IsTyped s ref
is_typed_iff s ref = (
  λ h n i. ground arith,
  λ h. elim (Bool-cases (ltb 0 s.filter.n_input_buffers && not (input s.filter 0 == 0))) [
    | inr off ↦ ground arith
    | inl y ↦ let same = h (ground arith) (ground arith) in ground arith
  ],
)

pub is_free_iff :
    (s : State) (port : ℕ) (ref : BufRef) → (is_free s port ref ≡ true) ↔ CanConnect s port ref
is_free_iff s port ref = (
  λ h. (
    ground arith,
    ground arith,
    ground arith,
    ground arith,
    (is_typed_iff s ref).0 (ground arith),
  ),
  λ (r, m, p, f, t). let typed = (is_typed_iff s ref).1 t in ground arith,
)

is_ok-attach : (s : State) (port : ℕ) (ref : BufRef) → (attach s port ref).0 ≡ ok
unfolding attach
is_ok-attach s port ref = refl

refused-ne-ok :
    (s : State) (port : ℕ) (ref : BufRef)
    → is_free s port ref ≡ false
    → (sink_connect s port ref).0 ≢ ok
refused-ne-ok s port ref n e = clash (
    sym (refusal-ne-ok s port ref n)
    ∙ ap (λ r. is_ok r.0) (sym (connect-refuse s port ref n))
    ∙ ap is_ok e
    ∙ is_ok-ok)

-- A connection of the default kind succeeds exactly if there is a buffer, the port is one that the
-- filter supports and free, and the buffer has the data type of the first input, if there is one:
-- either so, and then the slot holds the buffer and the others are unchanged, or it fails, and
-- changes nothing.
pub sink_connect_cases :
    (s : State) (port : ℕ) (ref : BufRef)
    → (CanConnect s port ref
        × ((sink_connect s port ref).0 ≡ ok)
        × ((sink_connect s port ref).1.filter.sinks ≡ set s.filter.sinks port ref))
      ⊎ ((¬ CanConnect s port ref)
          × ((sink_connect s port ref).0 ≢ ok)
          × ((sink_connect s port ref).1 ≡ s))
sink_connect_cases s port ref = elim (Bool-cases (is_free s port ref)) [
  | inl y ↦ inl (
    (is_free_iff s port ref).0 y,
    ap (λ r. r.0) (connect-attach s port ref y) ∙ is_ok-attach s port ref,
    ap (λ r. r.1.filter.sinks) (connect-attach s port ref y) ∙ attach-sinks s port ref,
  )
  | inr n ↦ inr (
    λ can. clash (sym n ∙ (is_free_iff s port ref).1 can),
    refused-ne-ok s port ref n,
    ap (λ r. r.1) (connect-refuse s port ref n),
  )
]
