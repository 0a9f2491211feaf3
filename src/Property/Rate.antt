-- ===== src/Property/Rate.antt =====
-- bpipe/properties.h: sample rates in Hz, which a table holds as periods in nanoseconds.
use native.Mathlib.Nat.{div-mul-le_self, div-eq_of_lt-le, div-lt_iff_lt-mul, div-add-mod, mod-lt}
use native.Mathlib.Decide.{dec_lt}
use bpipe.Base.{
  ℕ, ◌+◌, ◌*◌, ◌/◌, ◌%◌, ◌<◌, ◌≤◌, ◌≡◌, refl, ap, ◌∙◌, true, false, Option, none, some, arith, ◌==◌,
  ==_false, if◌then◌else◌, length, set, get_or-set_self, u32,
}
use bpipe.Err.{Ec, ok}
use bpipe.Property.{PropertyTable, prop_sample_period_ns, property, zero_property, get_wide}

-- A rate of 0 is one that varies, and so is a period of 0.
unfoldable pub sample_rate_to_period_ns : ℕ → ℕ
sample_rate_to_period_ns rate_hz = if rate_hz == 0 then 0 else 1_000_000_000 / rate_hz

unfoldable pub period_ns_to_sample_rate : ℕ → ℕ
period_ns_to_sample_rate period_ns = if period_ns == 0 then 0 else u32 (1_000_000_000 / period_ns)

-- `prop_set_sample_rate_hz` of a table that is not NULL.
unfoldable pub set_sample_rate_hz : PropertyTable → ℕ → Ec × PropertyTable
unfolding sample_rate_to_period_ns
set_sample_rate_hz t rate_hz = (
  ok,
  set t prop_sample_period_ns (record { known = true; value = sample_rate_to_period_ns rate_hz }),
)

-- `prop_get_sample_rate_hz`: `none` where the code returns false.
unfoldable pub get_sample_rate_hz : PropertyTable → Option ℕ
unfolding get_wide period_ns_to_sample_rate
get_sample_rate_hz t = elim (get_wide t prop_sample_period_ns) [
  | none ↦ none
  | some period_ns ↦ some (period_ns_to_sample_rate period_ns)
]

-- Dividing by the quotient gives the divisor back, where that is at most the root.
quotient_back : (n r : ℕ) → 0 < r → r * r ≤ n → (r ≤ n / r) × (n / (n / r) ≡ r)
quotient_back n r pos small =
    let below : n / r * r ≤ n = div-mul-le_self n r in
    let whole : r * (n / r) + n % r ≡ n = div-add-mod n r in
    let rest : n % r < r = mod-lt n pos in
    let large : r ≤ n / r = elim (dec_lt (n / r) r) [
      | no d ↦ omega arith
      | yes d ↦ let above : n < r * r = (div-lt_iff_lt-mul pos).0 d in absurd (omega arith)
    ] in
    (large, div-eq_of_lt-le (n / r) (grind (arith, below)) (grind (arith, whole, rest, large)))

get_sample_rate_hz-known :
    (t : PropertyTable) (period_ns : ℕ)
    → property t prop_sample_period_ns ≡ record { known = true; value = period_ns }
    → get_sample_rate_hz t ≡ some (period_ns_to_sample_rate period_ns)
unfolding get_sample_rate_hz get_wide
get_sample_rate_hz-known t period_ns e = rw (e, get_sample_rate_hz) refl

-- A sample rate that is put into a table is read back, if it is at least 1 Hz and its square at
-- most 10^9, and the table has a slot for the period.
pub get_sample_rate_hz-set :
    (t : PropertyTable) (rate_hz : ℕ)
    → prop_sample_period_ns < length t
    → 0 < rate_hz
    → rate_hz * rate_hz ≤ 1_000_000_000
    → get_sample_rate_hz (set_sample_rate_hz t rate_hz).1 ≡ some rate_hz
unfolding set_sample_rate_hz sample_rate_to_period_ns period_ns_to_sample_rate
get_sample_rate_hz-set t rate_hz inside pos small =
    let (large, back) = quotient_back 1_000_000_000 rate_hz pos small in
    let set_rate : (rate_hz == 0) ≡ false = ==_false rate_hz 0 (λ e. absurd (omega arith)) in
    let period : (1_000_000_000 / rate_hz == 0) ≡ false =
      ==_false (1_000_000_000 / rate_hz) 0 (λ e. absurd (omega arith)) in
    let square : rate_hz ≤ rate_hz * rate_hz = grind arith in
    let word : u32 rate_hz ≡ rate_hz = omega arith in
    get_sample_rate_hz-known (set_sample_rate_hz t rate_hz).1 (sample_rate_to_period_ns rate_hz)
      (get_or-set_self t prop_sample_period_ns _ zero_property inside)
    ∙ ap some (rw (set_rate, period, back, word) refl)
