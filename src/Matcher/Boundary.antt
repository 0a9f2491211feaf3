-- ===== src/Matcher/Boundary.antt =====
-- The search for the first batch boundary in batch_matcher_worker (bpipe/batch_matcher.c).
use native.Mathlib.Nat.{add-mul, mod-eq_of_lt}
use bpipe.Base.{
  ℕ, zero, suc, ◌+◌, ◌*◌, ◌^◌, ◌≤◌, ◌<◌, ◌≡◌, ap, ◌∙◌, true, false, some, arith, u64, leb,
}
use bpipe.Matcher.{find_boundary}

-- The search stops at the boundary `d` periods away if that is the last one up to `t_ns`.
pub find_boundary-some :
    (fuel d period t_ns boundary target : ℕ)
    → d < fuel
    → boundary + d * period ≡ target
    → target ≤ t_ns
    → t_ns < target + period
    → target + period < 2 ^ 64
    → find_boundary fuel period t_ns boundary ≡ some target
unfolding find_boundary
find_boundary-some zero d period t_ns boundary target lt e ge below time = absurd (omega arith)
find_boundary-some (suc fuel) zero period t_ns boundary target lt e ge below time =
    let step : u64 (boundary + period) ≡ boundary + period = mod-eq_of_lt (omega arith) in
    let past : leb (boundary + period) t_ns ≡ false = ground arith in
    rw (step, past) (ap some (omega arith))
find_boundary-some (suc fuel) (suc d) period t_ns boundary target lt e ge below time =
    let apart : suc d * period ≡ d * period + period =
      ap (λ (k : ℕ). k * period) {x = suc d} {y = d + 1} (omega arith)
      ∙ add-mul d 1 period
      ∙ omega arith in
    let step : u64 (boundary + period) ≡ boundary + period = mod-eq_of_lt (omega arith) in
    let before : leb (boundary + period) t_ns ≡ true = ground arith in
    rw (step, before)
      (find_boundary-some fuel d period t_ns (boundary + period) target (omega arith) (omega arith)
        ge below time)
