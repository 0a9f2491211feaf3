-- ===== src/Aligner/Setup.antt =====
-- bpipe/sample_aligner.c: sample_aligner_init and sample_aligner_deinit.
use bpipe.Base.{
  ℕ, zero, suc, ◌^◌, Bool, true, false, not, ◌&&◌, none, List, [], ◌∷◌, ltb, ◌==◌, if◌then◌else◌,
  all_ports,
}
use bpipe.Err.{Ec, ok, null_filter, is_ok}
use bpipe.Ring.{Config, zeroed}
use bpipe.Property.{exists, prop_sample_period_ns}
use bpipe.Filter.{BufRef, Filter, Heap, State, write}
use bpipe.Filter.Kind.{Platform, kind_config, kind_init, on_filter}
use bpipe.Filter.Contract.{
  append_constraint, constraints_from_buffer_append, set_output_behavior_for_buffer_filter,
}
use bpipe.Aligner.{Aligner, Alignment, Interpolation, interp_nearest}

abbrev pub filt_t_sample_aligner : ℕ
filt_t_sample_aligner = 8

abbrev pub resamples : Interpolation → Bool
resamples interp_nearest = false
resamples _ = true

-- The contract: the sample period has to be known, and a method that resamples leaves the sizes of
-- its batches open.
unfoldable pub aligner_contract : Interpolation → Config → Filter → Filter
aligner_contract method c f =
    let buffered = constraints_from_buffer_append f c true in
    let timed = (append_constraint buffered prop_sample_period_ns exists none all_ports).1 in
    set_output_behavior_for_buffer_filter timed c (resamples method) false

-- `sample_aligner_init` of an aligner that is not NULL and whose fields were `sa`; `timeout_us` is
-- the bit pattern of a `long`. The cut-off of the sinc method is not modelled.
unfoldable pub sample_aligner_init :
    Platform
    → Interpolation
    → Alignment
    → (sinc_taps : ℕ) → Config
    → ℕ
    → Aligner
    → Heap
    → Ec × Aligner × State
unfolding aligner_contract
sample_aligner_init p method alignment sinc_taps c timeout_us sa h =
    let timeout = if ltb 0 timeout_us && ltb timeout_us (2 ^ 63) then timeout_us else 1_000_000 in
    let (e, s) = kind_init p (kind_config p filt_t_sample_aligner 1 1 c timeout) h in
    if not (is_ok e) then (e, sa, s) else (
      ok,
      record {
        method = method;
        alignment = alignment;
        sinc_taps = sinc_taps;
        period_ns = 0;
        next_output_ns = 0;
        initialized = false;
        history_buffer = false;
        history_size = 0;
        samples_interpolated = 0;
        max_phase_correction_ns = 0;
      },
      on_filter (aligner_contract method c) s,
    )

-- The loop of `sample_aligner_deinit` over the first `n` inputs; bb_deinit refuses NULL.
unfoldable pub deinit_inputs : ℕ → List BufRef → Heap → Ec × Heap
deinit_inputs zero rs h = (ok, h)
deinit_inputs (suc n) [] h = (ok, h)
deinit_inputs (suc n) (r ∷ rs) h =
    let rest = deinit_inputs n rs (write h r zeroed) in if r == 0 then (null_filter, h) else rest

unfoldable pub sample_aligner_deinit : Aligner → State → Ec × Aligner × State
unfolding deinit_inputs
sample_aligner_deinit sa s =
    let (e, h) = deinit_inputs s.filter.n_input_buffers s.filter.input_buffers s.heap in
    (e, record sa { history_buffer = false }, record s { heap = h })
