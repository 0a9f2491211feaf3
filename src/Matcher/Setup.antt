-- ===== src/Matcher/Setup.antt =====
-- bpipe/batch_matcher.c: batch_matcher_init.
use bpipe.Base.{true, false, not, none, if◌then◌else◌, get_or, all_ports}
use bpipe.Err.{Ec, ok, is_ok}
use bpipe.Ring.{Config, data_size_lut}
use bpipe.Property.{exists, prop_sample_period_ns}
use bpipe.Filter.{Filter, Heap, State, filt_t_batch_matcher}
use bpipe.Filter.Kind.{Platform, kind_config, kind_init, on_filter}
use bpipe.Filter.Contract.{
  append_constraint, constraints_from_buffer_append, set_output_behavior_for_buffer_filter,
}
use bpipe.Matcher.{Matcher}

-- The contract: the sample period has to be known.
unfoldable pub matcher_contract : Config → Filter → Filter
matcher_contract c f =
    let buffered = constraints_from_buffer_append f c true in
    let timed = (append_constraint buffered prop_sample_period_ns exists none all_ports).1 in
    set_output_behavior_for_buffer_filter timed c true true

-- `batch_matcher_init` of a matcher that is not NULL and whose fields were `bm`.
unfoldable pub batch_matcher_init : Platform → Config → Matcher → Heap → Ec × Matcher × State
unfolding matcher_contract
batch_matcher_init p c bm h =
    let (e, s) = kind_init p (kind_config p filt_t_batch_matcher 1 1 c 1_000_000) h in
    if not (is_ok e) then (e, bm, s) else (
      ok,
      record {
        output_batch_samples = 0;
        size_detected = false;
        period_ns = 0;
        batch_period_ns = 0;
        next_boundary_ns = 0;
        accumulator = false;
        accumulator_capacity = 0;
        accumulated = 0;
        data_width = get_or data_size_lut c.dtype 0;
        samples_processed = 0;
        batches_matched = 0;
        samples_skipped = 0;
      },
      on_filter (matcher_contract c) s,
    )
