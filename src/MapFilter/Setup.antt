-- ===== src/MapFilter/Setup.antt =====
-- bpipe/map.c: map_init and map_flush.
use bpipe.Base.{ℕ, ◌^◌, Bool, true, false, not, ◌&&◌, Option, none, some, ltb, ◌==◌, if◌then◌else◌}
use bpipe.Err.{Ec, ok, invalid_config, is_ok}
use bpipe.Ring.{Batch, BatchBuff, Config, get_head}
use bpipe.Filter.{Filter, Heap, State, BufRef, sink}
use bpipe.Filter.Kind.{Platform, kind_config, kind_init, on_filter, own_batches, with_output}
use bpipe.Filter.Contract.{constraints_from_buffer_append}
pub mod Joined
mod Tests

abbrev pub filt_t_map : ℕ
filt_t_map = 1

-- The contract of a map filter.
unfoldable pub map_contract : Config → Filter → Filter
map_contract c f =
    with_output
      (own_batches c.dtype (2 ^ c.batch_capacity_expo) (constraints_from_buffer_append f c true))

-- `map_init` of a filter that is not NULL; `has_fcn` says whether `map_fcn` is not NULL. The fields
-- of `Map_filt_t` are set to zero. The capacity exponent is below 32.
unfoldable pub map_init : Platform → Config → ℕ → Bool → Heap → Ec × State
unfolding map_contract
map_init p c timeout_us has_fcn h =
    let (e, s) = kind_init p (kind_config p filt_t_map 1 1 c timeout_us) h in
    if not (is_ok e)
    then (e, s)
    else if not has_fcn
    then (invalid_config, s)
    else (ok, on_filter (map_contract c) s)

-- `map_flush`: what bb_submit of the sink does is an argument.
unfoldable pub map_flush : (BatchBuff → Ec × BatchBuff) → Filter → Heap → Ec × Heap
map_flush submit f h =
    let ref = sink f 0 in
    let (e, b) = submit (h ref) in
    if ref == 0
    then (ok, h)
    else if ltb 0 (get_head (h ref)).head
    then (e, bpipe.Filter.write h ref b)
    else (ok, h)
