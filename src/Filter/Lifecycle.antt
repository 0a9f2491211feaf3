-- ===== src/Filter/Lifecycle.antt =====
-- bpipe/core.c: filt_init and filt_deinit. The answers of `malloc` and of the calls that bb_init
-- makes, and whether the mutex of the filter can be set up, are arguments.
use bpipe.Base.{
  ℕ, zero, suc, ◌+◌, ◌-◌, ◌^◌, ◌<◌, ◌≤◌, ◌≡◌, ◌≢◌, refl, sym, ap, ◌∙◌, subst, inl, inr, Bool, true,
  false, not, ◌&&◌, ◌||◌, Option, none, some, List, [], ◌∷◌, ◌++◌, arith, ltb, leb, ◌==◌, ==_iff,
  ==_false, if◌then◌else◌, Bool-cases, All, get_or, replicate,
}
use bpipe.Err.{
  Ec, ok, is_ok, is_ok→eq, alloc, mutex_init_fail, invalid_config, invalid_config_timeout,
  invalid_config_filter_t, invalid_config_filter_size, invalid_config_max_sinks,
  invalid_config_max_inputs, invalid_config_worker,
}
use bpipe.Ring.{BatchBuff, Config, zeroed, data_size_lut}
use bpipe.Buffer.Inv.{IsValid}
use bpipe.Buffer.Setup
use bpipe.Buffer.Setup.{Alloc}
use bpipe.Buffer.Setup.Laws.{init-IsValid}
use bpipe.Property.{table_init}
use bpipe.Filter.{
  BufRef, Heap, write, Filter, State, Custom, max_sinks, max_inputs, max_outputs, filt_t_ndef,
  filt_t_max,
}
pub mod Created
pub mod Single

-- `Core_filt_config_t` without the name; `timeout_us` is the bit pattern of a `long`.
pub record FilterConfig : Type 0 where
  pub filt_type : ℕ
  pub size : ℕ
  pub n_inputs : ℕ
  pub max_supported_sinks : ℕ
  pub buff_config : Config
  pub timeout_us : ℕ
  pub has_worker : Bool

-- For one input buffer: what `malloc` returns, and what bb_init is granted.
pub record Answer : Type 0 where
  pub pointer : BufRef
  pub granted : Alloc

-- After `memset(f, 0, sizeof(Filter_t))`; a cleared table is that of `prop_table_init`.
abbrev pub cleared : Filter
cleared = record {
  filt_type = filt_t_ndef;
  running = false;
  has_worker = false;
  worker_err = ok;
  n_batches = 0;
  samples_processed = 0;
  timeout_us = 0;
  max_supported_sinks = 0;
  n_input_buffers = 0;
  n_sinks = 0;
  data_width = 0;
  input_buffers = replicate max_inputs 0;
  sinks = replicate max_sinks 0;
  input_constraints = [];
  output_behaviors = [];
  output_properties = replicate max_outputs table_init;
  n_outputs = 0;
  input_properties = replicate max_inputs table_init;
  output_batch_samples = 0;
  size_detected = false;
}

pub held : BatchBuff → Option BatchBuff → BatchBuff
held b none = b
held b (some x) = x

-- bb_deinit of the buffers made so far.
pub release : List BufRef → Heap → Heap
release [] h = h
release (r ∷ rs) h = release rs (write h r zeroed)

-- `n` rounds of the loop that makes the input buffers; `made` are those of the rounds before. The
-- pointers stay when it fails.
pub make_buffers : Config → ℕ → List Answer → List BufRef → Heap → Ec × List BufRef × Heap
unfolding held release
make_buffers c zero answers made h = (ok, made, h)
make_buffers c (suc n) [] made h = (alloc, made, release made h)
make_buffers c (suc n) (a ∷ answers) made h =
    let r = a.pointer in
    let (e, b) = Setup.init (some (h r)) c a.granted in
    let h' = write h r (held (h r) b) in
    elim (r == 0) [
      | true ↦ (alloc, made, release made h)
      | false ↦ elim (is_ok e) [
        | true ↦ make_buffers c n answers (made ++ r ∷ []) h'
        | false ↦ (e, made ++ r ∷ [], release made h')
      ]
    ]

-- `NULL` in the slots after the first ones.
pub padded : ℕ → List BufRef → List BufRef
padded n [] = replicate n 0
padded zero (r ∷ rs) = []
padded (suc n) (r ∷ rs) = r ∷ padded n rs

-- The fields that are set before the buffers are made.
abbrev pub configured : FilterConfig → Filter
configured c = record cleared {
  timeout_us = c.timeout_us;
  filt_type = c.filt_type;
  max_supported_sinks = c.max_supported_sinks;
  n_input_buffers = c.n_inputs;
  has_worker = true;
}

-- What follows the loop.
pub complete : FilterConfig → Bool → Ec × List BufRef × Heap → Ec × State
unfolding padded release
complete c mutex (e, made, h) =
    let f = record (configured c) { input_buffers = padded max_inputs made } in
    if not (is_ok e)
    then (e, record { filter = f; heap = h })
    else if not mutex
    then (mutex_init_fail, record { filter = f; heap = release made h })
    else (
      ok,
      record {
        filter = record f {
          data_width = get_or data_size_lut c.buff_config.dtype 0;
          n_outputs = 1;
        };
        heap = h;
      },
    )

-- `filt_init` of a filter that is not NULL; `sizeof_filter` is `sizeof(Filter_t)`.
unfoldable pub init : ℕ → FilterConfig → List Answer → Bool → Heap → Ec × State
unfolding make_buffers complete
init sizeof_filter c answers mutex h =
    let timed = record cleared { timeout_us = c.timeout_us } in
    let typed = record timed { filt_type = c.filt_type } in
    let supported = record typed { max_supported_sinks = c.max_supported_sinks } in
    let counted = record supported { n_input_buffers = c.n_inputs } in
    if leb (2 ^ 63) c.timeout_us
    then (invalid_config_timeout, record { filter = cleared; heap = h })
    else if leb filt_t_max c.filt_type
    then (invalid_config_filter_t, record { filter = timed; heap = h })
    else if ltb c.size sizeof_filter
    then (invalid_config_filter_size, record { filter = typed; heap = h })
    else if ltb max_sinks c.max_supported_sinks
    then (invalid_config_max_sinks, record { filter = typed; heap = h })
    else if ltb max_inputs c.n_inputs
    then (invalid_config_max_inputs, record { filter = supported; heap = h })
    else if not c.has_worker
    then (invalid_config_worker, record { filter = counted; heap = h })
    else complete c mutex (make_buffers c.buff_config c.n_inputs answers [] h)

-- The loop of `filt_deinit` over the first `n` slots.
drop_buffers : ℕ → List BufRef → Heap → List BufRef × Heap
drop_buffers zero rs h = (rs, h)
drop_buffers (suc n) [] h = ([], h)
drop_buffers (suc n) (r ∷ rs) h =
    let (rs', h') = drop_buffers n rs (if r == 0 then h else write h r zeroed) in (0 ∷ rs', h')

-- `filt_deinit`
unfoldable pub deinit : Custom → State → Ec × State
unfolding drop_buffers
deinit custom s = if s.filter.filt_type == filt_t_ndef then (invalid_config, s) else elim custom [
  | some op ↦ op s
  | none ↦
      let (rs, h) = drop_buffers s.filter.n_input_buffers s.filter.input_buffers s.heap in
      (
        ok,
        record {
          filter = record s.filter { input_buffers = rs; filt_type = filt_t_ndef };
          heap = h;
        },
      )
]
