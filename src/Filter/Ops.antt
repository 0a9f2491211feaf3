-- ===== src/Filter/Ops.antt =====
-- bpipe/core.c: the operations of a filter beside its start, stop, end and connection, with their
-- defaults, and the functions that call them. Those that print a text are left out.
use bpipe.Base.{
  ℕ, zero, suc, ◌+◌, ◌-◌, ◌*◌, ◌^◌, ◌<◌, ◌≤◌, ◌≡◌, ap, ◌∙◌, inl, inr, Bool, false, Option, none,
  some, List, [], ◌∷◌, arith, leb, ◌==◌, if◌then◌else◌, Bool-cases, u64,
}
use bpipe.Err.{Ec, ok, null_filter, null_pointer, invalid_sink_idx, not_implemented, is_ok}
use bpipe.Ring.{BatchBuff, occupancy}
use bpipe.Buffer.Inv.{IsValid, occupancy_cases, occupancy-lt}
use bpipe.Filter.{BufRef, Heap, State}

pub data Health : Type 0 where
  healthy degraded failed unknown : Health

-- `Filt_metrics`
pub record Metrics : Type 0 where
  pub n_batches : ℕ
  pub samples_processed : ℕ

-- `FilterOps`. What get_stats writes is an option: nothing, where the target is NULL.
pub record FilterOps : Type 0 where
  pub flush_op : State → Ec × State
  pub drain_op : State → Ec × State
  pub reset_op : State → Ec × State
  pub get_stats_op : State → Bool → Ec × Option Metrics
  pub get_health_op : State → Health
  pub get_backlog_op : State → ℕ
  pub reconfigure_op : State → Ec × State
  pub validate_connection_op : State → ℕ → Ec
  pub handle_error_op : State → Ec → Ec × State
  pub recover_op : State → Ec × State

-- The loop of `default_get_backlog` over the first `n` input buffers, with what it has counted.
unfoldable pub count_backlog : ℕ → List BufRef → Heap → ℕ → ℕ
count_backlog zero rs h total = total
count_backlog (suc n) [] h total = total
count_backlog (suc n) (r ∷ rs) h total =
    count_backlog n rs h (if r == 0 then total else u64 (total + occupancy (h r)))

abbrev pub with_error : Ec → State → State
with_error e s = record s { filter = record s.filter { worker_err = e } }

unfoldable pub default_get_stats : State → Bool → Ec × Option Metrics
default_get_stats s has_target =
    if has_target
    then (
      ok,
      some (record {
        n_batches = s.filter.n_batches;
        samples_processed = s.filter.samples_processed;
      }),
    )
    else (null_pointer, none)

unfoldable pub default_get_health : State → Health
unfolding is_ok
default_get_health s = if is_ok s.filter.worker_err then healthy else failed

unfoldable pub default_validate_connection : State → ℕ → Ec
default_validate_connection s sink_idx =
    if leb s.filter.max_supported_sinks sink_idx then invalid_sink_idx else ok

unfoldable pub default_ops : FilterOps
unfolding count_backlog
default_ops = record {
  flush_op = λ s. (ok, s);
  drain_op = λ s. (ok, s);
  reset_op = λ s. (ok, s);
  get_stats_op = default_get_stats;
  get_health_op = default_get_health;
  get_backlog_op = λ s. count_backlog s.filter.n_input_buffers s.filter.input_buffers s.heap 0;
  reconfigure_op = λ s. (not_implemented, s);
  validate_connection_op = default_validate_connection;
  handle_error_op = λ s e. (ok, with_error e s);
  recover_op = λ s. (ok, with_error ok s);
}

-- The calls by which other components reach an operation; a filter that is NULL is `none`.
abbrev called : (State → Ec × State) → Option State → Ec × Option State
called op none = (null_filter, none)
called op (some s) = let (e, s') = op s in (e, some s')

module _ (ops : FilterOps) where
  unfoldable pub flush : Option State → Ec × Option State
  flush s = called ops.flush_op s

  unfoldable pub drain : Option State → Ec × Option State
  drain s = called ops.drain_op s

  unfoldable pub reset : Option State → Ec × Option State
  reset s = called ops.reset_op s

  unfoldable pub get_stats : Option State → Bool → Ec × Option Metrics
  get_stats none has_target = (null_filter, none)
  get_stats (some s) has_target = ops.get_stats_op s has_target

  unfoldable pub get_health : Option State → Health
  get_health none = unknown
  get_health (some s) = ops.get_health_op s

  unfoldable pub get_backlog : Option State → ℕ
  get_backlog none = 0
  get_backlog (some s) = ops.get_backlog_op s

  unfoldable pub reconfigure : Option State → Ec × Option State
  reconfigure s = called ops.reconfigure_op s

  unfoldable pub validate_connection : Option State → ℕ → Ec
  validate_connection none sink_idx = null_filter
  validate_connection (some s) sink_idx = ops.validate_connection_op s sink_idx

  unfoldable pub handle_error : Option State → Ec → Ec × Option State
  handle_error s e = called (λ t. ops.handle_error_op t e) s

  unfoldable pub recover : Option State → Ec × Option State
  recover s = called ops.recover_op s

-- How far the head of a ring is in front of its tail, round the end of the ring.
abbrev pub unread : BatchBuff → ℕ
unread b = if leb b.tail b.head then b.head - b.tail else b.head + 2 ^ b.ring_capacity_expo - b.tail

-- The sum over the first `n` input buffers that are not NULL.
abbrev pub unread_sum : ℕ → List BufRef → Heap → ℕ
unread_sum zero rs h = 0
unread_sum (suc n) [] h = 0
unread_sum (suc n) (r ∷ rs) h = (if r == 0 then 0 else unread (h r)) + unread_sum n rs h

-- The first `n` input buffers that are not NULL are valid rings.
abbrev pub AreValid : ℕ → List BufRef → Heap → Type 0
AreValid zero rs h = Unit
AreValid (suc n) [] h = Unit
AreValid (suc n) (r ∷ rs) h = ((r == 0) ≡ false → IsValid (h r)) × AreValid n rs h

occupancy-unread : {b : BatchBuff} → IsValid b → occupancy b ≡ unread b
occupancy-unread {b} v = ground (arith, occupancy_cases v)

count_backlog-unread :
    (n : ℕ) (rs : List BufRef) (h : Heap) (total : ℕ)
    → AreValid n rs h
    → total + n * 2 ^ 30 < 2 ^ 64
    → count_backlog n rs h total ≡ total + unread_sum n rs h
unfolding count_backlog
count_backlog-unread zero rs h total valid small = omega arith
count_backlog-unread (suc n) [] h total valid small = omega arith
count_backlog-unread (suc n) (r ∷ rs) h total (own, valid) small = elim (Bool-cases (r == 0)) [
  | inl y ↦
      rw (y, count_backlog)
        (count_backlog-unread n rs h total valid (omega arith)
          ∙ ap (λ (k : ℕ). total + k) {x = unread_sum n rs h} {y = 0 + unread_sum n rs h}
              (omega arith))
  | inr z ↦
      let v : IsValid (h r) = own z in
      let less = occupancy-lt v in
      let few = v.small in
      let word : u64 (total + occupancy (h r)) ≡ total + occupancy (h r) = omega arith in
      rw (z, count_backlog)
        (ap (count_backlog n rs h) word
          ∙ count_backlog-unread n rs h (total + occupancy (h r)) valid (omega arith)
          ∙ omega (arith, occupancy-unread v))
]

-- The backlog of a filter with the default operations and at most 2^30 input buffers is the sum of
-- how far, in each of them that is not NULL, the head is in front of the tail, where these are valid
-- rings.
pub get_backlog-unread :
    (s : State)
    → AreValid s.filter.n_input_buffers s.filter.input_buffers s.heap
    → s.filter.n_input_buffers ≤ 2 ^ 30
    → get_backlog default_ops (some s)
      ≡ unread_sum s.filter.n_input_buffers s.filter.input_buffers s.heap
unfolding get_backlog default_ops
get_backlog-unread s valid few =
    count_backlog-unread s.filter.n_input_buffers s.filter.input_buffers s.heap 0 valid
      (omega arith)
    ∙ omega arith
