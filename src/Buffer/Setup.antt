-- ===== src/Buffer/Setup.antt =====
-- bpipe/batch_buffer.c: setting a buffer up and down, starting and stopping it, and forcing a
-- waiting call to return, with the conditions that these calls signal. A pointer that may be NULL is an option; what the C library answers
-- enters as the record `Alloc`.
use bpipe.Base.{
  ℕ, ◌-◌, ◌^◌, Bool, true, false, not, ◌||◌, Option, none, some, List, [], ◌∷◌, map, ltb, leb, ◌==◌,
  if◌then◌else◌, replicate,
}
use bpipe.Err.{
  Ec, ok, null_filter, invalid_dtype, invalid_config, malloc_fail, mutex_init_fail, cond_init_fail,
}
use bpipe.Ring.{
  Batch, BatchBuff, Config, zeroed, zero_batch, n_batches, batch_size, dtype_ndef, dtype_max,
  overflow_max,
}
use bpipe.Buffer.{Wake}
pub mod Laws
pub mod Waiters

-- Which calls of `calloc`, `pthread_mutex_init` and `pthread_cond_init` succeed.
pub record Alloc : Type 0 where
  pub batch_ring : Bool
  pub data_ring : Bool
  pub mutex : Bool
  pub not_empty : Bool
  pub not_full : Bool

-- The fields that bb_init copies from the configuration, over a cleared structure.
abbrev pub configured : Config → BatchBuff
configured c = record zeroed {
  dtype = c.dtype;
  ring_capacity_expo = c.ring_capacity_expo;
  batch_capacity_expo = c.batch_capacity_expo;
  overflow_behaviour = c.overflow_behaviour;
}

-- A slot after the last loop of bb_init: -1 as a `long long`, and the slot's part of the zeroed
-- `data_ring`.
abbrev pub fresh_batch : BatchBuff → Batch
fresh_batch b = record zero_batch { t_ns = 2 ^ 64 - 1; samples = replicate (batch_size b) 0 }

abbrev pub opened : BatchBuff → BatchBuff
opened b = record b {
  data_ring = true;
  batch_ring = replicate (n_batches b) (fresh_batch b);
  running = true;
}

-- After a failed pthread call both rings are freed, but the pointers keep their values.
abbrev dangling : BatchBuff → BatchBuff
dangling b = record b { data_ring = true }

allocate : Alloc → BatchBuff → Ec × BatchBuff
allocate a b =
    if not a.batch_ring
    then (malloc_fail, b)
    else if not a.data_ring
    then (malloc_fail, b)
    else if not a.mutex
    then (mutex_init_fail, dangling b)
    else if not a.not_empty
    then (cond_init_fail, dangling b)
    else if not a.not_full
    then (cond_init_fail, dangling b)
    else (ok, opened b)

init_buffer : Config → Alloc → BatchBuff → Ec × BatchBuff
init_buffer c a b =
    if leb dtype_max c.dtype || c.dtype == dtype_ndef
    then (invalid_dtype, b)
    else if ltb 30 c.ring_capacity_expo || ltb 20 c.batch_capacity_expo
    then (invalid_config, b)
    else if ltb overflow_max c.overflow_behaviour
    then (invalid_config, b)
    else allocate a (configured c)

on_buffer : (BatchBuff → Ec × BatchBuff) → Option BatchBuff → Ec × Option BatchBuff
on_buffer f none = (null_filter, none)
on_buffer f (some b) = let (e, b') = f b in (e, some b')

unfoldable pub init : Option BatchBuff → Config → Alloc → Ec × Option BatchBuff
unfolding on_buffer init_buffer allocate
init b c a = on_buffer (init_buffer c a) b

unfoldable pub start : Option BatchBuff → Ec × Option BatchBuff
unfolding on_buffer
start b = on_buffer (λ b. (ok, record b { running = true })) b

-- A call of `pthread_cond_signal` or of `pthread_cond_broadcast`, by its condition.
pub data Signal : Type 0 where
  signal_not_empty signal_not_full broadcast_not_empty broadcast_not_full : Signal

-- What a call returns, what it leaves of the buffer, and the conditions that it signals then.
pub record Called : Type 0 where
  pub ec : Ec
  pub buffer : Option BatchBuff
  pub signals : List Signal

refused : Called
refused = record { ec = null_filter; buffer = none; signals = [] }

abbrev broadcast_both : List Signal
broadcast_both = broadcast_not_empty ∷ broadcast_not_full ∷ []

-- The threads that wait are woken and given a millisecond; the memory is freed and cleared.
unfoldable pub deinit : Option BatchBuff → Called
unfolding refused
deinit none = refused
deinit (some b) = record { ec = ok; buffer = some zeroed; signals = broadcast_both }

unfoldable pub stop : Option BatchBuff → Called
unfolding refused
stop none = refused
stop (some b) = record {
  ec = ok;
  buffer = some (record b { running = false });
  signals = broadcast_both;
}

abbrev pub forced_head : Ec → BatchBuff → BatchBuff
forced_head code b = record b { force_return_head_code = code; force_return_head = true }

abbrev pub forced_tail : Ec → BatchBuff → BatchBuff
forced_tail code b = record b { force_return_tail_code = code; force_return_tail = true }

unfoldable pub force_return_head : Option BatchBuff → Ec → Called
unfolding refused
force_return_head none code = refused
force_return_head (some b) code = record {
  ec = ok;
  buffer = some (forced_head code b);
  signals = signal_not_full ∷ [];
}

unfoldable pub force_return_tail : Option BatchBuff → Ec → Called
unfolding refused
force_return_tail none code = refused
force_return_tail (some b) code = record {
  ec = ok;
  buffer = some (forced_tail code b);
  signals = signal_not_empty ∷ [];
}

-- A signal reaches the one thread that waits on its condition, as a broadcast does: the producer
-- waits on `not_full`, the consumer on `not_empty`.
abbrev pub reaches_producer : List Signal → Bool
reaches_producer [] = false
reaches_producer (signal_not_full ∷ ss) = true
reaches_producer (broadcast_not_full ∷ ss) = true
reaches_producer (_ ∷ ss) = reaches_producer ss

abbrev pub reaches_consumer : List Signal → Bool
reaches_consumer [] = false
reaches_consumer (signal_not_empty ∷ ss) = true
reaches_consumer (broadcast_not_empty ∷ ss) = true
reaches_consumer (_ ∷ ss) = reaches_consumer ss

-- The return of a wait that a call brings about: there is none, unless the call signals it.
abbrev pub woken_by : (List Signal → Bool) → Called → List Wake
woken_by reaches c = elim c.buffer [
  | none ↦ []
  | some b ↦ if reaches c.signals then record { ret = 0; others = λ _. b } ∷ [] else []
]
