-- ===== src/Ring.antt =====
-- bpipe/batch_buffer.h: a batch, the ring of batches between two filters, and its index arithmetic.
use bpipe.Base.{ℕ, ◌+◌, ◌-◌, ◌%◌, ◌^◌, Bool, false, List, [], ◌∷◌, ◌==◌, get_or, set, u64}
use bpipe.Err.{Ec, ok}

-- `SampleDtype_t` and `OverflowBehaviour_t` are C enums that the code compares as numbers, values
-- out of their range included.
abbrev pub dtype_ndef : ℕ
dtype_ndef = 0

abbrev pub dtype_max : ℕ
dtype_max = 4

abbrev pub overflow_block : ℕ
overflow_block = 0

abbrev pub overflow_drop_head : ℕ
overflow_drop_head = 1

abbrev pub overflow_drop_tail : ℕ
overflow_drop_tail = 2

abbrev pub overflow_max : ℕ
overflow_max = 3

-- `_data_size_lut`: bytes of a sample of type NDEF, FLOAT, I32, U32.
abbrev pub data_size_lut : List ℕ
data_size_lut = 0 ∷ 4 ∷ 4 ∷ 4 ∷ []

pub record Config : Type 0 where
  pub dtype : ℕ
  pub batch_capacity_expo : ℕ
  pub ring_capacity_expo : ℕ
  pub overflow_behaviour : ℕ

-- `Batch_t`. `t_ns` is the bit pattern of a `long long`; `samples` is what `data` points to, a
-- number for the bits of each sample; `meta`, which nothing reads, is left out.
pub record Batch : Type 0 where
  pub head : ℕ
  pub t_ns : ℕ
  pub period_ns : ℕ
  pub batch_id : ℕ
  pub ec : Ec
  pub samples : List ℕ

-- A batch of `calloc`, all zero (`Bp_EC_OK` is 0).
abbrev pub zero_batch : Batch
zero_batch = record { head = 0; t_ns = 0; period_ns = 0; batch_id = 0; ec = ok; samples = [] }

-- `Batch_buff_t`. The empty list is the null `batch_ring`, and `data_ring` says whether that
-- pointer is set. The name, the time spent blocked (never counted) and the mutex and conditions
-- are left out.
pub record BatchBuff : Type 0 where
  pub dtype : ℕ
  pub data_ring : Bool
  pub batch_ring : List Batch
  pub head : ℕ
  pub total_batches : ℕ
  pub dropped_batches : ℕ
  pub tail : ℕ
  pub dropped_by_producer : ℕ
  pub ring_capacity_expo : ℕ
  pub batch_capacity_expo : ℕ
  pub running : Bool
  pub force_return_head : Bool
  pub force_return_tail : Bool
  pub force_return_head_code : Ec
  pub force_return_tail_code : Ec
  pub overflow_behaviour : ℕ

-- After `memset(buff, 0, sizeof(Batch_buff_t))`.
abbrev pub zeroed : BatchBuff
zeroed = record {
  dtype = 0;
  data_ring = false;
  batch_ring = [];
  head = 0;
  total_batches = 0;
  dropped_batches = 0;
  tail = 0;
  dropped_by_producer = 0;
  ring_capacity_expo = 0;
  batch_capacity_expo = 0;
  running = false;
  force_return_head = false;
  force_return_tail = false;
  force_return_head_code = ok;
  force_return_tail_code = ok;
  overflow_behaviour = 0;
}

abbrev pub n_batches : BatchBuff → ℕ
n_batches b = 2 ^ b.ring_capacity_expo

abbrev pub batch_size : BatchBuff → ℕ
batch_size b = 2 ^ b.batch_capacity_expo

-- `& bb_modulo_mask(buff)`: the mask has the low `ring_capacity_expo` bits.
abbrev pub masked : BatchBuff → ℕ → ℕ
masked b i = i % n_batches b

abbrev pub get_tail_idx : BatchBuff → ℕ
get_tail_idx b = masked b b.tail

abbrev pub get_head_idx : BatchBuff → ℕ
get_head_idx b = masked b b.head

unfoldable pub is_empty : BatchBuff → Bool
is_empty b = b.head == b.tail

unfoldable pub is_full : BatchBuff → Bool
is_full b = masked b (b.head + 1) == b.tail

-- `size_t` differences: the modulus is added before a subtraction.
unfoldable pub space : BatchBuff → ℕ
space b = masked b (u64 (b.tail + n_batches b + 2 ^ 64 - b.head - 1))

unfoldable pub occupancy : BatchBuff → ℕ
occupancy b = masked b (u64 (b.head + n_batches b + 2 ^ 64 - b.tail))

-- `bb_get_head` returns a pointer into the ring: this is what it points to, and `put_head` what a
-- filter makes of the buffer when it has filled that batch in.
unfoldable pub get_head : BatchBuff → Batch
get_head b = get_or b.batch_ring (get_head_idx b) zero_batch

unfoldable pub put_head : BatchBuff → Batch → BatchBuff
put_head b x = record b { batch_ring = set b.batch_ring (get_head_idx b) x }
