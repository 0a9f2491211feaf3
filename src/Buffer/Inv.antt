-- ===== src/Buffer/Inv.antt =====
-- The representation invariant of `Batch_buff_t`, and the numbers that bb_occupancy and bb_space
-- give under it.
use native.Mathlib.Nat.{mod-lt, mod-eq_of_lt, mod-eq-sub-mod, mod_self}
use native.Mathlib.Decide.{dec_lt, dec_le}
use bpipe.Base.{
  ℕ, suc, ◌+◌, ◌-◌, ◌%◌, ◌^◌, ◌≤◌, ◌<◌, ◌≡◌, ◌∙◌, ◌↔◌, ◌⊎◌, inl, inr, true, arith, length, u64,
}
use bpipe.Ring.{BatchBuff, n_batches, masked, is_empty, is_full, occupancy, space}

-- Both indices lie in the ring, which has a power of two of slots, at most 2^30 as bb_init checks.
pub record IsValid (b : BatchBuff) : Type 0 where
  pub slots : length b.batch_ring ≡ n_batches b
  pub small : n_batches b ≤ 2 ^ 30
  pub some_slot : 0 < n_batches b
  pub head_in : b.head < n_batches b
  pub tail_in : b.tail < n_batches b

pub masked-lt : {b : BatchBuff} (i : ℕ) → IsValid b → masked b i < n_batches b
masked-lt i v = mod-lt i v.some_slot

-- The next index goes round at the end of the ring.
pub next_cases :
    (n i : ℕ) → i < n → ((suc i < n) × ((i + 1) % n ≡ i + 1)) ⊎ ((suc i ≡ n) × ((i + 1) % n ≡ 0))
next_cases n i h = elim (dec_lt (i + 1) n) [
  | yes p ↦ inl (omega arith, mod-eq_of_lt p)
  | no p ↦ let e : i + 1 ≡ n = omega arith in inr (omega arith, wrap e)
]
  where
    wrap : i + 1 ≡ n → (i + 1) % n ≡ 0
    wrap e = ground (arith, mod_self n)

-- A `size_t` difference that does not go below zero.
pub u64-sub : (x t : ℕ) → t ≤ x → x < 2 ^ 64 → u64 (x + 2 ^ 64 - t) ≡ x - t
u64-sub x t h k = omega arith

mod-sub_self : (n x : ℕ) → n ≤ x → x < n + n → x % n ≡ x - n
mod-sub_self n x h k =
    mod-eq-sub-mod {n = x} {m = n} h ∙ mod-eq_of_lt {n = x - n} {m = n} (omega arith)

-- What bb_occupancy computes, without its modulus.
pub occupancy_cases :
    {b : BatchBuff}
    → IsValid b
    → ((b.tail ≤ b.head) × (b.tail + occupancy b ≡ b.head))
      ⊎ ((b.head < b.tail) × (b.tail + occupancy b ≡ b.head + n_batches b))
unfolding occupancy
occupancy_cases {b} v =
    rw (u64-sub (b.head + n_batches b) b.tail (omega arith) (omega arith))
      (elim (dec_le b.tail b.head) [
        | yes p ↦ inl (
          p,
          omega (
            arith,
            mod-sub_self (n_batches b) (b.head + n_batches b - b.tail) (omega arith) (omega arith),
          ),
        )
        | no p ↦ inr (
          omega arith,
          omega (
            arith,
            mod-eq_of_lt {n = b.head + n_batches b - b.tail} {m = n_batches b} (omega arith),
          ),
        )
      ])

pub occupancy-lt : {b : BatchBuff} → IsValid b → occupancy b < n_batches b
unfolding occupancy
occupancy-lt v = mod-lt _ v.some_slot

-- The ring counts as full when all its slots but one hold unread batches.
pub full_iff : {b : BatchBuff} → IsValid b → (is_full b ≡ true) ↔ (occupancy b + 1 ≡ n_batches b)
unfolding is_full
full_iff {b} v = ground (arith, occupancy_cases v, next_cases (n_batches b) b.head v.head_in)

pub empty_iff : {b : BatchBuff} → IsValid b → (is_empty b ≡ true) ↔ (occupancy b ≡ 0)
unfolding is_empty
empty_iff {b} v = ground (arith, occupancy_cases v)

-- bb_space and bb_occupancy add up to one slot less than the ring has.
pub space-add-occupancy : {b : BatchBuff} → IsValid b → space b + occupancy b + 1 ≡ n_batches b
unfolding space
space-add-occupancy {b} v =
    let n : ℕ = n_batches b in
    let x : ℕ = b.tail + n - (b.head + 1) in
    let e : u64 (b.tail + n + 2 ^ 64 - b.head - 1) ≡ x = omega arith in
    rw e (elim (dec_le b.tail b.head) [
      | yes p ↦ omega (arith, mod-eq_of_lt {n = x} {m = n} (omega arith), occupancy_cases v)
      | no p ↦ omega (arith, mod-sub_self n x (omega arith) (omega arith), occupancy_cases v)
    ])
