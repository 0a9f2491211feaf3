-- ===== src/Buffer/Refine.antt =====
-- The unread batches of a ring as a list, and what the operations of bpipe/batch_buffer.c do to it.
use native.Mathlib.Nat.{mod-eq_of_lt, mod-mod, add-mod_right}
use bpipe.Base.{
  ℕ, suc, ◌+◌, ◌%◌, ◌≡◌, sym, ap, ◌∙◌, true, false, inl, inr, List, [], ◌∷◌, ◌++◌, arith, length,
  get_or, length-set, get_or-set_self,
}
use bpipe.Err.{ok, buffer_empty}
use bpipe.Ring.{
  Batch, BatchBuff, zero_batch, n_batches, masked, is_full, is_empty, occupancy, get_head,
  get_head_idx, get_tail_idx, put_head,
}
use bpipe.Buffer.{publish, del_tail}
use bpipe.Buffer.Inv.{IsValid, masked-lt, next_cases, occupancy_cases, occupancy-lt}
use bpipe.Buffer.Segment.{segment, segment-mod, segment-snoc, length-segment, segment-set, slots-ne}

-- The batches that were submitted and not yet deleted, oldest first.
abbrev pub contents : BatchBuff → List Batch
contents b = segment b.batch_ring (n_batches b) b.tail (occupancy b)

pub length-contents : (b : BatchBuff) → length (contents b) ≡ occupancy b
length-contents b = length-segment b.batch_ring (n_batches b) b.tail (occupancy b)

-- The head index is reached from the tail over the unread batches.
head-eq : {b : BatchBuff} → IsValid b → (b.tail + occupancy b) % n_batches b ≡ b.head
head-eq {b} v = elim (occupancy_cases v) [
  | inl (p, e) ↦ rw e (mod-eq_of_lt v.head_in)
  | inr (p, e) ↦ rw (e, add-mod_right) (mod-eq_of_lt v.head_in)
]

-- Filling the head batch in changes no unread batch.
pub contents-put_head :
    {b : BatchBuff} (x : Batch) → IsValid b → contents (put_head b x) ≡ contents b
unfolding put_head occupancy
contents-put_head {b} x v =
    segment-set b.batch_ring (n_batches b) (get_head_idx b) x b.tail (occupancy b) (λ m h e.
      slots-ne (n_batches b) b.tail m (occupancy b) v.tail_in h (occupancy-lt v)
        (head-eq v ∙ sym (mod-eq_of_lt v.head_in) ∙ e))

pub put_head-IsValid : {b : BatchBuff} (x : Batch) → IsValid b → IsValid (put_head b x)
unfolding put_head
put_head-IsValid {b} x v = ground (arith, length-set b.batch_ring (get_head_idx b) x)

pub get_head-put_head : {b : BatchBuff} (x : Batch) → IsValid b → get_head (put_head b x) ≡ x
unfolding put_head get_head
get_head-put_head {b} x v =
    get_or-set_self b.batch_ring (get_head_idx b) x zero_batch (omega (arith, masked-lt b.head v))

pub publish-IsValid : {b : BatchBuff} → IsValid b → IsValid (publish (masked b (b.head + 1)) b).1
unfolding publish
publish-IsValid {b} v = ground (arith, masked-lt (b.head + 1) v)

abbrev pub published : BatchBuff → BatchBuff
published b = (publish (masked b (b.head + 1)) b).1

pub occupancy-publish :
    {b : BatchBuff} → IsValid b → is_full b ≡ false → occupancy (published b) ≡ suc (occupancy b)
unfolding publish is_full
occupancy-publish {b} v nf = ground (
  arith,
  occupancy_cases v,
  occupancy_cases (publish-IsValid v),
  next_cases (n_batches b) b.head v.head_in,
)

-- On a ring that is not full, the head batch joins the unread ones at the end.
pub contents-publish :
    {b : BatchBuff}
    → IsValid b
    → is_full b ≡ false
    → contents (publish (masked b (b.head + 1)) b).1 ≡ contents b ++ get_head b ∷ []
unfolding publish get_head
contents-publish {b} v nf =
    ap (segment b.batch_ring (n_batches b) b.tail) (occupancy-publish v nf)
    ∙ segment-snoc b.batch_ring (n_batches b) b.tail (occupancy b)
    ∙ ap (λ (s : ℕ). contents b ++ get_or b.batch_ring s zero_batch ∷ [])
        (head-eq v ∙ sym (mod-eq_of_lt v.head_in))

pub del_tail-IsValid : {b : BatchBuff} → IsValid b → IsValid (del_tail b).1
unfolding del_tail
del_tail-IsValid {b} v = ground (arith, masked-lt (b.tail + 1) v)

pub del_tail-empty : (b : BatchBuff) → is_empty b ≡ true → del_tail b ≡ (buffer_empty, b)
unfolding del_tail is_empty
del_tail-empty b h = ground arith

-- The tail moved on by one slot, as del_tail and drop_oldest do it.
abbrev pub advanced : BatchBuff → BatchBuff
advanced b = record b { tail = masked b (b.tail + 1) }

pub del_tail-ok : (b : BatchBuff) → is_empty b ≡ false → del_tail b ≡ (ok, advanced b)
unfolding del_tail is_empty
del_tail-ok b h = ground arith

pub advanced-IsValid : {b : BatchBuff} → IsValid b → IsValid (advanced b)
advanced-IsValid {b} v = ground (arith, masked-lt (b.tail + 1) v)

pub occupancy-advanced :
    {b : BatchBuff} → IsValid b → is_empty b ≡ false → occupancy b ≡ suc (occupancy (advanced b))
unfolding is_empty
occupancy-advanced {b} v ne = ground (
  arith,
  occupancy_cases v,
  occupancy_cases (advanced-IsValid v),
  next_cases (n_batches b) b.tail v.tail_in,
)

-- A ring that is not empty loses its oldest unread batch, the one in the slot at the tail.
pub contents-advanced :
    {b : BatchBuff}
    → IsValid b
    → is_empty b ≡ false
    → contents b ≡ get_or b.batch_ring (get_tail_idx b) zero_batch ∷ contents (advanced b)
contents-advanced {b} v ne =
    ap (segment b.batch_ring (n_batches b) b.tail) (occupancy-advanced v ne)
    ∙ ap (◌∷◌ (get_or b.batch_ring (get_tail_idx b) zero_batch)) (
        segment-mod b.batch_ring (n_batches b) (b.tail + 1) (masked b (b.tail + 1))
          (occupancy (advanced b)) (sym (mod-mod (b.tail + 1) (n_batches b))))
