-- ===== src/Buffer/Submit.antt =====
-- bb_submit and bb_get_tail of bpipe/batch_buffer.c as long as no other thread acts, against the
-- bounded queue.
use bpipe.Base.{
  ℕ, ◌+◌, ◌-◌, ◌≡◌, refl, sym, ap, ap₂, ◌∙◌, true, false, inl, inr, Option, none, some, List, [],
  ◌∷◌, ◌++◌, arith, length, Bool-cases, ltb, ◌==◌, u64,
}
use bpipe.Err.{Ec, ok}
use bpipe.Ring.{
  Batch, BatchBuff, n_batches, masked, is_full, is_empty, occupancy, get_head, overflow_drop_head,
  overflow_drop_tail,
}
use bpipe.Buffer.{Outcome, waiting, returned, publish, drop_oldest, submit}
use bpipe.Buffer.Inv.{IsValid, occupancy-lt, full_iff, empty_iff}
use bpipe.Buffer.Refine.{
  contents, length-contents, advanced, advanced-IsValid, occupancy-advanced, contents-advanced,
  publish-IsValid, contents-publish,
}
use bpipe.Buffer.Segment.{segment}
use bpipe.Buffer.Queue.{rest, enqueue}

-- The buffer is started, and nobody has forced a waiting call to return.
pub record IsOpen (b : BatchBuff) : Type 0 where
  pub started : b.running ≡ true
  pub no_head_force : b.force_return_head ≡ false
  pub no_tail_force : b.force_return_tail ≡ false

-- `b'` is configured as `b` is.
pub record SameConfig (b b' : BatchBuff) : Type 0 where
  pub same_ring : b'.ring_capacity_expo ≡ b.ring_capacity_expo
  pub same_policy : b'.overflow_behaviour ≡ b.overflow_behaviour

submit-not_full :
    (t : ℕ) (b : BatchBuff)
    → is_full b ≡ false
    → submit t [] b ≡ returned (publish (masked b (b.head + 1)) b)
unfolding submit is_full
submit-not_full t b h = ground arith

submit-drop_head :
    (t : ℕ) (b : BatchBuff)
    → is_full b ≡ true
    → (b.overflow_behaviour == overflow_drop_head) ≡ true
    → submit t [] b ≡ returned (ok, record b { dropped_batches = u64 (b.dropped_batches + 1) })
unfolding submit is_full
submit-drop_head t b h d = ground arith

submit-drop_tail :
    (t : ℕ) (b : BatchBuff)
    → is_full b ≡ true
    → (b.overflow_behaviour == overflow_drop_head) ≡ false
    → (b.overflow_behaviour == overflow_drop_tail) ≡ true
    → submit t [] b ≡ returned (publish (masked b (b.head + 1)) (drop_oldest b))
unfolding submit is_full
submit-drop_tail t b h n d = ground arith

pub submit-block :
    (t : ℕ) (b : BatchBuff)
    → is_full b ≡ true
    → (b.overflow_behaviour == overflow_drop_head) ≡ false
    → (b.overflow_behaviour == overflow_drop_tail) ≡ false
    → IsOpen b
    → submit t [] b ≡ waiting
unfolding submit is_full
submit-block t b h n d o = ground arith

-- What the queue allows and the call gives fit together: a call that returns succeeds, and leaves
-- a buffer that holds the new queue.
abbrev pub Holds : BatchBuff → Outcome (Ec × BatchBuff) → Option (List Batch) → Type 0
Holds b waiting none = Unit
Holds b (returned (e, b')) (some q) =
    (e ≡ ok) × (contents b' ≡ q) × IsValid b' × IsOpen b' × SameConfig b b'
Holds b _ _ = ⊥

pub contents-nil : (b : BatchBuff) → occupancy b ≡ 0 → contents b ≡ []
contents-nil b e = ap (segment b.batch_ring (n_batches b) b.tail) e

-- A full buffer after drop_oldest.
abbrev dropped : BatchBuff → BatchBuff
dropped b = record b {
  tail = masked b (b.tail + 1);
  dropped_by_producer = u64 (b.dropped_by_producer + 1);
}

drop_oldest-full : (b : BatchBuff) → is_full b ≡ true → drop_oldest b ≡ dropped b
unfolding drop_oldest
drop_oldest-full b h = rw h

module _ {b : BatchBuff} (v : IsValid b) (o : IsOpen b) where
  abbrev room : ℕ
  room = n_batches b - 1

  enqueue-room :
      is_full b ≡ false
      → enqueue room b.overflow_behaviour (contents b) (get_head b)
        ≡ some (contents b ++ get_head b ∷ [])
  unfolding enqueue
  enqueue-room h = ground (arith, length-contents b, full_iff v, occupancy-lt v)

  no_room : is_full b ≡ true → ltb (length (contents b)) room ≡ false
  no_room h = ground (arith, length-contents b, full_iff v)

  Holds-drop_head :
      Holds b
        (returned (ok, record b { dropped_batches = u64 (b.dropped_batches + 1) }))
        (some (contents b))
  unfolding occupancy
  Holds-drop_head = (
    refl,
    refl,
    ground (arith, v),
    ground (arith, o),
    record { same_ring = refl; same_policy = refl },
  )

  Holds-published :
      is_full b ≡ false
      → Holds b
          (returned (publish (masked b (b.head + 1)) b))
          (some (contents b ++ get_head b ∷ []))
  unfolding publish
  Holds-published h = (
    refl,
    contents-publish v h,
    publish-IsValid v,
    record {
      started = o.started;
      no_head_force = o.no_head_force;
      no_tail_force = o.no_tail_force;
    },
    record { same_ring = refl; same_policy = refl },
  )

  dropped-IsValid : IsValid (dropped b)
  dropped-IsValid = ground (arith, advanced-IsValid v)

  contents-dropped : contents (dropped b) ≡ contents (advanced b)
  unfolding occupancy
  contents-dropped = refl

  dropped-not_full : is_full b ≡ true → is_empty b ≡ false → is_full (dropped b) ≡ false
  dropped-not_full h ne = ground (
    arith,
    full_iff v,
    full_iff dropped-IsValid,
    occupancy-advanced v ne,
    length-contents (dropped b),
    length-contents (advanced b),
    ap length contents-dropped,
  )

  get_head-dropped : get_head (dropped b) ≡ get_head b
  unfolding get_head
  get_head-dropped = refl

  -- A ring that is full and empty has one slot, and never holds an unread batch.
  one_slot :
      is_full b ≡ true
      → is_empty b ≡ true
      → occupancy (publish (masked b (b.head + 1)) (dropped b)).1 ≡ 0
  unfolding publish
  one_slot h e =
      omega
        (arith, (full_iff v).0 h, (empty_iff v).0 e, occupancy-lt (publish-IsValid dropped-IsValid))

  -- Under `OVERFLOW_DROP_TAIL` the queue of the buffer after the new batch has been put in.
  contents-drop_tail :
      is_full b ≡ true
      → contents (publish (masked b (b.head + 1)) (drop_oldest b)).1
        ≡ rest (contents b ++ get_head b ∷ [])
  contents-drop_tail h = rw (drop_oldest-full b h) (elim (Bool-cases (is_empty b)) [
    | inl e ↦
        contents-nil (publish (masked b (b.head + 1)) (dropped b)).1 (one_slot h e)
        ∙ sym (
            ap (λ (q : List Batch). rest (q ++ get_head b ∷ []))
              (contents-nil b ((empty_iff v).0 e)))
    | inr ne ↦
        contents-publish dropped-IsValid (dropped-not_full h ne)
        ∙ ap₂ (λ (q : List Batch) x. q ++ x ∷ []) contents-dropped get_head-dropped
        ∙ sym (ap (λ (q : List Batch). rest (q ++ get_head b ∷ [])) (contents-advanced v ne))
  ])

  Holds-drop_tail :
      is_full b ≡ true
      → Holds b
          (returned (publish (masked b (b.head + 1)) (drop_oldest b)))
          (some (rest (contents b ++ get_head b ∷ [])))
  unfolding publish
  Holds-drop_tail h = (
    refl,
    contents-drop_tail h,
    rw (drop_oldest-full b h) (publish-IsValid dropped-IsValid),
    rw (drop_oldest-full b h) (ground (arith, o)),
    rw (drop_oldest-full b h) (record { same_ring = refl; same_policy = refl }),
  )

  -- A submit does to the unread batches what the queue of one batch less than the ring does under
  -- the configured overflow behaviour; it waits exactly where the queue has no room.
  pub submit_refines :
      (t : ℕ)
      → Holds b
          (submit t [] b)
          (enqueue (n_batches b - 1) b.overflow_behaviour (contents b) (get_head b))
  unfolding enqueue
  submit_refines t = elim (Bool-cases (is_full b)) [
    | inr nf ↦ rw (submit-not_full t b nf, enqueue-room nf) (Holds-published nf)
    | inl h ↦ elim (Bool-cases (b.overflow_behaviour == overflow_drop_head)) [
      | inl d ↦ rw (submit-drop_head t b h d, no_room h, d) Holds-drop_head
      | inr n ↦ elim (Bool-cases (b.overflow_behaviour == overflow_drop_tail)) [
        | inl d ↦ rw (submit-drop_tail t b h n d, no_room h, n, d) (Holds-drop_tail h)
        | inr d ↦ rw (submit-block t b h n d o, no_room h, n, d) tt
      ]
    ]
  ]
