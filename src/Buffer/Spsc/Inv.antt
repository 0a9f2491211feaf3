-- ===== src/Buffer/Spsc/Inv.antt =====
-- What holds between the accesses of the two threads of bpipe/batch_buffer.c, and that the
-- producer's accesses keep it.
use mathlib.Core.List.{append_assoc}
use bpipe.Base.{
  ℕ, ◌+◌, ◌≡◌, ◌⊎◌, refl, sym, ap, ◌∙◌, inl, inr, true, false, List, [], ◌∷◌, ◌++◌, ◌==◌, arith,
  Bool-cases, subst, u64,
}
use bpipe.Err.{Ec, is_ok, stopped}
use bpipe.Ring.{
  Batch, BatchBuff, masked, is_empty, is_full, get_head, put_head, get_tail_idx, overflow_drop_head,
  overflow_drop_tail, occupancy,
}
use bpipe.Buffer.{publish, leave_head, blocked_head}
use bpipe.Buffer.Inv.{IsValid, empty_iff}
use bpipe.Buffer.Refine.{
  contents, contents-put_head, put_head-IsValid, publish-IsValid, contents-publish,
  occupancy-publish,
}
use bpipe.Buffer.Spsc.{
  Producer, idle, loaded, awaiting, ready, Consumer, free, holding, deleting, System, decided,
  published, resumed,
}

abbrev pub ProducerOk : Producer → BatchBuff → Type 0
ProducerOk idle b = Unit
ProducerOk (loaded next tail) b =
    (next ≡ masked b (b.head + 1)) × (((next == tail) ≡ true) ⊎ (is_full b ≡ false))
ProducerOk (awaiting next) b = next ≡ masked b (b.head + 1)
ProducerOk (ready next) b = (next ≡ masked b (b.head + 1)) × (is_full b ≡ false)

abbrev pub ConsumerOk : Consumer → BatchBuff → Type 0
ConsumerOk free b = Unit
ConsumerOk (holding idx) b = (idx ≡ get_tail_idx b) × (is_empty b ≡ false)
ConsumerOk (deleting tail) b = (tail ≡ b.tail) × (is_empty b ≡ false)

-- The buffer's part: it does not drop its oldest batch, and nobody forces a wait to succeed.
pub record Sound (sent taken : List Batch) (b : BatchBuff) : Type 0 where
  pub valid : IsValid b
  pub keeps : (b.overflow_behaviour == overflow_drop_tail) ≡ false
  pub unforced : (b.force_return_head ≡ false) ⊎ (is_ok b.force_return_head_code ≡ false)
  pub fifo : taken ++ contents b ≡ sent

pub record Good (s : System) : Type 0 where
  pub sound : Sound s.sent s.taken s.buffer
  pub producing : ProducerOk s.producer s.buffer
  pub consuming : ConsumerOk s.consumer s.buffer

abbrev pub sys : Producer → Consumer → BatchBuff → List Batch → List Batch → System
sys p c b sent taken = record { producer = p; consumer = c; buffer = b; sent = sent; taken = taken }

module _ (c : Consumer) (b : BatchBuff) (sent taken : List Batch) (sound : Sound sent taken b) where
  pub Sound-put_head : (x : Batch) → Sound sent taken (put_head b x)
  unfolding put_head
  Sound-put_head x = record {
    valid = put_head-IsValid x sound.valid;
    keeps = sound.keeps;
    unforced = sound.unforced;
    fifo = ap (λ l. taken ++ l) (contents-put_head x sound.valid) ∙ sound.fifo;
  }

  pub ConsumerOk-put_head :
      (x : Batch) (d : Consumer) → ConsumerOk d b → ConsumerOk d (put_head b x)
  unfolding put_head is_empty
  ConsumerOk-put_head x free o = tt
  ConsumerOk-put_head x (holding i) o = o
  ConsumerOk-put_head x (deleting t) o = o

  abbrev new : BatchBuff
  new = (publish (masked b (b.head + 1)) b).1

  Sound-published : is_full b ≡ false → Sound (sent ++ get_head b ∷ []) taken new
  unfolding publish
  Sound-published room = record {
    valid = publish-IsValid sound.valid;
    keeps = sound.keeps;
    unforced = sound.unforced;
    fifo =
        ap (λ l. taken ++ l) (contents-publish sound.valid room)
        ∙ sym (append_assoc taken (contents b) (get_head b ∷ []))
        ∙ ap (λ l. l ++ get_head b ∷ []) sound.fifo;
  }

  published-not_empty : is_full b ≡ false → is_empty new ≡ false
  published-not_empty room = elim (Bool-cases (is_empty new)) [
    | inr n ↦ n
    | inl y ↦ absurd (
        omega (
          arith,
          (empty_iff (publish-IsValid sound.valid)).0 y,
          occupancy-publish sound.valid room,
        ))
  ]

  ConsumerOk-published : is_full b ≡ false → (d : Consumer) → ConsumerOk d b → ConsumerOk d new
  unfolding publish
  ConsumerOk-published room free o = tt
  ConsumerOk-published room (holding i) (e, n) = (e, published-not_empty room)
  ConsumerOk-published room (deleting t) (e, n) = (e, published-not_empty room)

  pub Good-published :
      (p : Producer) (next : ℕ)
      → next ≡ masked b (b.head + 1)
      → is_full b ≡ false
      → ConsumerOk c b
      → Good (published next (sys p c b sent taken))
  Good-published p next e room o = rw e (record {
    sound = Sound-published room;
    producing = tt;
    consuming = ConsumerOk-published room c o;
  })

  -- The end of a wait that a call with the force flag, the end of the buffer or the time limit
  -- cuts short, and of one that has found room.
  lowered : BatchBuff
  lowered = record b { force_return_head = false }

  Good-lowered : ConsumerOk c b → Good (sys idle c lowered sent taken)
  unfolding lowered is_empty occupancy
  Good-lowered o = record {
    sound = record {
      valid = ground (arith, sound.valid);
      keeps = sound.keeps;
      unforced = inl refl;
      fifo = sound.fifo;
    };
    producing = tt;
    consuming = same c o;
  }
    where
      same : (d : Consumer) → ConsumerOk d b → ConsumerOk d (record b { force_return_head = false })
      same free o = tt
      same (holding i) o = o
      same (deleting t) o = o

  leave-forced :
      (e : Ec)
      → b.force_return_head ≡ true
      → is_ok b.force_return_head_code ≡ false
      → leave_head (e, b) ≡ (b.force_return_head_code, lowered)
  unfolding leave_head lowered
  leave-forced e f bad = simp (f, bad)

  leave-stopped :
      (e : Ec)
      → b.force_return_head ≡ false
      → is_ok e ≡ true
      → b.running ≡ false
      → leave_head (e, b) ≡ (stopped, b)
  unfolding leave_head
  leave-stopped e f y r = simp (f, y, r)

  leave-room :
      (e : Ec)
      → b.force_return_head ≡ false
      → is_ok e ≡ true
      → b.running ≡ true
      → leave_head (e, b) ≡ (e, b)
  unfolding leave_head
  leave-room e f y r = simp (f, y, r)

  leave-error :
      (e : Ec) → b.force_return_head ≡ false → is_ok e ≡ false → leave_head (e, b) ≡ (e, b)
  unfolding leave_head
  leave-error e f n = simp (f, n)

  -- A waiting call leaves its wait by the test of the loop, or with an error.
  pub Good-resumed :
      (e : Ec) (next : ℕ) (p : Producer)
      → next ≡ masked b (b.head + 1)
      → (is_ok e ≡ false) ⊎ (blocked_head b ≡ false)
      → ConsumerOk c b
      → Good (resumed next (leave_head (e, b)) (sys p c b sent taken))
  unfolding is_full is_ok
  Good-resumed e next p same reason o = elim (Bool-cases b.force_return_head) [
    | inl f ↦
        let bad : is_ok b.force_return_head_code ≡ false = ground arith in
        subst (λ r. Good (resumed next r (sys p c b sent taken))) (sym (leave-forced e f bad))
          (simp bad (Good-lowered o))
    | inr f ↦ elim (Bool-cases (is_ok e)) [
      | inr n ↦
          subst (λ r. Good (resumed next r (sys p c b sent taken))) (sym (leave-error e f n))
            (simp n still)
      | inl y ↦ elim (Bool-cases b.running) [
        | inr r ↦
            subst (λ x. Good (resumed next x (sys p c b sent taken))) (sym (leave-stopped e f y r))
              still
        | inl r ↦
            let room : is_full b ≡ false = found_room b reason y f r in
            subst (λ x. Good (resumed next x (sys p c b sent taken))) (sym (leave-room e f y r))
              (simp y (record { sound = sound; producing = (same, room); consuming = o }))
      ]
    ]
  ]
    where
      still : Good (sys idle c b sent taken)
      still = record { sound = sound; producing = tt; consuming = o }

      found_room :
          (a : BatchBuff)
          → (is_ok e ≡ false) ⊎ (blocked_head a ≡ false)
          → is_ok e ≡ true
          → a.force_return_head ≡ false
          → a.running ≡ true
          → is_full a ≡ false
      found_room a (inl n) y f r = absurd (let clash : false ≡ true = sym n ∙ y in cc)
      found_room a (inr h) y f r = ground arith

  pub Good-decided :
      (next tail : ℕ) (p : Producer)
      → next ≡ masked b (b.head + 1)
      → ((next == tail) ≡ true) ⊎ (is_full b ≡ false)
      → ConsumerOk c b
      → Good (decided next tail (sys p c b sent taken))
  unfolding decided occupancy is_empty
  Good-decided next tail p same look o = elim (Bool-cases (next == tail)) [
    | inr n ↦ rw n (Good-published p next same (room look n) o)
    | inl y ↦ rw y (elim (Bool-cases (b.overflow_behaviour == overflow_drop_head)) [
      | inl d ↦ rw d (record {
        sound = record {
          valid = ground (arith, sound.valid);
          keeps = sound.keeps;
          unforced = sound.unforced;
          fifo = sound.fifo;
        };
        producing = tt;
        consuming = counted c o;
      })
      | inr d ↦ rw d (record { sound = sound; producing = same; consuming = o })
    ])
  ]
    where
      room :
          ((next == tail) ≡ true) ⊎ (is_full b ≡ false) → (next == tail) ≡ false → is_full b ≡ false
      room (inl y) n = absurd (let clash : false ≡ true = sym n ∙ y in cc)
      room (inr h) n = h

      counted :
          (d : Consumer)
          → ConsumerOk d b
          → ConsumerOk d (record b { dropped_batches = u64 (b.dropped_batches + 1) })
      counted free u = tt
      counted (holding i) u = u
      counted (deleting t) u = u
