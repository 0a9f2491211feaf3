-- ===== src/Buffer/Spsc/Fifo.antt =====
-- The two threads of bpipe/batch_buffer.c in every interleaving of their accesses.
use mathlib.Core.List.{append_assoc}
use bpipe.Base.{
  ℕ, ◌+◌, ◌≡◌, ◌≢◌, ◌⊎◌, refl, sym, ap, ◌∙◌, inl, inr, Bool, true, false, List, [], ◌∷◌, ◌++◌, ◌==◌,
  ==_false, arith, Bool-cases, subst, get_or,
}
use bpipe.Err.{Ec, ok, timeout, is_ok}
use bpipe.Ring.{
  Batch, BatchBuff, zero_batch, masked, is_empty, is_full, get_tail_idx, overflow_drop_tail,
  occupancy,
}
use bpipe.Buffer.{blocked_head}
use bpipe.Buffer.Inv.{IsValid, full_iff, occupancy-lt}
use bpipe.Buffer.Refine.{
  contents, advanced, advanced-IsValid, occupancy-advanced, contents-advanced,
}
use bpipe.Buffer.Spsc.{
  Producer, idle, loaded, awaiting, ready, Consumer, free, holding, deleting, System, produce_step,
  consume_step, step, steps, Event, fill, enter, decide, wake, give_up, proceed, peek, delete,
  advance, halt, force_head, force_tail,
}
use bpipe.Buffer.Spsc.Inv.{
  ProducerOk, ConsumerOk, Good, sys, Sound-put_head, ConsumerOk-put_head, Good-published,
  Good-resumed, Good-decided,
}

looked : (b : BatchBuff) → ((masked b (b.head + 1) == b.tail) ≡ true) ⊎ (is_full b ≡ false)
unfolding is_full
looked b = Bool-cases (masked b (b.head + 1) == b.tail)

timeout-is_ok : is_ok timeout ≡ false
unfolding is_ok
timeout-is_ok = refl

produce-Good :
    (ev : Event) (p : Producer) (c : Consumer) (b : BatchBuff) (sent taken : List Batch)
    → Good (sys p c b sent taken)
    → Good (produce_step ev p (sys p c b sent taken))
unfolding produce_step
produce-Good (fill x) idle c b sent taken g = record {
  sound = Sound-put_head c b sent taken g.sound x;
  producing = tt;
  consuming = ConsumerOk-put_head c b sent taken g.sound x c g.consuming;
}
produce-Good enter idle c b sent taken g = record {
  sound = g.sound;
  producing = (refl, looked b);
  consuming = g.consuming;
}
produce-Good decide (loaded next tail) c b sent taken g =
    Good-decided c b sent taken g.sound next tail (loaded next tail) g.producing.0 g.producing.1
      g.consuming
produce-Good wake (awaiting next) c b sent taken g = elim (Bool-cases (blocked_head b)) [
  | inl y ↦ rw y g
  | inr n ↦
      rw n (
        Good-resumed c b sent taken g.sound ok next (awaiting next) g.producing (inr n) g.consuming)
]
produce-Good give_up (awaiting next) c b sent taken g =
    Good-resumed c b sent taken g.sound timeout next (awaiting next) g.producing (inl timeout-is_ok)
      g.consuming
produce-Good proceed (ready next) c b sent taken g =
    Good-published c b sent taken g.sound (ready next) next g.producing.0 g.producing.1 g.consuming
produce-Good _ _ c b sent taken g = g

-- Deleting the batch at the tail leaves the producer's knowledge true.
module _ (b : BatchBuff) (v : IsValid b) (ne : is_empty b ≡ false) where
  advanced-not_full : is_full b ≡ false → is_full (advanced b) ≡ false
  advanced-not_full h = elim (Bool-cases (is_full (advanced b))) [
    | inr n ↦ n
    | inl y ↦ absurd (
        omega (arith, (full_iff (advanced-IsValid v)).0 y, occupancy-advanced v ne, occupancy-lt v))
  ]

  ProducerOk-advanced : (p : Producer) → ProducerOk p b → ProducerOk p (advanced b)
  ProducerOk-advanced idle o = tt
  ProducerOk-advanced (loaded next tail) (e, inl y) = (e, inl y)
  ProducerOk-advanced (loaded next tail) (e, inr h) = (e, inr (advanced-not_full h))
  ProducerOk-advanced (awaiting next) o = o
  ProducerOk-advanced (ready next) (e, h) = (e, advanced-not_full h)

consume-Good :
    (ev : Event) (p : Producer) (c : Consumer) (b : BatchBuff) (sent taken : List Batch)
    → Good (sys p c b sent taken)
    → Good (consume_step ev c (sys p c b sent taken))
unfolding consume_step
consume-Good peek p free b sent taken g = elim (Bool-cases (is_empty b)) [
  | inl y ↦ rw y g
  | inr n ↦ rw n (record { sound = g.sound; producing = g.producing; consuming = (refl, n) })
]
consume-Good delete p (holding idx) b sent taken g = elim (Bool-cases (b.tail == b.head)) [
  | inl y ↦ rw y g
  | inr n ↦
      rw n (record { sound = g.sound; producing = g.producing; consuming = (refl, g.consuming.1) })
]
consume-Good advance p (deleting tail) b sent taken g =
    let (at_tail, ne) = g.consuming in
    rw at_tail (record {
      sound = record {
        valid = advanced-IsValid g.sound.valid;
        keeps = g.sound.keeps;
        unforced = g.sound.unforced;
        fifo =
            append_assoc taken (get_or b.batch_ring (get_tail_idx b) zero_batch ∷ [])
              (contents (advanced b))
            ∙ ap (λ l. taken ++ l) (sym (contents-advanced g.sound.valid ne))
            ∙ g.sound.fifo;
      };
      producing = ProducerOk-advanced b g.sound.valid ne p g.producing;
      consuming = tt;
    })
consume-Good _ p _ b sent taken g = g

-- The flags that other threads set leave what the two threads know true.
module _ (b : BatchBuff) (runs head_flag tail_flag : Bool) (head_code tail_code : Ec) where
  abbrev flagged : BatchBuff
  flagged = record b {
    running = runs;
    force_return_head = head_flag;
    force_return_tail = tail_flag;
    force_return_head_code = head_code;
    force_return_tail_code = tail_code;
  }

  ProducerOk-flagged : (p : Producer) → ProducerOk p b → ProducerOk p flagged
  unfolding is_full
  ProducerOk-flagged idle o = tt
  ProducerOk-flagged (loaded next tail) o = o
  ProducerOk-flagged (awaiting next) o = o
  ProducerOk-flagged (ready next) o = o

  ConsumerOk-flagged : (c : Consumer) → ConsumerOk c b → ConsumerOk c flagged
  unfolding is_empty
  ConsumerOk-flagged free o = tt
  ConsumerOk-flagged (holding idx) o = o
  ConsumerOk-flagged (deleting tail) o = o

  Good-flagged :
      (p : Producer) (c : Consumer) (sent taken : List Batch)
      → (head_flag ≡ false) ⊎ (is_ok head_code ≡ false)
      → Good (sys p c b sent taken)
      → Good (sys p c flagged sent taken)
  unfolding occupancy
  Good-flagged p c sent taken unforced g = record {
    sound = record {
      valid = ground (arith, g.sound.valid);
      keeps = g.sound.keeps;
      unforced = unforced;
      fifo = g.sound.fifo;
    };
    producing = ProducerOk-flagged p g.producing;
    consuming = ConsumerOk-flagged c g.consuming;
  }

-- An event that is not a forced return with the code of success.
abbrev FairEvent : Event → Type 0
FairEvent (force_head e) = is_ok e ≡ false
FairEvent _ = Unit

step-Good : (e : Event) (s : System) → FairEvent e → Good s → Good (step e s)
unfolding step
step-Good peek s f g = consume-Good peek s.producer s.consumer s.buffer s.sent s.taken g
step-Good delete s f g = consume-Good delete s.producer s.consumer s.buffer s.sent s.taken g
step-Good advance s f g = consume-Good advance s.producer s.consumer s.buffer s.sent s.taken g
step-Good halt s f g =
    let b = s.buffer in
    Good-flagged b false b.force_return_head b.force_return_tail b.force_return_head_code
      b.force_return_tail_code s.producer s.consumer s.sent s.taken g.sound.unforced g
step-Good (force_head code) s f g =
    let b = s.buffer in
    Good-flagged b b.running true b.force_return_tail code b.force_return_tail_code s.producer
      s.consumer s.sent s.taken (inr f) g
step-Good (force_tail code) s f g =
    let b = s.buffer in
    Good-flagged b b.running b.force_return_head true b.force_return_head_code code s.producer
      s.consumer s.sent s.taken g.sound.unforced g
step-Good (fill x) s f g = produce-Good (fill x) s.producer s.consumer s.buffer s.sent s.taken g
step-Good enter s f g = produce-Good enter s.producer s.consumer s.buffer s.sent s.taken g
step-Good decide s f g = produce-Good decide s.producer s.consumer s.buffer s.sent s.taken g
step-Good wake s f g = produce-Good wake s.producer s.consumer s.buffer s.sent s.taken g
step-Good give_up s f g = produce-Good give_up s.producer s.consumer s.buffer s.sent s.taken g
step-Good proceed s f g = produce-Good proceed s.producer s.consumer s.buffer s.sent s.taken g

abbrev pub Fair : List Event → Type 0
Fair [] = Unit
Fair (e ∷ es) = FairEvent e × Fair es

steps-Good : (es : List Event) (s : System) → Fair es → Good s → Good (steps es s)
unfolding steps
steps-Good [] s f g = g
steps-Good (e ∷ es) s (f, fs) g = steps-Good es (step e s) fs (step-Good e s f g)

-- Two threads that begin between two calls each.
abbrev pub begin : BatchBuff → System
begin b = sys idle free b (contents b) []

begin-Good :
    (b : BatchBuff)
    → IsValid b
    → b.overflow_behaviour ≢ overflow_drop_tail
    → b.force_return_head ≡ false
    → Good (begin b)
begin-Good b v keeps f = record {
  sound = record {
    valid = v;
    keeps = ==_false b.overflow_behaviour overflow_drop_tail keeps;
    unforced = inl f;
    fifo = refl;
  };
  producing = tt;
  consuming = tt;
}

-- While the consumer reads a batch, its slot holds just the one that was submitted after those
-- already deleted, whatever the producer does meanwhile.
pub steps-holding :
    (es : List Event) (b : BatchBuff) (idx : ℕ)
    → IsValid b
    → b.overflow_behaviour ≢ overflow_drop_tail
    → b.force_return_head ≡ false
    → Fair es
    → (steps es (begin b)).consumer ≡ holding idx
    → (later : List Batch) × ((steps es (begin b)).sent
        ≡ (steps es (begin b)).taken
          ++ get_or (steps es (begin b)).buffer.batch_ring idx zero_batch ∷ later)
steps-holding es b idx v keeps f fair h =
    let s : System = steps es (begin b) in
    let g = steps-Good es (begin b) fair (begin-Good b v keeps f) in
    let (at_tail, ne) = subst (λ c. ConsumerOk c s.buffer) h g.consuming in
    (
      contents (advanced s.buffer),
      sym g.sound.fifo
          ∙ ap (λ l. s.taken ++ l) (contents-advanced g.sound.valid ne)
          ∙ ap
              (λ (i : ℕ).
                s.taken ++ get_or s.buffer.batch_ring i zero_batch ∷ contents (advanced s.buffer))
              (sym at_tail),
    )
