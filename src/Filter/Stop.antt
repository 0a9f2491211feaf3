-- ===== src/Filter/Stop.antt =====
-- filt_stop of bpipe/core.c: which buffers it forces to return.
use bpipe.Base.{
  ℕ, zero, suc, ◌<◌, ◌≡◌, ◌≢◌, inl, inr, refl, sym, ap, ◌∙◌, subst, Bool, true, false, not, ◌&&◌,
  none, List, [], ◌∷◌, arith, ◌==◌, if◌then◌else◌, Bool-cases, get_or, ==_iff, ==_false,
}
use bpipe.Err.{filter_stopping}
use bpipe.Ring.{BatchBuff}
use bpipe.Buffer.Setup
use bpipe.Filter.{
  BufRef, Heap, write, Filter, State, input, sink, force_inputs, force_sinks, wake_all, stop,
  filt_t_ndef,
}

-- A producer that waits on the buffer returns: its head is forced, with the code of a stop.
abbrev pub IsWokenHead : BatchBuff → Type 0
IsWokenHead b = (b.force_return_head ≡ true) × (b.force_return_head_code ≡ filter_stopping)

abbrev pub IsWokenTail : BatchBuff → Type 0
IsWokenTail b = (b.force_return_tail ≡ true) × (b.force_return_tail_code ≡ filter_stopping)

write_self : (h : Heap) (r s : BufRef) (b : BatchBuff) → (s == r) ≡ true → write h r b s ≡ b
write_self h r s b e = ground arith

write-other : (h : Heap) (r s : BufRef) (b : BatchBuff) → (s == r) ≡ false → write h r b s ≡ h s
write-other h r s b n = ground arith

abbrev IsOpen : BatchBuff → Type 0
IsOpen b = b.data_ring ≡ true

abbrev is_forced : Heap → BufRef → Bool
is_forced h r = not (r == 0) && (h r).data_ring

inputs-step :
    (force : BatchBuff → BatchBuff) (n : ℕ) (r : BufRef) (rs : List BufRef) (h : Heap)
    → force_inputs force (suc n) (r ∷ rs) h
      ≡ force_inputs force n rs (if is_forced h r then write h r (force (h r)) else h)
unfolding force_inputs
inputs-step force n r rs h = refl

sinks-step :
    (n : ℕ) (r : BufRef) (rs : List BufRef) (h : Heap)
    → force_sinks (suc n) (r ∷ rs) h
      ≡ force_sinks n rs (if r == 0 then h else write h r (Setup.forced_head filter_stopping (h r)))
unfolding force_sinks
sinks-step n r rs h = refl

-- A predicate that forcing keeps survives the loops over the buffers.
module _ (P : BatchBuff → Type 0) (force : BatchBuff → BatchBuff)
    (keep : (b : BatchBuff) → P b → P (force b)) where
  write-keeps : (h : Heap) (r s : BufRef) → P (h s) → P (write h r (force (h r)) s)
  write-keeps h r s p = elim (Bool-cases (s == r)) [
    | inl y ↦
        subst P (sym (write_self h r s (force (h r)) y))
          (keep (h r) (subst (λ x. P (h x)) ((==_iff s r).0 y) p))
    | inr n ↦ subst P (sym (write-other h r s (force (h r)) n)) p
  ]

  round-keeps :
      (c : Bool) (h : Heap) (r s : BufRef)
      → P (h s)
      → P ((if c then write h r (force (h r)) else h) s)
  round-keeps true h r s p = write-keeps h r s p
  round-keeps false h r s p = p

  inputs-keep :
      (n : ℕ) (rs : List BufRef) (h : Heap) (s : BufRef) → P (h s) → P (force_inputs force n rs h s)
  unfolding force_inputs
  inputs-keep zero rs h s p = p
  inputs-keep (suc n) [] h s p = p
  inputs-keep (suc n) (r ∷ rs) h s p = inputs-keep n rs _ s (round-keeps (is_forced h r) h r s p)

  sinks-keep :
      ((h : Heap) (r : BufRef) → force (h r) ≡ Setup.forced_head filter_stopping (h r))
      → (n : ℕ) (rs : List BufRef) (h : Heap) (s : BufRef) → P (h s)
      → P (force_sinks n rs h s)
  unfolding force_sinks
  sinks-keep same zero rs h s p = p
  sinks-keep same (suc n) [] h s p = p
  sinks-keep same (suc n) (r ∷ rs) h s p = sinks-keep same n rs _ s (go (r == 0))
    where
      go : (c : Bool) → P ((if c then h else write h r (Setup.forced_head filter_stopping (h r))) s)
      go true = p
      go false = subst (λ b. P (write h r b s)) (same h r) (write-keeps h r s p)

-- The loop over the inputs reaches each slot below the bound that holds data.
module _ (P : BatchBuff → Type 0) (force : BatchBuff → BatchBuff)
    (keep : (b : BatchBuff) → P b → P (force b))
    (keep_open : (b : BatchBuff) → IsOpen b → IsOpen (force b))
    (all : (b : BatchBuff) → P (force b)) where
  inputs-reach :
      (n : ℕ) (rs : List BufRef) (h : Heap) (i : ℕ)
      → i < n
      → get_or rs i 0 ≢ 0
      → IsOpen (h (get_or rs i 0))
      → P (force_inputs force n rs h (get_or rs i 0))
  unfolding force_inputs
  inputs-reach zero rs h i lt ne d = absurd (omega arith)
  inputs-reach (suc n) [] h i lt ne d = absurd (ne refl)
  inputs-reach (suc n) (r ∷ rs) h zero lt ne d =
      let on : is_forced h r ≡ true = ground arith in
      subst (λ c. P (force_inputs force n rs (if c then write h r (force (h r)) else h) r)) (sym on)
        (inputs-keep P force keep n rs _ r
          (subst P (sym (write_self h r r (force (h r)) ((==_iff r r).1 refl))) (all (h r))))
  inputs-reach (suc n) (r ∷ rs) h (suc i) lt ne d =
      inputs-reach n rs _ i (omega arith) ne
        (round-keeps IsOpen force keep_open (is_forced h r) h r (get_or rs i 0) d)

-- The loop over the sinks reaches each slot below the bound that is not NULL.
sinks-reach :
    (n : ℕ) (rs : List BufRef) (h : Heap) (i : ℕ)
    → i < n
    → get_or rs i 0 ≢ 0
    → IsWokenHead (force_sinks n rs h (get_or rs i 0))
unfolding force_sinks
sinks-reach zero rs h i lt ne = absurd (omega arith)
sinks-reach (suc n) [] h i lt ne = absurd (ne refl)
sinks-reach (suc n) (r ∷ rs) h zero lt ne =
    subst
      (λ c.
        IsWokenHead (
          force_sinks n rs (if c then h else write h r (Setup.forced_head filter_stopping (h r)))
            r))
      (sym (==_false r 0 ne))
      (sinks-keep IsWokenHead (Setup.forced_head filter_stopping) (λ b p. (refl, refl))
        (λ h r. refl) n rs _ r
        (subst IsWokenHead
          (sym (write_self h r r (Setup.forced_head filter_stopping (h r)) ((==_iff r r).1 refl)))
          (refl, refl)))
sinks-reach (suc n) (r ∷ rs) h (suc i) lt ne = sinks-reach n rs _ i (omega arith) ne

module _ (f : Filter) (h : Heap) where
  wake-sinks : (i : ℕ) → i < f.n_sinks → sink f i ≢ 0 → IsWokenHead (wake_all f h (sink f i))
  unfolding wake_all
  wake-sinks i lt ne =
      inputs-keep IsWokenHead (Setup.forced_tail filter_stopping) (λ b p. p) f.n_input_buffers
        f.input_buffers _ (sink f i) (sinks-reach f.n_sinks f.sinks _ i lt ne)

  wake-inputs :
      (i : ℕ)
      → i < f.n_input_buffers
      → input f i ≢ 0
      → IsOpen (h (input f i))
      → IsWokenHead (wake_all f h (input f i)) × IsWokenTail (wake_all f h (input f i))
  unfolding wake_all
  wake-inputs i lt ne d = (
    inputs-keep IsWokenHead (Setup.forced_tail filter_stopping) (λ b p. p) f.n_input_buffers
        f.input_buffers _ (input f i)
        (sinks-keep IsWokenHead (Setup.forced_head filter_stopping) (λ b p. (refl, refl))
          (λ h r. refl) f.n_sinks f.sinks _ (input f i)
          (inputs-reach IsWokenHead (Setup.forced_head filter_stopping) (λ b p. (refl, refl))
            (λ b p. p) (λ b. (refl, refl)) f.n_input_buffers f.input_buffers h i lt ne d)),
    inputs-reach IsWokenTail (Setup.forced_tail filter_stopping) (λ b p. (refl, refl)) (λ b p. p)
        (λ b. (refl, refl)) f.n_input_buffers f.input_buffers _ i lt ne
        (sinks-keep IsOpen (Setup.forced_head filter_stopping) (λ b p. p) (λ h r. refl) f.n_sinks
          f.sinks _ (input f i)
          (inputs-keep IsOpen (Setup.forced_head filter_stopping) (λ b p. p) f.n_input_buffers
            f.input_buffers h (input f i) d)),
  )

-- A buffer in no slot below the bound is left as it was.
round-frame :
    (c : Bool) (h : Heap) (r s : BufRef) (b : BatchBuff)
    → r ≢ s
    → (if c then write h r b else h) s ≡ h s
round-frame true h r s b ne = write-other h r s b (==_false s r (λ e. ne (sym e)))
round-frame false h r s b ne = refl

inputs-frame :
    (force : BatchBuff → BatchBuff) (n : ℕ) (rs : List BufRef) (h : Heap) (s : BufRef)
    → ((i : ℕ) → i < n → get_or rs i 0 ≢ s)
    → force_inputs force n rs h s ≡ h s
unfolding force_inputs
inputs-frame force zero rs h s a = refl
inputs-frame force (suc n) [] h s a = refl
inputs-frame force (suc n) (r ∷ rs) h s a =
    inputs-frame force n rs _ s (λ i lt. a (suc i) (omega arith))
    ∙ round-frame (is_forced h r) h r s (force (h r)) (a 0 (omega arith))

sinks-frame :
    (n : ℕ) (rs : List BufRef) (h : Heap) (s : BufRef)
    → ((i : ℕ) → i < n → get_or rs i 0 ≢ s)
    → force_sinks n rs h s ≡ h s
unfolding force_sinks
sinks-frame zero rs h s a = refl
sinks-frame (suc n) [] h s a = refl
sinks-frame (suc n) (r ∷ rs) h s a =
    sinks-frame n rs _ s (λ i lt. a (suc i) (omega arith)) ∙ go (r == 0)
  where
    go : (c : Bool) → (if c then h else write h r (Setup.forced_head filter_stopping (h r))) s ≡ h s
    go true = refl
    go false = round-frame true h r s (Setup.forced_head filter_stopping (h r)) (a 0 (omega arith))

stop-runs :
    (joined : Bool) (s : State)
    → s.filter.filt_type ≢ filt_t_ndef
    → s.filter.running ≡ true
    → (stop none joined s).1
      ≡ record { filter = record s.filter { running = false }; heap = wake_all s.filter s.heap }
unfolding stop
stop-runs joined s t r = ground arith

-- Stopping a running filter by the default operation, whether or not its thread can be joined,
-- leaves it not running, and wakes the producers of every buffer in a sink slot below `n_sinks`.
pub stop_wakes_sink :
    (joined : Bool) (s : State) (i : ℕ)
    → s.filter.filt_type ≢ filt_t_ndef
    → s.filter.running ≡ true
    → i < s.filter.n_sinks
    → sink s.filter i ≢ 0
    → ((stop none joined s).1.filter.running ≡ false)
      × IsWokenHead ((stop none joined s).1.heap (sink s.filter i))
stop_wakes_sink joined s i t r lt ne =
    rw (stop-runs joined s t r) (refl, wake-sinks s.filter s.heap i lt ne)

-- Stopping a running filter by the default operation wakes both the producers and the consumer of every input buffer that holds data.
pub stop_wakes_input :
    (joined : Bool) (s : State) (i : ℕ)
    → s.filter.filt_type ≢ filt_t_ndef
    → s.filter.running ≡ true
    → i < s.filter.n_input_buffers
    → input s.filter i ≢ 0
    → (s.heap (input s.filter i)).data_ring ≡ true
    → IsWokenHead ((stop none joined s).1.heap (input s.filter i))
      × IsWokenTail ((stop none joined s).1.heap (input s.filter i))
stop_wakes_input joined s i t r lt ne d =
    rw (stop-runs joined s t r) (wake-inputs s.filter s.heap i lt ne d)

-- Stopping a running filter touches no other buffer: one that is in no input slot and in no sink
-- slot below `n_sinks` keeps its state, even if a higher sink slot holds it.
pub stop_leaves :
    (joined : Bool) (s : State) (ref : BufRef)
    → s.filter.filt_type ≢ filt_t_ndef
    → s.filter.running ≡ true
    → ((i : ℕ) → i < s.filter.n_sinks → sink s.filter i ≢ ref)
    → ((i : ℕ) → i < s.filter.n_input_buffers → input s.filter i ≢ ref)
    → (stop none joined s).1.heap ref ≡ s.heap ref
unfolding wake_all
stop_leaves joined s ref t r sinks inputs =
    let f = s.filter in
    let headed =
      force_inputs (Setup.forced_head filter_stopping) f.n_input_buffers f.input_buffers s.heap in
    ap (λ st. st.heap ref) (stop-runs joined s t r)
    ∙ inputs-frame (Setup.forced_tail filter_stopping) f.n_input_buffers f.input_buffers
        (force_sinks f.n_sinks f.sinks headed) ref inputs
    ∙ sinks-frame f.n_sinks f.sinks headed ref sinks
    ∙ inputs-frame (Setup.forced_head filter_stopping) f.n_input_buffers f.input_buffers s.heap ref
        inputs
