-- ===== src/Filter/Lifecycle/Single.antt =====
-- A filter with one input that filt_init of bpipe/core.c has set up: its fields, and its buffer.
use bpipe.Base.{
  ℕ, ◌<◌, ◌≤◌, ◌≡◌, ◌≢◌, refl, sym, ap, ◌∙◌, subst, inl, inr, Bool, true, false, some, List, [],
  ◌∷◌, arith, ◌==◌, ==_iff, ==_false, Bool-cases, get_or,
}
use bpipe.Err.{Ec, ok, is_ok}
use bpipe.Ring.{BatchBuff, Config, data_size_lut, dtype_max, dtype_ndef}
use bpipe.Buffer.Setup
use bpipe.Buffer.Setup.{Alloc}
use bpipe.Filter.{BufRef, Heap, write, State, input, max_inputs}
use bpipe.Filter.Lifecycle.{FilterConfig, Answer, held, make_buffers, padded, configured, init}
use bpipe.Filter.Lifecycle.Created.{
  init-ready, made, built, round-null, round-ok, round-error, clash, is_ok-alloc,
}

-- A buffer that bb_init has set up has the type of its configuration.
built-dtype :
    (b : BatchBuff) (c : Config) (a : Alloc)
    → is_ok (Setup.init (some b) c a).0 ≡ true
    → ((held b (Setup.init (some b) c a).1).dtype ≡ c.dtype)
      × (c.dtype ≢ dtype_ndef)
      × (c.dtype < dtype_max)
      × (c.batch_capacity_expo ≤ 20)
unfolding Setup.init held is_ok
built-dtype b c a h = (ground arith, ground arith, ground arith, ground arith)

-- The one buffer that the loop makes.
one_buffer :
    (c : Config) (answers : List Answer) (h : Heap)
    → is_ok (make_buffers c 1 answers [] h).0 ≡ true
    → (a : Answer) × ((a.pointer == 0) ≡ false)
      × (is_ok (Setup.init (some (h a.pointer)) c a.granted).0 ≡ true)
      × (make_buffers c 1 answers [] h ≡ (ok, a.pointer ∷ [], built c a h))
unfolding make_buffers
one_buffer c [] h k = absurd (clash (sym is_ok-alloc ∙ k))
one_buffer c (a ∷ answers) h k = elim (Bool-cases (a.pointer == 0)) [
  | inl z ↦
      absurd
        (clash (sym is_ok-alloc ∙ sym (ap (λ r. is_ok r.0) (round-null c 0 a answers [] h z)) ∙ k))
  | inr z ↦ elim (Bool-cases (is_ok (Setup.init (some (h a.pointer)) c a.granted).0)) [
    | inr x ↦ absurd (clash (sym x ∙ sym (ap is_ok (round-error c 0 a answers [] h z x)) ∙ k))
    | inl y ↦ (a, z, y, round-ok c 0 a answers [] h z y)
  ]
]

write_self : (h : Heap) (r : BufRef) (b : BatchBuff) → write h r b r ≡ b
write_self h r b = ground (arith, (==_iff r r).1 refl)

-- What a filter of one input is after filt_init: nothing is connected or agreed, and its buffer,
-- the only one that has changed, has the type of the configuration.
pub record IsSingle (c : FilterConfig) (h : Heap) (s : State) : Type 0 where
  pub buffers : List BufRef
  pub fields : s.filter ≡ record (configured c) {
    input_buffers = buffers;
    data_width = get_or data_size_lut c.buff_config.dtype 0;
    n_outputs = 1;
  }
  pub set_up : input s.filter 0 ≢ 0
  pub typed : (s.heap (input s.filter 0)).dtype ≡ c.buff_config.dtype
  pub known : c.buff_config.dtype < dtype_max
  pub small : c.buff_config.batch_capacity_expo ≤ 20
  pub others : (r : BufRef) → r ≢ input s.filter 0 → s.heap r ≡ h r

-- The state that a success leaves, by what the loop has made.
abbrev settled : FilterConfig → Ec × List BufRef × Heap → State
settled c x = record {
  filter = record (configured c) {
    input_buffers = padded max_inputs x.1;
    data_width = get_or data_size_lut c.buff_config.dtype 0;
    n_outputs = 1;
  };
  heap = x.2;
}

settled-IsSingle :
    (c : FilterConfig) (h : Heap) (p : BufRef) (b : BatchBuff)
    → p ≢ 0
    → b.dtype ≡ c.buff_config.dtype
    → c.buff_config.dtype < dtype_max
    → c.buff_config.batch_capacity_expo ≤ 20
    → IsSingle c h (settled c (ok, p ∷ [], write h p b))
unfolding padded
settled-IsSingle c h p b n d l small = record {
  buffers = padded max_inputs (p ∷ []);
  fields = refl;
  set_up = n;
  typed = ap (λ (x : BatchBuff). x.dtype) (write_self h p b) ∙ d;
  known = l;
  small = small;
  others = λ r ne. rw (==_false r p ne) refl;
}

module _ (sizeof_filter : ℕ) (c : FilterConfig) (answers : List Answer) (mutex : Bool) (h : Heap)
    (single : c.n_inputs ≡ 1) where
  pub init-IsSingle : (s : State) → init sizeof_filter c answers mutex h ≡ (ok, s) → IsSingle c h s
  init-IsSingle s e =
      let (_, k, r) = init-ready sizeof_filter c answers mutex h s e in
      let one : made sizeof_filter c answers mutex h ≡ make_buffers c.buff_config 1 answers [] h =
        ap (λ (n : ℕ). make_buffers c.buff_config n answers [] h) single in
      let (a, z, y, m) = one_buffer c.buff_config answers h (sym (ap (λ q. is_ok q.0) one) ∙ k) in
      let (d, _, l, small) = built-dtype (h a.pointer) c.buff_config a.granted y in
      let all : made sizeof_filter c answers mutex h
          ≡ (ok, a.pointer ∷ [], built c.buff_config a h) =
        one ∙ m in
      subst (IsSingle c h) (sym (r ∙ ap (settled c) all)) (
        settled-IsSingle c h a.pointer
          (held (h a.pointer) (Setup.init (some (h a.pointer)) c.buff_config a.granted).1)
          (ground arith) d l small)
