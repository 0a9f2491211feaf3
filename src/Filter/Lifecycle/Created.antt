-- ===== src/Filter/Lifecycle/Created.antt =====
-- What filt_init of bpipe/core.c has set up when it succeeds.
use bpipe.Base.{
  ℕ, zero, suc, ◌+◌, ◌^◌, ◌<◌, ◌≤◌, ◌≡◌, ◌≢◌, refl, sym, ap, ◌∙◌, subst, inl, inr, Bool, true,
  false, ◌&&◌, some, List, [], ◌∷◌, ◌++◌, arith, ltb, leb, ◌==◌, ==_iff, if◌then◌else◌, Bool-cases,
  All, get_or, length, length-append,
}
use bpipe.Err.{Ec, ok, is_ok, is_ok→eq, alloc}
use bpipe.Ring.{BatchBuff, Config, data_size_lut}
use bpipe.Buffer.Inv.{IsValid}
use bpipe.Buffer.Submit.{IsOpen}
use bpipe.Buffer.Setup
use bpipe.Buffer.Setup.{Alloc}
use bpipe.Buffer.Setup.Laws.{init-IsValid}
use bpipe.Filter.{BufRef, Heap, write, State, input, max_sinks, max_inputs, filt_t_max}
use bpipe.Filter.Sinks.Wired.{IsWired}
use bpipe.Filter.Lifecycle.{
  FilterConfig, Answer, held, make_buffers, padded, complete, configured, init, release,
}

abbrev pub IsGood : BatchBuff → Type 0
IsGood b = IsValid b × IsOpen b

-- The pointer is not NULL, and leads to a buffer that is valid and open.
abbrev pub IsMade : Heap → BufRef → Type 0
IsMade h r = (r ≢ 0) × IsGood (h r)

write-IsMade :
    (h : Heap) (r : BufRef) (b : BatchBuff) (s : BufRef)
    → IsGood b
    → IsMade h s
    → IsMade (write h r b) s
write-IsMade h r b s g (n, v) = (n, go (s == r))
  where
    go : (c : Bool) → IsGood (if c then b else h s)
    go true = g
    go false = v

write-All :
    (h : Heap) (r : BufRef) (b : BatchBuff) (rs : List BufRef)
    → IsGood b
    → All (IsMade h) rs
    → All (IsMade (write h r b)) rs
write-All h r b [] g a = tt
write-All h r b (s ∷ rs) g (m, a) = (write-IsMade h r b s g m, write-All h r b rs g a)

All-append :
    (P : BufRef → Type 0) (xs : List BufRef) (y : BufRef) → All P xs → P y → All P (xs ++ y ∷ [])
All-append P [] y a p = (p, tt)
All-append P (x ∷ xs) y (q, a) p = (q, All-append P xs y a p)

write-new : (h : Heap) (r : BufRef) (b : BatchBuff) → r ≢ 0 → IsGood b → IsMade (write h r b) r
write-new h r b n g = (n, subst IsGood (sym same) g)
  where
    same : write h r b r ≡ b
    same = ground (arith, (==_iff r r).1 refl)

init-held :
    (c : Config) (a : Alloc) (b : BatchBuff)
    → Setup.init (some b) c a
      ≡ ((Setup.init (some b) c a).0, some (held b (Setup.init (some b) c a).1))
unfolding Setup.init held
init-held c a b = refl

-- A buffer of which bb_init reports success.
built-IsGood :
    (c : Config) (a : Alloc) (b : BatchBuff)
    → is_ok (Setup.init (some b) c a).0 ≡ true
    → IsGood (held b (Setup.init (some b) c a).1)
built-IsGood c a b h =
    let (v, o, _) =
      init-IsValid b c a (held b (Setup.init (some b) c a).1) (
        init-held c a b
        ∙ ap (λ e. (e, some (held b (Setup.init (some b) c a).1))) (is_ok→eq _ h)) in
    (v, o)

-- One round of the loop that makes the buffers.
pub round-null :
    (c : Config) (n : ℕ) (a : Answer) (answers : List Answer) (made : List BufRef) (h : Heap)
    → (a.pointer == 0) ≡ true
    → make_buffers c (suc n) (a ∷ answers) made h ≡ (alloc, made, release made h)
unfolding make_buffers
round-null c n a answers made h z = rw (z, make_buffers)

abbrev pub built : Config → Answer → Heap → Heap
built c a h = write h a.pointer (held (h a.pointer) (Setup.init (some (h a.pointer)) c a.granted).1)

pub round-ok :
    (c : Config) (n : ℕ) (a : Answer) (answers : List Answer) (made : List BufRef) (h : Heap)
    → (a.pointer == 0) ≡ false
    → is_ok (Setup.init (some (h a.pointer)) c a.granted).0 ≡ true
    → make_buffers c (suc n) (a ∷ answers) made h
      ≡ make_buffers c n answers (made ++ a.pointer ∷ []) (built c a h)
unfolding make_buffers
round-ok c n a answers made h z k = rw (z, make_buffers, k)

pub round-error :
    (c : Config) (n : ℕ) (a : Answer) (answers : List Answer) (made : List BufRef) (h : Heap)
    → (a.pointer == 0) ≡ false
    → is_ok (Setup.init (some (h a.pointer)) c a.granted).0 ≡ false
    → (make_buffers c (suc n) (a ∷ answers) made h).0
      ≡ (Setup.init (some (h a.pointer)) c a.granted).0
unfolding make_buffers
round-error c n a answers made h z k = rw (z, make_buffers, k)

pub clash : false ≢ true
clash e = cc

pub is_ok-ok : is_ok ok ≡ true
unfolding is_ok
is_ok-ok = refl

pub is_ok-alloc : is_ok alloc ≡ false
unfolding is_ok
is_ok-alloc = refl

make_buffers-IsMade :
    (c : Config) (n : ℕ) (answers : List Answer) (made : List BufRef) (h : Heap)
    → is_ok (make_buffers c n answers made h).0 ≡ true
    → All (IsMade h) made
    → All (IsMade (make_buffers c n answers made h).2) (make_buffers c n answers made h).1
      × (length (make_buffers c n answers made h).1 ≡ length made + n)
unfolding make_buffers
make_buffers-IsMade c zero answers made h k m = (m, omega arith)
make_buffers-IsMade c (suc n) [] made h k m = absurd (clash (sym is_ok-alloc ∙ k))
make_buffers-IsMade c (suc n) (a ∷ answers) made h k m = elim (Bool-cases (a.pointer == 0)) [
  | inl z ↦
      absurd (
        clash (sym is_ok-alloc ∙ sym (ap (λ r. is_ok r.0) (round-null c n a answers made h z)) ∙ k))
  | inr z ↦ elim (Bool-cases (is_ok (Setup.init (some (h a.pointer)) c a.granted).0)) [
    | inr x ↦ absurd (clash (sym x ∙ sym (ap is_ok (round-error c n a answers made h z x)) ∙ k))
    | inl y ↦
        let g : IsGood (held (h a.pointer) (Setup.init (some (h a.pointer)) c a.granted).1) =
          built-IsGood c a.granted (h a.pointer) y in
        let (all, size) =
          make_buffers-IsMade c n answers (made ++ a.pointer ∷ []) (built c a h)
            (sym (ap (λ r. is_ok r.0) (round-ok c n a answers made h z y)) ∙ k)
            (All-append (IsMade (built c a h)) made a.pointer (write-All h a.pointer _ made g m)
              (write-new h a.pointer _ (ground arith) g)) in
        subst
          (λ (r : Ec × List BufRef × Heap).
            All (IsMade r.2) r.1 × (length r.1 ≡ length made + suc n))
          (sym (round-ok c n a answers made h z y))
          (all, size ∙ omega (arith, length-append made (a.pointer ∷ [])))
  ]
]

get_or-padded :
    (n : ℕ) (rs : List BufRef) (i : ℕ)
    → i < length rs
    → i < n
    → get_or (padded n rs) i 0 ≡ get_or rs i 0
unfolding padded
get_or-padded n [] i h k = absurd (omega arith)
get_or-padded zero (r ∷ rs) i h k = absurd (omega arith)
get_or-padded (suc n) (r ∷ rs) zero h k = refl
get_or-padded (suc n) (r ∷ rs) (suc i) h k = get_or-padded n rs i (omega arith) (omega arith)

All-get_or :
    (P : BufRef → Type 0) (rs : List BufRef) (i : ℕ) → All P rs → i < length rs → P (get_or rs i 0)
All-get_or P [] i a h = absurd (omega arith)
All-get_or P (r ∷ rs) zero (p, a) h = p
All-get_or P (r ∷ rs) (suc i) (p, a) h = All-get_or P rs i a (omega arith)

abbrev pub is_accepted : ℕ → FilterConfig → Bool
is_accepted sizeof_filter c =
    ltb c.timeout_us (2 ^ 63)
    && ltb c.filt_type filt_t_max
    && leb sizeof_filter c.size
    && leb c.max_supported_sinks max_sinks
    && leb c.n_inputs max_inputs
    && c.has_worker

-- What follows the loop keeps its error, and fails without the mutex.
complete-ok :
    (c : FilterConfig) (mutex : Bool) (r : Ec × List BufRef × Heap)
    → is_ok (complete c mutex r).0 ≡ true
    → (is_ok r.0 ≡ true)
      × ((complete c mutex r).1 ≡ record {
        filter = record (configured c) {
          input_buffers = padded max_inputs r.1;
          data_width = get_or data_size_lut c.buff_config.dtype 0;
          n_outputs = 1;
        };
        heap = r.2;
      })
unfolding complete is_ok
complete-ok c mutex (e, rs, h) k = elim (Bool-cases (is_ok e)) [
  | inr n ↦ ground arith
  | inl y ↦ elim (Bool-cases mutex) [ inr n ↦ ground arith | inl m ↦ (y, rw (y, m)) ]
]

module _ (sizeof_filter : ℕ) (c : FilterConfig) (answers : List Answer) (mutex : Bool)
    (h : Heap) where
  abbrev pub made : Ec × List BufRef × Heap
  made = make_buffers c.buff_config c.n_inputs answers [] h

  init-accept :
      is_accepted sizeof_filter c ≡ true
      → init sizeof_filter c answers mutex h ≡ complete c mutex made
  unfolding init
  init-accept a = ground arith

  init-refuse :
      is_accepted sizeof_filter c ≡ false → is_ok (init sizeof_filter c answers mutex h).0 ≡ false
  unfolding init is_ok
  init-refuse a = ground arith

  -- The filter and the heap that a success leaves.
  abbrev pub ready : State
  ready = record {
    filter = record (configured c) {
      input_buffers = padded max_inputs made.1;
      data_width = get_or data_size_lut c.buff_config.dtype 0;
      n_outputs = 1;
    };
    heap = made.2;
  }

  pub init-ready :
      (s : State)
      → init sizeof_filter c answers mutex h ≡ (ok, s)
      → (is_accepted sizeof_filter c ≡ true) × (is_ok made.0 ≡ true) × (s ≡ ready)
  init-ready s e = elim (Bool-cases (is_accepted sizeof_filter c)) [
    | inr n ↦ absurd (clash (sym (init-refuse n) ∙ ap (λ r. is_ok r.0) e ∙ is_ok-ok))
    | inl y ↦
        let q : complete c mutex made ≡ (ok, s) = sym (init-accept y) ∙ e in
        let (m, r) = complete-ok c mutex made (ap (λ x. is_ok x.0) q ∙ is_ok-ok) in
        (y, m, sym (ap (λ x. x.1) q) ∙ r)
  ]

  -- A filter that filt_init has set up is not running, has no sinks and counts none, and has at
  -- most as many inputs and supported sinks as there are slots.
  pub init-IsWired :
      (s : State)
      → init sizeof_filter c answers mutex h ≡ (ok, s)
      → IsWired s.filter
        × (s.filter.running ≡ false)
        × (s.filter.n_input_buffers ≤ max_inputs)
        × (s.filter.max_supported_sinks ≤ max_sinks)
  init-IsWired s e =
      let (a, _, r) = init-ready s e in
      subst
        (λ (t : State).
          IsWired t.filter
          × (t.filter.running ≡ false)
          × (t.filter.n_input_buffers ≤ max_inputs)
          × (t.filter.max_supported_sinks ≤ max_sinks))
        (sym r) ((refl, refl), refl, ground arith, ground arith)

  -- Each input buffer of a filter that filt_init has set up is not NULL, valid and open.
  pub init-IsMade :
      (s : State) (i : ℕ)
      → init sizeof_filter c answers mutex h ≡ (ok, s)
      → i < c.n_inputs
      → IsMade s.heap (input s.filter i)
  init-IsMade s i e lt =
      let (a, k, r) = init-ready s e in
      let (all, size) = make_buffers-IsMade c.buff_config c.n_inputs answers [] h k tt in
      subst (λ (t : State). IsMade t.heap (input t.filter i)) (sym r)
        (subst (IsMade made.2)
          (sym (get_or-padded max_inputs made.1 i (omega (arith, size)) (ground arith)))
          (All-get_or (IsMade made.2) made.1 i all (omega (arith, size))))
