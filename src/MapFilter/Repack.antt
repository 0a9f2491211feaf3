-- ===== src/MapFilter/Repack.antt =====
-- map_worker (bpipe/map.c) applies its function to each sample once and keeps their order.
use mathlib.Core.List.{append-nil}
use bpipe.Base.{
  ℕ, zero, suc, ◌+◌, ◌-◌, ◌≤◌, ◌<◌, ◌≡◌, ◌⊎◌, refl, sym, ap, ◌∙◌, inl, inr, Bool, true, false, none,
  some, List, [], ◌∷◌, ◌++◌, arith, ltb, leb, ltb→lt, Bool-cases, Option-cases, length, take, drop,
  map, subst,
}
use bpipe.Err.{Ec, ok, timeout, stopped}
use bpipe.Batches.{joined, joined-snoc}
use bpipe.Ring.{Batch}
use bpipe.MapFilter.{
  Fetch, fetched, missed, Work, Round, goes_on, breaks, transform, loaded, fetch, round, rounds_of,
  leave, misconfigured, map_worker,
}
use bpipe.MapFilter.Stream.{
  held, unread, supplied, Sound, cost, Packed, HasRoom, IsRead, length-unread,
}
use bpipe.MapFilter.Fill.{Inv, ok-is_ok, output_of-held, transform-Inv}

module _ (slot : List Batch → Batch) (accepts : List Batch → Ec) (map_fcn : List ℕ → Ec × List ℕ)
    (g : ℕ → ℕ) (size : ℕ) (accepted : (bs : List Batch) → accepts bs ≡ ok)
    (mapped : (xs : List ℕ) → map_fcn xs ≡ (ok, map g xs)) (pos : 0 < size) (total : List ℕ) where
  abbrev measure : List Fetch → Work → ℕ
  measure is w = length (unread w.input w.input_consumed) + cost is

  -- What a round comes to: it has got on, or there is nothing left and the input ends.
  abbrev Progress : List Fetch → Work → Round → Type 0
  Progress is w r =
      ((is' : List Fetch) × (w' : Work) × (r ≡ goes_on w')
        × Inv slot accepts map_fcn g size accepted mapped pos total is' w'
        × (measure is' w' < measure is w))
      ⊎ ((w' : Work) × (r ≡ breaks stopped w')
          × Inv slot accepts map_fcn g size accepted mapped pos total []
              (record w' { pending = missed stopped ∷ [] })
          × (w'.input ≡ none))

  fetch-timeout :
      (e : Ec) (is : List Fetch) (w : Work)
      → e ≡ timeout
      → fetch slot accepts map_fcn size (missed e ∷ is) w
        ≡ goes_on (record w { input = none; pending = is })
  unfolding fetch
  fetch-timeout e is w h = rw h refl

  -- A round that works on the input batch `b`.
  transform-Progress :
      (is js : List Fetch) (b : Batch) (w v : Work)
      → w.input ≡ some b
      → Inv slot accepts map_fcn g size accepted mapped pos total is w
      → w.input_consumed ≤ b.head
      → (b.head - w.input_consumed + cost is < measure js v)
        ⊎ ((w.input_consumed < b.head) × (b.head - w.input_consumed + cost is ≤ measure js v))
      → Progress js v (transform slot accepts map_fcn size b w)
  transform-Progress is js b w v has inv within less =
      let (w', r, inv', i, k) =
        transform-Inv slot accepts map_fcn g size accepted mapped pos total is b w has inv in
      let stored = (subst (λ x. IsRead x w.input_consumed) has inv.reads).0 in
      let room =
        (output_of-held slot accepts map_fcn g size accepted mapped pos total w inv.room).1.0 in
      let left_now : length (unread w'.input w'.input_consumed) ≡ b.head - w'.input_consumed =
        ap (λ x. length (unread x w'.input_consumed)) (i ∙ has)
        ∙ length-unread b w'.input_consumed stored in
      inl (
        is,
        w',
        r,
        inv',
        elim less [
          | inl h ↦ omega (arith, left_now)
          | inr h ↦ let (lt, le) = h in omega (arith, left_now, k, lt, le, room)
        ],
      )

  fetch-Progress :
      (is : List Fetch) (w : Work)
      → Inv slot accepts map_fcn g size accepted mapped pos total is w
      → unread w.input w.input_consumed ≡ []
      → Progress is w (fetch slot accepts map_fcn size (is ++ missed stopped ∷ []) w)
  unfolding fetch
  fetch-Progress [] w inv used = inr (
    record w { input = none; pending = [] },
    refl,
    record {
      pending = refl;
      sound = tt;
      room = inv.room;
      reads = tt;
      full = inv.full;
      all =
          ap (λ (u : List ℕ). (joined w.sent ++ held w.output) ++ map g (u ++ [])) (sym used)
          ∙ inv.all;
    },
    refl,
  )
  fetch-Progress (missed e ∷ is) w inv used = inl (
    is,
    record w { input = none; pending = is ++ missed stopped ∷ [] },
    fetch-timeout e (is ++ missed stopped ∷ []) w inv.sound.0,
    record {
      pending = refl;
      sound = inv.sound.1;
      room = inv.room;
      reads = tt;
      full = inv.full;
      all =
          ap (λ (u : List ℕ). (joined w.sent ++ held w.output) ++ map g (u ++ supplied is))
            (sym used)
          ∙ inv.all;
    },
    omega arith,
  )
  fetch-Progress (fetched b ∷ is) w inv used =
      let next : Work = loaded slot accepts map_fcn size b (is ++ missed stopped ∷ []) w in
      transform-Progress is (fetched b ∷ is) b next w refl
        (record {
          pending = refl;
          sound = inv.sound.1;
          room = inv.room;
          reads = (inv.sound.0, omega arith);
          full = inv.full;
          all =
              ap
                (λ (k : ℕ).
                  (joined w.sent ++ held w.output) ++ map g (take k b.samples ++ supplied is))
                {x = b.head - 0} {y = b.head} (omega arith)
              ∙ ap
                  (λ (u : List ℕ).
                    (joined w.sent ++ held w.output) ++ map g (u ++ supplied (fetched b ∷ is)))
                  (sym used)
              ∙ inv.all;
        })
        (omega arith) (inl (omega arith))

  round-fetches :
      (w : Work)
      → unread w.input w.input_consumed ≡ []
      → (w.input ≡ none) ⊎ ((b : Batch) × (w.input ≡ some b) × (leb b.head w.input_consumed ≡ true))
      → round slot accepts map_fcn size w ≡ fetch slot accepts map_fcn size w.pending w
  unfolding round
  round-fetches w used (inl e) = simp (round, e)
  round-fetches w used (inr (b, e, h)) = simp (round, e, h)

  round-transforms :
      (w : Work) (b : Batch)
      → w.input ≡ some b
      → leb b.head w.input_consumed ≡ false
      → round slot accepts map_fcn size w ≡ transform slot accepts map_fcn size b w
  unfolding round
  round-transforms w b e h = simp (round, e, h)

  round-Progress :
      (is : List Fetch) (w : Work)
      → Inv slot accepts map_fcn g size accepted mapped pos total is w
      → Progress is w (round slot accepts map_fcn size w)
  round-Progress is w inv = elim (Option-cases w.input) [
    | inl e ↦ fetches (ap (λ i. unread i w.input_consumed) e) (inl e)
    | inr (b, e) ↦ elim (Bool-cases (leb b.head w.input_consumed)) [
      | inl y ↦
          fetches
            (ap (λ i. unread i w.input_consumed) e
              ∙ ap (λ (k : ℕ). take k (drop w.input_consumed b.samples)) {y = 0} (ground arith))
            (inr (b, e, y))
      | inr n ↦
          let (stored, within) = subst (λ i. IsRead i w.input_consumed) e inv.reads in
          let size_now =
            ap (λ i. length (unread i w.input_consumed)) e
            ∙ length-unread b w.input_consumed stored in
          subst (Progress is w) (sym (round-transforms w b e n)) (
            transform-Progress is is b w w e inv within
              (inr (ground arith, omega (arith, size_now))))
    ]
  ]
    where
      fetches :
          unread w.input w.input_consumed ≡ []
          → (w.input ≡ none)
            ⊎ ((b : Batch) × (w.input ≡ some b) × (leb b.head w.input_consumed ≡ true))
          → Progress is w (round slot accepts map_fcn size w)
      fetches used how =
          subst (Progress is w)
            (sym (
              round-fetches w used how ∙ ap (λ l. fetch slot accepts map_fcn size l w) inv.pending))
            (fetch-Progress is w inv used)

  rounds_of-next :
      (rounds : ℕ) (w w' : Work)
      → round slot accepts map_fcn size w ≡ goes_on w'
      → rounds_of slot accepts map_fcn size (suc rounds) w
        ≡ rounds_of slot accepts map_fcn size rounds w'
  unfolding rounds_of
  rounds_of-next rounds w w' h = rw (h, rounds_of) refl

  rounds_of-last :
      (rounds : ℕ) (w w' : Work) (e : Ec)
      → round slot accepts map_fcn size w ≡ breaks e w'
      → rounds_of slot accepts map_fcn size (suc rounds) w ≡ breaks e w'
  unfolding rounds_of
  rounds_of-last rounds w w' e h = rw (h, rounds_of) refl

  -- With enough rounds the loop uses up its input.
  rounds_of-Inv :
      (rounds : ℕ) (is : List Fetch) (w : Work)
      → Inv slot accepts map_fcn g size accepted mapped pos total is w
      → measure is w < rounds
      → (w' : Work) × (rounds_of slot accepts map_fcn size rounds w ≡ breaks stopped w')
        × Inv slot accepts map_fcn g size accepted mapped pos total []
            (record w' { pending = missed stopped ∷ [] })
        × (w'.input ≡ none)
  rounds_of-Inv zero is w inv enough = absurd (omega arith)
  rounds_of-Inv (suc rounds) is w inv enough = elim (round-Progress is w inv) [
    | inl (is', w', r, inv', less) ↦
        let (v, r', inv'', e) = rounds_of-Inv rounds is' w' inv' (omega arith) in
        (v, rounds_of-next rounds w w' r ∙ r', inv'', e)
    | inr (w', r, inv', e) ↦ (w', rounds_of-last rounds w w' stopped r, inv', e)
  ]

  leave-none : (w : Work) → w.output ≡ none → leave slot accepts map_fcn size stopped w ≡ (ok, w)
  unfolding leave
  leave-none w e = simp (leave, e)

  leave-some :
      (w : Work) (out : Batch)
      → w.output ≡ some out
      → ltb 0 out.head ≡ true
      → leave slot accepts map_fcn size stopped w ≡ (ok, record w { sent = w.sent ++ out ∷ [] })
  unfolding leave
  leave-some w out e h =
      simp (
        leave,
        e,
        h,
        accepted w.sent,
        ok-is_ok slot accepts map_fcn g size accepted mapped pos total,
      )

  leave-empty :
      (w : Work) (out : Batch)
      → w.output ≡ some out
      → ltb 0 out.head ≡ false
      → leave slot accepts map_fcn size stopped w ≡ (ok, w)
  unfolding leave
  leave-empty w out e h = simp (leave, e, h)

  abbrev Ended : Ec × Work → Type 0
  Ended r = (r.0 ≡ ok) × Packed size (map g total) r.1.sent

  leave-Packed :
      (w : Work)
      → Inv slot accepts map_fcn g size accepted mapped pos total []
          (record w { pending = missed stopped ∷ [] })
      → w.input ≡ none
      → Ended (leave slot accepts map_fcn size stopped w)
  leave-Packed w inv e =
      let all : joined w.sent ++ held w.output ≡ map g total =
        sym (append-nil (joined w.sent ++ held w.output))
        ∙ ap (λ i. (joined w.sent ++ held w.output) ++ map g (unread i w.input_consumed ++ []))
            (sym e)
        ∙ inv.all in
      elim (Option-cases w.output) [
        | inl o ↦ subst Ended (sym (leave-none w o)) (
          refl,
          (
            w.sent,
            [],
            sym (append-nil w.sent),
            inv.full,
            tt,
            sym (append-nil (joined w.sent)) ∙ ap (λ x. joined w.sent ++ held x) (sym o) ∙ all,
          ),
        )
        | inr (out, o) ↦
            let room = subst (HasRoom size) o inv.room in
            elim (Bool-cases (ltb 0 out.head)) [
              | inl y ↦ subst Ended (sym (leave-some w out o y)) (
                refl,
                (
                  w.sent,
                  out ∷ [],
                  refl,
                  inv.full,
                  (ltb→lt 0 out.head y, room.0),
                  joined-snoc w.sent out ∙ ap (λ x. joined w.sent ++ held x) (sym o) ∙ all,
                ),
              )
              | inr n ↦ subst Ended (sym (leave-empty w out o n)) (
                refl,
                (
                  w.sent,
                  [],
                  sym (append-nil w.sent),
                  inv.full,
                  tt,
                  sym (append-nil (joined w.sent))
                      ∙ ap (λ (k : ℕ). joined w.sent ++ take k out.samples) {x = 0} {y = out.head}
                          (ground arith)
                      ∙ ap (λ x. joined w.sent ++ held x) (sym o)
                      ∙ all,
                ),
              )
            ]
      ]

-- The worker before its first round.
abbrev pub fresh : List Fetch → Work
fresh is = record {
  input = none;
  input_consumed = 0;
  input_t_ns = 0;
  input_period_ns = 0;
  output = none;
  samples_processed = 0;
  n_batches = 0;
  pending = is;
  sent = [];
}

-- A map filter loses, repeats and reorders no sample: with enough rounds the worker uses up its
-- input and leaves without an error, having sent full batches, then at most one that is not full,
-- which hold just the results of the function on the samples of the input, in their order. This
-- for a valid configuration, an input that times out, gives batches and at last is stopped, a sink
-- that takes every batch, and a function that maps each sample on its own.
pub map_worker-Packed :
    (slot : List Batch → Batch) (accepts : List Batch → Ec) (map_fcn : List ℕ → Ec × List ℕ)
    (g : ℕ → ℕ) (size : ℕ) (has_sink has_fcn : Bool) (input_dtype sink_dtype rounds : ℕ)
    (is : List Fetch)
    → ((bs : List Batch) → accepts bs ≡ ok)
    → ((xs : List ℕ) → map_fcn xs ≡ (ok, map g xs))
    → 0 < size
    → misconfigured has_sink has_fcn input_dtype sink_dtype ≡ false
    → Sound is
    → cost is < rounds
    → (w : Work) × (map_worker slot accepts map_fcn size has_sink has_fcn input_dtype sink_dtype
          rounds
          (fresh (is ++ missed stopped ∷ []))
        ≡ some (ok, w))
      × Packed size (map g (supplied is)) w.sent
unfolding map_worker
map_worker-Packed slot accepts map_fcn g size has_sink has_fcn input_dtype sink_dtype rounds is
      accepted mapped pos valid sound enough =
    let w0 : Work = fresh (is ++ missed stopped ∷ []) in
    let (w, r, inv, e) =
      rounds_of-Inv slot accepts map_fcn g size accepted mapped pos (supplied is) rounds is w0
        (record { pending = refl; sound = sound; room = tt; reads = tt; full = tt; all = refl })
        (omega arith) in
    let (fine, packed) =
      leave-Packed slot accepts map_fcn g size accepted mapped pos (supplied is) w inv e in
    let left_it : Ec × Work = leave slot accepts map_fcn size stopped w in
    (left_it.1, rw (valid, r) (ap (λ (e' : Ec). some (e', left_it.1)) fine), packed)
