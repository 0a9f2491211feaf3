-- ===== src/MapFilter/Fill.antt =====
-- A round of map_worker (bpipe/map.c) that works on an input batch.
use mathlib.Core.List.{append_assoc, append-nil}
use bpipe.Base.{
  ℕ, ◌+◌, ◌-◌, ◌≤◌, ◌<◌, ◌≡◌, refl, sym, ap, ap₂, ◌∙◌, inl, inr, true, false, none, some, List, [],
  ◌∷◌, ◌++◌, arith, ltb, leb, Bool-cases, Option-cases, length, take, drop, length-take,
  length-drop, min, u64, map, subst, All, ◌==◌,
}
use bpipe.Err.{Ec, ok, stopped, is_ok}
use bpipe.Batches.{joined, joined-snoc, length-overwrite, overwrite, readable, take-overwrite}
use bpipe.Ring.{Batch}
use bpipe.MapFilter.{
  Fetch, missed, Work, Round, goes_on, output_of, submit_full, filled, consumed, transform,
}
use bpipe.MapFilter.Stream.{
  map-append, length-map, held, unread, supplied, Sound, HasRoom, IsRead, unread-split,
}

module _ (slot : List Batch → Batch) (accepts : List Batch → Ec) (map_fcn : List ℕ → Ec × List ℕ)
    (g : ℕ → ℕ) (size : ℕ) (accepted : (bs : List Batch) → accepts bs ≡ ok)
    (mapped : (xs : List ℕ) → map_fcn xs ≡ (ok, map g xs)) (pos : 0 < size) (total : List ℕ) where
  -- What was sent, what is held and what is to come make up the results.
  pub record Inv (is : List Fetch) (w : Work) : Type 0 where
    pub pending : w.pending ≡ is ++ missed stopped ∷ []
    pub sound : Sound is
    pub room : HasRoom size w.output
    pub reads : IsRead w.input w.input_consumed
    pub full : All (λ b. b.head ≡ size) w.sent
    pub all :
        (joined w.sent ++ held w.output) ++ map g (unread w.input w.input_consumed ++ supplied is)
        ≡ map g total

  pub ok-is_ok : is_ok ok ≡ true
  unfolding is_ok
  ok-is_ok = refl

  abbrev pub the_output : Work → Batch
  the_output = output_of slot accepts map_fcn size

  output_of-none : (w : Work) → w.output ≡ none → the_output w ≡ record (slot w.sent) { head = 0 }
  unfolding output_of
  output_of-none w e = simp (output_of, e)

  output_of-some : (w : Work) (out : Batch) → w.output ≡ some out → the_output w ≡ out
  unfolding output_of
  output_of-some w out e = simp (output_of, e)

  pub output_of-held :
      (w : Work)
      → HasRoom size w.output
      → (readable (the_output w) ≡ held w.output) × HasRoom size (some (the_output w))
  output_of-held w r = elim (Option-cases w.output) [
    | inl e ↦
        let new = sym (output_of-none w e) in
        (
          ap readable (sym new) ∙ ap held (sym e),
          subst (λ x. HasRoom size (some x)) new (pos, omega arith),
        )
    | inr (out, e) ↦
        let same = sym (output_of-some w out e) in
        (
          ap readable (sym same) ∙ ap held (sym e),
          subst (λ x. HasRoom size (some x)) same (subst (HasRoom size) e r),
        )
  ]

  All-snoc :
      (bs : List Batch) (b : Batch)
      → All (λ b. b.head ≡ size) bs
      → b.head ≡ size
      → All (λ b. b.head ≡ size) (bs ++ b ∷ [])
  All-snoc [] b a h = (h, tt)
  All-snoc (c ∷ bs) b (k, a) h = (k, All-snoc bs b a h)

  -- The end of a round with the output batch `out`.
  submit_full-Inv :
      (is : List Fetch) (out : Batch) (w : Work)
      → w.pending ≡ is ++ missed stopped ∷ []
      → Sound is
      → IsRead w.input w.input_consumed
      → All (λ b. b.head ≡ size) w.sent
      → out.head ≤ size
      → out.head ≤ length out.samples
      → (joined w.sent ++ readable out) ++ map g (unread w.input w.input_consumed ++ supplied is)
        ≡ map g total
      → (w' : Work) × (submit_full slot accepts map_fcn size out w ≡ goes_on w')
        × Inv is w'
        × (w'.input ≡ w.input)
        × (w'.input_consumed ≡ w.input_consumed)
  unfolding submit_full
  submit_full-Inv is out w p s r f below stored all = elim (Bool-cases (leb size out.head)) [
    | inl y ↦
        let w' : Work = record w {
          output = none;
          sent = w.sent ++ out ∷ [];
          n_batches = u64 (w.n_batches + 1);
        } in
        (
          w',
          simp (y, accepted w.sent, ok-is_ok),
          record {
            pending = p;
            sound = s;
            room = tt;
            reads = r;
            full = All-snoc w.sent out f (ground arith);
            all =
                ap (λ l. l ++ map g (unread w.input w.input_consumed ++ supplied is))
                  (append-nil (joined (w.sent ++ out ∷ [])) ∙ joined-snoc w.sent out)
                ∙ all;
          },
          refl,
          refl,
        )
    | inr n ↦ (
      record w { output = some out },
      simp n,
      record {
        pending = p;
        sound = s;
        room = (ground arith, stored);
        reads = r;
        full = f;
        all = all;
      },
      refl,
      refl,
    )
  ]

  filled-parts :
      (n : ℕ) (ys : List ℕ) (out : Batch) (w : Work)
      → ((filled slot accepts map_fcn size n ys out w).head ≡ out.head + n)
        × ((filled slot accepts map_fcn size n ys out w).samples
            ≡ overwrite out.head ys out.samples)
  unfolding filled
  filled-parts n ys out w = elim (Bool-cases (out.head + n == n)) [
    | inl y ↦ simp y (refl, refl)
    | inr k ↦ simp k (refl, refl)
  ]

  filled-readable :
      (n : ℕ) (ys : List ℕ) (out : Batch) (w : Work)
      → length ys ≡ n
      → out.head ≤ length out.samples
      → (readable (filled slot accepts map_fcn size n ys out w) ≡ readable out ++ ys)
        × (out.head + n ≤ length (filled slot accepts map_fcn size n ys out w).samples)
  filled-readable n ys out w len stored =
      let (h, s) = filled-parts n ys out w in
      let enough = length-overwrite out.head ys out.samples stored in
      (
        ap₂ take (h ∙ ap (λ (k : ℕ). out.head + k) (sym len)) s
            ∙ take-overwrite out.head ys out.samples stored,
        omega (arith, enough, ap length s),
      )

  repacked :
      (j r xs u rest : List ℕ)
      → (j ++ (r ++ map g xs)) ++ map g (u ++ rest) ≡ (j ++ r) ++ map g ((xs ++ u) ++ rest)
  repacked j r xs u rest =
      ap (λ l. l ++ map g (u ++ rest)) (sym (append_assoc j r (map g xs)))
      ∙ append_assoc (j ++ r) (map g xs) (map g (u ++ rest))
      ∙ ap (λ l. (j ++ r) ++ l)
          (sym (map-append g xs (u ++ rest)) ∙ ap (map g) (sym (append_assoc xs u rest)))

  transform-none :
      (b : Batch) (w : Work)
      → ltb 0 (min (b.head - w.input_consumed) (size - (the_output w).head)) ≡ false
      → transform slot accepts map_fcn size b w
        ≡ submit_full slot accepts map_fcn size (the_output w) w
  unfolding transform
  transform-none b w h = rw h refl

  transform-some :
      (b : Batch) (w : Work) (n : ℕ)
      → n ≡ min (b.head - w.input_consumed) (size - (the_output w).head)
      → ltb 0 n ≡ true
      → transform slot accepts map_fcn size b w
        ≡ submit_full slot accepts map_fcn size
            (filled slot accepts map_fcn size n
              (map g (take n (drop w.input_consumed b.samples)))
              (the_output w)
              w)
            (consumed slot accepts map_fcn size n w)
  unfolding transform
  transform-some b w n e h =
      rw (← e, h, mapped (take n (drop w.input_consumed b.samples)), ok-is_ok) refl

  -- A round's work on its input batch.
  abbrev pub Onward : List Fetch → Batch → Work → Round → Type 0
  Onward is b w r =
      (w' : Work) × (r ≡ goes_on w')
      × Inv is w'
      × (w'.input ≡ w.input)
      × (w'.input_consumed
          ≡ w.input_consumed + min (b.head - w.input_consumed) (size - (the_output w).head))

  pub transform-Inv :
      (is : List Fetch) (b : Batch) (w : Work)
      → w.input ≡ some b
      → Inv is w
      → Onward is b w (transform slot accepts map_fcn size b w)
  transform-Inv is b w has inv =
      let c : ℕ = w.input_consumed in
      let out : Batch = the_output w in
      let n : ℕ = min (b.head - c) (size - out.head) in
      let xs : List ℕ = take n (drop c b.samples) in
      let (same, (below, kept)) = output_of-held w inv.room in
      let (stored, within) = subst (λ i. IsRead i c) has inv.reads in
      elim (Bool-cases (ltb 0 n)) [
        | inr none_left ↦
            let (w', r, inv', i, k) =
              submit_full-Inv is out w inv.pending inv.sound inv.reads inv.full (omega arith) kept (
                ap (λ l. (joined w.sent ++ l) ++ map g (unread w.input c ++ supplied is)) same
                ∙ inv.all) in
            (w', transform-none b w none_left ∙ r, inv', i, k ∙ ground arith)
        | inl more ↦
            let len : length (map g xs) ≡ n =
              length-map g xs
              ∙ length-take n (drop c b.samples) (omega (arith, length-drop c b.samples)) in
            let out' : Batch = filled slot accepts map_fcn size n (map g xs) out w in
            let (r_out, s_out) = filled-readable n (map g xs) out w len kept in
            let (h_out, s) = filled-parts n (map g xs) out w in
            let (w', r, inv', i, k) =
              submit_full-Inv is out' (consumed slot accepts map_fcn size n w) inv.pending inv.sound
                (subst (λ i. IsRead i (c + n)) (sym has) (stored, omega arith)) inv.full
                (omega (arith, h_out)) (omega (arith, h_out, s_out))
                (ap₂
                    (λ (l : List ℕ) i.
                      (joined w.sent ++ l) ++ map g (unread i (c + n) ++ supplied is))
                    r_out has
                  ∙ repacked (joined w.sent) (readable out) xs (unread (some b) (c + n))
                      (supplied is)
                  ∙ ap₂ (λ (l u : List ℕ). (joined w.sent ++ l) ++ map g (u ++ supplied is)) same
                      (sym (unread-split b c n (omega arith)) ∙ ap (λ i. unread i c) (sym has))
                  ∙ inv.all) in
            (w', transform-some b w n refl more ∙ r, inv', i, k)
      ]
