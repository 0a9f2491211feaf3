-- ===== src/Matcher/Flush.antt =====
-- What batch_matcher_worker (bpipe/batch_matcher.c) sends at the end of its input.
use mathlib.Core.List.{append_assoc, append-nil}
use bpipe.Base.{
  ℕ, ◌<◌, ◌≡◌, refl, sym, ap, ◌∙◌, true, false, inl, inr, none, some, List, [], ◌∷◌, ◌++◌, arith,
  take, ltb, ltb→lt, Bool-cases, Option-cases, subst,
}
use bpipe.Err.{complete}
use bpipe.Batches.{joined, joined-snoc}
use bpipe.Ring.{Batch}
use bpipe.Matcher.{Work, finish, flush, cut_short}
use bpipe.Matcher.Cut.{Inv, Grid, grid_end}

-- What follows the full batches: the rest of the samples, if any, from the time `t` on, and the
-- end of the stream.
abbrev pub Closing : ℕ → ℕ → List Batch → Type 0
Closing n t (c ∷ []) = (c.head ≡ 0) × (c.ec ≡ complete)
Closing n t (b ∷ c ∷ []) =
    ((0 < b.head) × (b.head < n) × (b.t_ns ≡ t)) × (c.head ≡ 0) × (c.ec ≡ complete)
Closing n t _ = ⊥

module _ (slot : List Batch → Batch) (n p start : ℕ) where
  -- The full batches, the closing ones and what they hold.
  abbrev pub Sent : List ℕ → List Batch → Type 0
  Sent samples sent =
      (full last : List Batch) × (sent ≡ full ++ last)
      × Grid n p start full
      × Closing n (grid_end n p start full) last
      × (joined sent ≡ samples)

  -- What a flush sends.
  abbrev Rest : List Batch → List Batch → Type 0
  Rest full [] = Unit
  Rest full (b ∷ []) = (0 < b.head) × (b.head < n) × (b.t_ns ≡ grid_end n p start full)
  Rest full _ = ⊥

  abbrev Flushed : List ℕ → List Batch → Work → Type 0
  Flushed done full w =
      (rest : List Batch) × (w.sent ≡ full ++ rest) × Rest full rest × (joined w.sent ≡ done)

  flush-none : (w : Work) → w.output ≡ none → flush w ≡ w
  unfolding flush
  flush-none w e = simp (flush, e)

  flush-more :
      (w : Work) (out : Batch)
      → w.output ≡ some out
      → ltb 0 w.bm.accumulated ≡ true
      → (flush w).sent ≡ w.sent ++ cut_short out w.bm ∷ []
  unfolding flush
  flush-more w out e more = simp (flush, e, more)

  flush-no_more :
      (w : Work) (out : Batch)
      → w.output ≡ some out
      → ltb 0 w.bm.accumulated ≡ false
      → (flush w).sent ≡ w.sent
  unfolding flush
  flush-no_more w out e more = simp (flush, e, more)

  flush-Flushed :
      (done : List ℕ) (w : Work)
      → Inv n p start done w.output w.bm w.sent
      → Flushed done w.sent (flush w) × Grid n p start w.sent
  flush-Flushed done w inv = elim (Option-cases w.output) [
    | inl e ↦
        let r = subst (λ o. Inv n p start done o w.bm w.sent) e inv in
        let same = ap (λ (v : Work). v.sent) (flush-none w e) in
        (([], same ∙ sym (append-nil w.sent), tt, ap joined same ∙ r.all), r.grid)
    | inr (out, e) ↦
        let r = subst (λ o. Inv n p start done o w.bm w.sent) e inv in
        elim (Bool-cases (ltb 0 w.bm.accumulated)) [
          | inl more ↦
              let b : Batch = cut_short out w.bm in
              let new = flush-more w out e more in
              (
                (
                  b ∷ [],
                  new,
                  (ltb→lt 0 w.bm.accumulated more, r.room, r.out_start ∙ r.boundary),
                  ap joined new ∙ joined-snoc w.sent b ∙ r.all,
                ),
                r.grid,
              )
          | inr no_more ↦
              let same = flush-no_more w out e no_more in
              let nothing : w.bm.accumulated ≡ 0 = ground arith in
              (
                (
                  [],
                  same ∙ sym (append-nil w.sent),
                  tt,
                  ap joined same
                      ∙ sym (append-nil (joined w.sent))
                      ∙ ap (λ (k : ℕ). joined w.sent ++ take k out.samples) (sym nothing)
                      ∙ r.all,
                ),
                r.grid,
              )
        ]
  ]

  close :
      (full rest : List Batch) (c : Batch)
      → Rest full rest
      → c.head ≡ 0
      → c.ec ≡ complete
      → Closing n (grid_end n p start full) (rest ++ c ∷ [])
  close full [] c r h e = (h, e)
  close full (b ∷ []) c r h e = (r, h, e)
  close full (b ∷ d ∷ bs) c r h e = absurd r

  pub finish-Sent :
      (done : List ℕ) (w : Work)
      → Inv n p start done w.output w.bm w.sent
      → Sent done (finish slot w).sent
  unfolding finish
  finish-Sent done w inv =
      let ((rest, sent, r, all), grid) = flush-Flushed done w inv in
      let c : Batch = record (slot (flush w).sent) { head = 0; ec = complete } in
      (
        w.sent,
        rest ++ c ∷ [],
        ap (λ (l : List Batch). l ++ c ∷ []) sent ∙ append_assoc w.sent rest (c ∷ []),
        grid,
        close w.sent rest c r refl refl,
        joined-snoc (flush w).sent c ∙ append-nil (joined (flush w).sent) ∙ all,
      )
