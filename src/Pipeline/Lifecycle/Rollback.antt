-- ===== src/Pipeline/Lifecycle/Rollback.antt =====
-- pipeline_start of bpipe/pipeline.c starts all filters or none.
use bpipe.Base.{
  ℕ, ◌≡◌, ◌≢◌, ◌⊎◌, inl, inr, refl, sym, ap, ◌∙◌, subst, true, false, List, [], ◌∷◌, ◌==◌,
  Bool-cases, ==_iff, ==_refl, ==_false, All,
}
use bpipe.Err.{Ec, ok, is_ok, is_ok→eq, null_filter}
use bpipe.Filter
use bpipe.Filter.{Filter, State, Custom, filt_t_ndef}
use bpipe.Pipeline.{FilterRef, null, Pipeline}
use bpipe.Pipeline.Lifecycle.{
  Ops, World, state_of, updated, start_at, stop_at, stop_all, start_all, pipeline_start,
}

abbrev pub IsUp : State → Type 0
IsUp s = (s.filter.running ≡ true) × ((s.filter.filt_type == filt_t_ndef) ≡ false)

-- What pipeline_start relies on of the filters' own operations: a start that succeeds leaves the
-- filter running, one that fails leaves it running or not as before, and what it was, and a stop of a filter that
-- was set up leaves it stopped and set up.
pub record Reliable (o : Ops) : Type 0 where
  pub starts :
      (s : State)
      → ((is_ok (Filter.start o.start_op o.created s).0 ≡ true)
          × IsUp (Filter.start o.start_op o.created s).1)
        ⊎ ((is_ok (Filter.start o.start_op o.created s).0 ≡ false)
            × ((Filter.start o.start_op o.created s).1.filter.running ≡ s.filter.running)
            × ((Filter.start o.start_op o.created s).1.filter.filt_type ≡ s.filter.filt_type))
  pub stops :
      (s : State)
      → (s.filter.filt_type == filt_t_ndef) ≡ false
      → ((Filter.stop o.stop_op o.joined s).1.filter.running ≡ false)
        × (((Filter.stop o.stop_op o.joined s).1.filter.filt_type == filt_t_ndef) ≡ false)

abbrev Stopped : World → FilterRef → Type 0
Stopped w f = (w.filters f).running ≡ false

abbrev Running : World → FilterRef → Type 0
Running w f = (w.filters f).running ≡ true

abbrev SetUp : World → FilterRef → Type 0
SetUp w f = ((w.filters f).filt_type == filt_t_ndef) ≡ false

-- A filter that has been started by the loop.
abbrev Started : World → FilterRef → Type 0
Started w f = ((f == null) ≡ false) × SetUp w f

abbrev IsDown : Filter → Type 0
IsDown x = x.running ≡ false

abbrev IsUpAt : Filter → Type 0
IsUpAt x = x.running ≡ true

abbrev IsSetUp : Filter → Type 0
IsSetUp x = (x.filt_type == filt_t_ndef) ≡ false

All-map :
    {P Q : FilterRef → Type 0} (fs : List FilterRef)
    → ((f : FilterRef) → P f → Q f)
    → All P fs
    → All Q fs
All-map [] h a = tt
All-map (f ∷ fs) h (p, a) = (h f p, All-map fs h a)

abbrev Member : FilterRef → List FilterRef → Type 0
Member f [] = ⊥
Member f (g ∷ gs) = (f ≡ g) ⊎ Member f gs

updated_self : (f : FilterRef) (s : State) (w : World) → (updated f s w).filters f ≡ s.filter
updated_self f s w = rw (==_refl f) refl

updated_other :
    (f g : FilterRef) (s : State) (w : World) → g ≢ f → (updated f s w).filters g ≡ w.filters g
updated_other f g s w ne = rw (==_false g f ne) refl

-- A predicate on a filter of the pipeline after an update.
module _ (P : Filter → Type 0) (f : FilterRef) (s : State) (w : World) where
  at_self : P s.filter → P ((updated f s w).filters f)
  at_self h = subst P (sym (updated_self f s w)) h

  at_any : (g : FilterRef) → P s.filter → (g ≢ f → P (w.filters g)) → P ((updated f s w).filters g)
  at_any g h k = elim (Bool-cases (g == f)) [
    | inl y ↦
        subst (λ (x : FilterRef). P ((updated f s w).filters x)) (sym ((==_iff g f).0 y))
          (at_self h)
    | inr n ↦
        let ne : g ≢ f = λ e. let y : (g == f) ≡ true = (==_iff g f).1 e in cc in
        subst P (sym (updated_other f g s w ne)) (k ne)
  ]

  other : (g : FilterRef) → (g == f) ≡ false → P (w.filters g) → P ((updated f s w).filters g)
  other g n h =
      let ne : g ≢ f = λ e. let y : (g == f) ≡ true = (==_iff g f).1 e in cc in
      subst P (sym (updated_other f g s w ne)) h

  at_kept :
      (g : FilterRef)
      → (P (w.filters f) → P s.filter)
      → P (w.filters g)
      → P ((updated f s w).filters g)
  at_kept g keep h = elim (Bool-cases (g == f)) [
    | inl y ↦
        let e : g ≡ f = (==_iff g f).0 y in
        subst (λ (x : FilterRef). P ((updated f s w).filters x)) (sym e)
          (at_self (keep (subst (λ (x : FilterRef). P (w.filters x)) e h)))
    | inr n ↦ other g n h
  ]

module _ (ops : FilterRef → Ops) (reliable : (f : FilterRef) → Reliable (ops f)) where
  abbrev stopped_state : FilterRef → World → State
  stopped_state f w = (Filter.stop (ops f).stop_op (ops f).joined (state_of w f)).1

  stop_at-updated :
      (f : FilterRef) (w : World)
      → (f == null) ≡ false
      → stop_at ops f w ≡ updated f (stopped_state f w) w
  unfolding stop_at
  stop_at-updated f w h = rw h refl

  abbrev started_pair : FilterRef → World → Ec × State
  started_pair f w = Filter.start (ops f).start_op (ops f).created (state_of w f)

  start_at-updated :
      (f : FilterRef) (w : World)
      → (f == null) ≡ false
      → start_at ops f w ≡ ((started_pair f w).0, updated f (started_pair f w).1 w)
  unfolding start_at
  start_at-updated f w h = rw h refl

  -- Every filter is stopped or among those to be stopped.
  abbrev Covered : List FilterRef → World → Type 0
  Covered gs w = (f : FilterRef) → Stopped w f ⊎ Member f gs

  stop_all-Stopped :
      (gs : List FilterRef) (w : World)
      → All (Started w) gs
      → Covered gs w
      → (f : FilterRef) → Stopped (stop_all ops gs w) f
  unfolding stop_all
  stop_all-Stopped [] w a c f = elim (c f) [ inl h ↦ h | inr h ↦ absurd h ]
  stop_all-Stopped (g ∷ gs) w ((some_filter, up), a) c f =
      let (down, still) = (reliable g).stops (state_of w g) up in
      let s : State = stopped_state g w in
      subst (λ v. Stopped (stop_all ops gs v) f) (sym (stop_at-updated g w some_filter))
        (stop_all-Stopped gs (updated g s w)
          (All-map gs (λ h (n, u). (n, at_any IsSetUp g s w h still (λ ne. u))) a)
          (λ h. elim (c h) [
            | inl halted ↦ inl (at_any IsDown g s w h down (λ ne. halted))
            | inr (inl e) ↦ inl (
                subst (λ (x : FilterRef). Stopped (updated g s w) x) (sym e)
                  (at_self IsDown g s w down))
            | inr (inr m) ↦ inr m
          ])
          f)

  -- What the loop of pipeline_start comes to.
  abbrev Ends : List FilterRef → List FilterRef → Ec × World → Type 0
  Ends fs started r =
      ((is_ok r.0 ≡ true)
        × All (Running r.1) fs
        × ((f : FilterRef) → Member f started → Running r.1 f))
      ⊎ ((is_ok r.0 ≡ false) × ((f : FilterRef) → Stopped r.1 f))

  start_all-next :
      (f : FilterRef) (fs started : List FilterRef) (w : World) (r : Ec × World)
      → start_at ops f w ≡ r
      → is_ok r.0 ≡ true
      → start_all ops (f ∷ fs) started w ≡ start_all ops fs (f ∷ started) r.1
  unfolding start_all
  start_all-next f fs started w r e y = rw (e, y) refl

  start_all-fail :
      (f : FilterRef) (fs started : List FilterRef) (w : World) (r : Ec × World)
      → start_at ops f w ≡ r
      → is_ok r.0 ≡ false
      → start_all ops (f ∷ fs) started w ≡ (r.0, stop_all ops started r.1)
  unfolding start_all
  start_all-fail f fs started w r e n = rw (e, n) refl

  start_at-null :
      (f : FilterRef) (w : World) → (f == null) ≡ true → start_at ops f w ≡ (null_filter, w)
  unfolding start_at
  start_at-null f w h = rw h refl

  null_filter-is_ok : is_ok null_filter ≡ false
  unfolding is_ok
  null_filter-is_ok = refl

  -- A filter that does not start.
  fails-Ends :
      (f : FilterRef) (fs started : List FilterRef) (w : World) (r : Ec × World)
      → start_at ops f w ≡ r
      → is_ok r.0 ≡ false
      → All (Started r.1) started
      → Covered started r.1
      → Ends (f ∷ fs) started (start_all ops (f ∷ fs) started w)
  fails-Ends f fs started w r e n a c =
      subst (Ends (f ∷ fs) started) (sym (start_all-fail f fs started w r e n))
        (inr (n, stop_all-Stopped started r.1 a c))

  -- A filter that does, and then the rest.
  starts-Ends :
      (f : FilterRef) (fs started : List FilterRef) (w : World) (r : Ec × World)
      → start_at ops f w ≡ r
      → is_ok r.0 ≡ true
      → Ends fs (f ∷ started) (start_all ops fs (f ∷ started) r.1)
      → Ends (f ∷ fs) started (start_all ops (f ∷ fs) started w)
  starts-Ends f fs started w r e y (inl (fine, all, up)) =
      subst (Ends (f ∷ fs) started) (sym (start_all-next f fs started w r e y))
        (inl (fine, (up f (inl refl), all), λ g m. up g (inr m)))
  starts-Ends f fs started w r e y (inr h) =
      subst (Ends (f ∷ fs) started) (sym (start_all-next f fs started w r e y)) (inr h)

  start_all-Ends :
      (fs started : List FilterRef) (w : World)
      → All (Started w) started
      → ((f : FilterRef) → Member f started → Running w f)
      → Covered started w
      → Ends fs started (start_all ops fs started w)
  unfolding start_all is_ok
  start_all-Ends [] started w a up c = inl (refl, tt, up)
  start_all-Ends (f ∷ fs) started w a up c = elim (Bool-cases (f == null)) [
    | inl y ↦ fails-Ends f fs started w (null_filter, w) (start_at-null f w y) null_filter-is_ok a c
    | inr n ↦
        let s : State = (started_pair f w).1 in
        elim ((reliable f).starts (state_of w f)) [
          | inl (fine, up_f) ↦
              starts-Ends f fs started w ((started_pair f w).0, updated f s w)
                (start_at-updated f w n) fine
                (start_all-Ends fs (f ∷ started) (updated f s w)
                  (
                    (n, at_self IsSetUp f s w up_f.1),
                    All-map started (λ g (k, u). (k, at_kept IsSetUp f s w g (λ x. up_f.1) u)) a,
                  )
                  (λ g m. elim m [
                    | inl e ↦
                        subst (λ (x : FilterRef). Running (updated f s w) x) (sym e)
                          (at_self IsUpAt f s w up_f.0)
                    | inr m' ↦ at_kept IsUpAt f s w g (λ x. up_f.0) (up g m')
                  ])
                  (λ g. elim (Bool-cases (g == f)) [
                    | inl y ↦ inr (inl ((==_iff g f).0 y))
                    | inr ne ↦ elim (c g) [
                      | inl down ↦ inl (other IsDown f s w g ne down)
                      | inr m ↦ inr (inr m)
                    ]
                  ]))
          | inr (bad, same, kind) ↦
              fails-Ends f fs started w ((started_pair f w).0, updated f s w)
                (start_at-updated f w n) bad
                (All-map started
                  (λ g (k, u).
                    (k, at_kept IsSetUp f s w g (λ x. ap (λ (t : ℕ). t == filt_t_ndef) kind ∙ x) u))
                  a)
                (λ g. elim (c g) [
                  | inl down ↦ inl (at_kept IsDown f s w g (λ x. same ∙ x) down)
                  | inr m ↦ inr m
                ])
        ]
  ]

  -- Starting a pipeline none of whose filters runs starts all of them or none: either it succeeds
  -- and all its filters run, or it fails and no filter runs. Each filter's own start is relied on
  -- to leave it running if it succeeds and as it was if it fails, and its stop to stop it.
  pub pipeline_start_rolls_back :
      (p : Pipeline) (w : World) (f : FilterRef)
      → ((g : FilterRef) → (w.filters g).running ≡ false)
      → (((pipeline_start ops p w).0 ≡ ok)
          × All (λ g. ((pipeline_start ops p w).1.filters g).running ≡ true) p.filters)
        ⊎ ((is_ok (pipeline_start ops p w).0 ≡ false)
            × (((pipeline_start ops p w).1.filters f).running ≡ false))
  unfolding pipeline_start
  pipeline_start_rolls_back p w f idle =
      elim (start_all-Ends p.filters [] w tt (λ g m. absurd m) (λ g. inl (idle g))) [
        | inl (fine, all, up) ↦ inl (is_ok→eq _ fine, all)
        | inr (bad, down) ↦ inr (bad, down f)
      ]
