-- ===== src/Pipeline/Setup/Built.antt =====
-- What pipeline_init of bpipe/pipeline.c has set up when it succeeds, for filters with the default
-- operation of filt_sink_connect.
use bpipe.Base.{
  if◌then◌else◌, ◌<◌, ◌≡◌, ◌≢◌, refl, sym, ap, ◌∙◌, subst, inl, inr, Bool, true, false, not, ◌&&◌,
  List, [], ◌∷◌, arith, ◌==◌, ==_iff, Bool-cases, All, length, get_or, get_or-set_self,
}
use bpipe.Err.{Ec, null_pointer, invalid_config, ok, is_ok, is_ok→eq}
use bpipe.Filter.{State, Heap, BufRef, input}
use bpipe.Filter.Lifecycle.Created.{clash, is_ok-alloc, is_ok-ok}
use bpipe.Filter.Lifecycle.Single.{init-IsSingle}
use bpipe.Filter.Kind.{Platform, kind_config, kind_init}
use bpipe.Pipeline.{FilterRef, Connection, contains_filter}
use bpipe.Pipeline.Validate.{Store}
use bpipe.Pipeline.Sort.Graph.{In}
use bpipe.Pipeline.Sort.Visit.{Closed}
use bpipe.Pipeline.Setup.{
  World, Granted, PipelineConfig, are_known, connect_all, share_input, pipeline_init,
  filt_t_pipeline,
}
use bpipe.Pipeline.Setup.Joined.{default_ops, IsSized, IsJoined, connect_all-Joined}

-- The filters that the pipeline contains.
contains_filter-In : (fs : List FilterRef) (f : FilterRef) → contains_filter fs f ≡ true → In f fs
unfolding contains_filter
contains_filter-In [] f k = absurd (clash k)
contains_filter-In (g ∷ gs) f k = elim (Bool-cases (g == f)) [
  | inl y ↦ inl (sym ((==_iff g f).0 y))
  | inr n ↦ inr (contains_filter-In gs f (ground arith))
]

-- Both ends of the connection are filters of the pipeline.
abbrev pub IsInside : List FilterRef → Connection → Type 0
IsInside fs c = In c.from_filter fs × In c.to_filter fs

are_known-IsInside :
    (fs : List FilterRef) (cs : List Connection) → are_known fs cs ≡ true → All (IsInside fs) cs
unfolding are_known
are_known-IsInside fs [] k = tt
are_known-IsInside fs (c ∷ cs) k = (
  (
    contains_filter-In fs c.from_filter (ground arith),
    contains_filter-In fs c.to_filter (ground arith),
  ),
  are_known-IsInside fs cs (ground arith),
)

all-Closed : (fs : List FilterRef) (cs : List Connection) → All (IsInside fs) cs → Closed fs cs
all-Closed fs [] hs c i = absurd i
all-Closed fs (d ∷ cs) hs c (inl e) = subst (λ (x : Connection). In x.to_filter fs) (sym e) hs.0.1
all-Closed fs (d ∷ cs) hs c (inr i) = all-Closed fs cs hs.1 c i

-- A pipeline that has been set up from a configuration.
pub record IsBuilt (c : PipelineConfig) (w : World) : Type 0 where
  pub filters : w.pipeline.filters ≡ c.filters
  pub connections : w.pipeline.connections ≡ c.connections
  pub closed : Closed w.pipeline.filters w.pipeline.connections
  pub inside : All (IsInside c.filters) c.connections
  pub joined : All (IsJoined w.filters) c.connections
  pub entry : In c.input_filter c.filters
  pub exit : In c.output_filter c.filters
  pub shared : input w.base.filter 0 ≡ input (w.filters c.input_filter) c.input_port

is_ok-null_pointer : is_ok null_pointer ≡ false
unfolding is_ok
is_ok-null_pointer = refl

is_ok-invalid_config : is_ok invalid_config ≡ false
unfolding is_ok
is_ok-invalid_config = refl

negated_false : (b : Bool) → not b ≡ true → b ≡ false
negated_false true e = absurd (clash e)
negated_false false e = refl

negated_true : (b : Bool) → not b ≡ false → b ≡ true
negated_true true e = refl
negated_true false e = absurd (clash (sym e))

both : (a b : Bool) → not (a && b) ≡ false → (a ≡ true) × (b ≡ true)
both true b e = (refl, negated_true b e)
both false b e = absurd (clash (sym e))

not_empty : (rs : List BufRef) → get_or rs 0 0 ≢ 0 → 0 < length rs
not_empty [] n = absurd (n refl)
not_empty (r ∷ rs) n = omega arith

-- A check that a success has passed.
guarded :
    {A : Type 0} (b : Bool) (x r : Ec × A)
    → (b ≡ true → is_ok x.0 ≡ false)
    → is_ok (if b then x else r).0 ≡ true
    → (b ≡ false) × ((if b then x else r) ≡ r) × (is_ok r.0 ≡ true)
guarded true x r refused k = absurd (clash (sym (refused refl) ∙ k))
guarded false x r refused k = (refl, refl, k)

module _ (p : Platform) (g : Granted) (c : PipelineConfig) (w : World) where
  abbrev base_made : Ec × State
  base_made = kind_init p (kind_config p filt_t_pipeline 1 1 c.buff_config c.timeout_us) w.base.heap

  abbrev linked_all : Ec × Store × Heap
  linked_all = connect_all default_ops c.connections w.filters base_made.1.heap

  abbrev exposed : World
  exposed = record {
    pipeline = record w.pipeline {
      filters = c.filters;
      connections = c.connections;
      n_external_inputs = 0;
      input_filter = c.input_filter;
      input_port = c.input_port;
      output_filter = c.output_filter;
      output_port = c.output_port;
    };
    base = record base_made.1 { heap = linked_all.2 };
    filters = linked_all.1;
  }

  -- What has been checked when pipeline_init succeeds, and what it leaves.
  passed :
      is_ok (pipeline_init default_ops p g c w).0 ≡ true
      → (is_ok base_made.0 ≡ true)
        × (are_known c.filters c.connections ≡ true)
        × (is_ok linked_all.0 ≡ true)
        × (contains_filter c.filters c.input_filter ≡ true)
        × (contains_filter c.filters c.output_filter ≡ true)
        × ((pipeline_init default_ops p g c w).1 ≡ share_input c.input_filter c.input_port exposed)
  unfolding pipeline_init
  passed k =
      let (_, q1, k1) = guarded (length c.filters == 0) _ _ (λ y. is_ok-null_pointer) k in
      let (_, q2, k2) = guarded (c.input_filter == 0) _ _ (λ y. is_ok-null_pointer) k1 in
      let (_, q3, k3) = guarded (c.output_filter == 0) _ _ (λ y. is_ok-null_pointer) k2 in
      let (made, q4, k4) = guarded (not (is_ok base_made.0)) _ _ (negated_false _) k3 in
      let (_, q5, k5) = guarded (not g.listed) _ _ (λ y. is_ok-alloc) k4 in
      let (known, q6, k6) =
        guarded (not (are_known c.filters c.connections)) _ _ (λ y. is_ok-invalid_config) k5 in
      let (_, q7, k7) =
        guarded (not (length c.connections == 0) && not g.linked) _ _ (λ y. is_ok-alloc) k6 in
      let (joined, q8, k8) = guarded (not (is_ok linked_all.0)) _ _ (negated_false _) k7 in
      let (inside, q9, k9) =
        guarded
          (not
            (contains_filter c.filters c.input_filter && contains_filter c.filters c.output_filter))
          _ _ (λ y. is_ok-invalid_config) k8 in
      (
        negated_true _ made,
        negated_true _ known,
        negated_true _ joined,
        (both _ _ inside).0,
        (both _ _ inside).1,
        ap (λ (r : Ec × World). r.1) (q1 ∙ q2 ∙ q3 ∙ q4 ∙ q5 ∙ q6 ∙ q7 ∙ q8 ∙ q9),
      )

  -- A pipeline that pipeline_init has set up, from filters with the default operation of
  -- filt_sink_connect and arrays of sinks of full length, has the filters and connections of its
  -- configuration; both ends of each connection are filters of the pipeline, as its input and
  -- output filters are; each connection is in place, the sink slot of its first
  -- filter holding the input buffer of the second, not NULL; and the pipeline shares the buffer of
  -- its input filter.
  pub pipeline_init-IsBuilt :
      (w' : World) → IsSized w.filters → pipeline_init default_ops p g c w ≡ (ok, w') → IsBuilt c w'
  unfolding share_input
  pipeline_init-IsBuilt w' sized e =
      let (made, known, joined, entry, exit, r) =
        passed (ap (λ (x : Ec × World). is_ok x.0) e ∙ is_ok-ok) in
      let inside = are_known-IsInside c.filters c.connections known in
      let single =
        init-IsSingle p.sizeof_filter (kind_config p filt_t_pipeline 1 1 c.buff_config c.timeout_us)
          p.answers p.mutex w.base.heap refl base_made.1
          (λ i. ((is_ok→eq _ made) i, base_made.1)) in
      subst (IsBuilt c) (sym r ∙ ap (λ (x : Ec × World). x.1) e) (record {
        filters = refl;
        connections = refl;
        closed = all-Closed c.filters c.connections inside;
        inside = inside;
        joined = (connect_all-Joined c.connections w.filters base_made.1.heap sized joined).1;
        entry = contains_filter-In c.filters c.input_filter entry;
        exit = contains_filter-In c.filters c.output_filter exit;
        shared =
            get_or-set_self base_made.1.filter.input_buffers 0 _ 0
              (not_empty base_made.1.filter.input_buffers single.set_up);
      })
