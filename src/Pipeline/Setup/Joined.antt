-- ===== src/Pipeline/Setup/Joined.antt =====
-- The connections that pipeline_init of bpipe/pipeline.c makes, for filters with the default operation
-- of filt_sink_connect.
use bpipe.Base.{
  if◌then◌else◌, ℕ, ◌<◌, ◌≡◌, ◌≢◌, refl, sym, ap, ◌∙◌, subst, inl, inr, true, List, [], ◌∷◌, arith,
  ◌==◌, ==_iff, Bool-cases, All, length, get_or, set, length-set, get_or-set_self, get_or-set_ne,
}
use bpipe.Err.{Ec, is_ok, is_ok→eq}
use bpipe.Filter.{Filter, State, Heap, BufRef, input, sink, max_sinks, sink_connect}
use bpipe.Filter.Sinks.{sink_connect_cases, sink_connect-inputs}
use bpipe.Pipeline.{FilterRef, Connection}
use bpipe.Pipeline.Validate.{Store, put}
use bpipe.Pipeline.Setup.{Connects, connect_one, connect_all}

abbrev pub default_ops : FilterRef → Connects
default_ops f = sink_connect

-- Every array of sinks has its full length.
abbrev pub IsSized : Store → Type 0
IsSized fs = (f : FilterRef) → length (fs f).sinks ≡ max_sinks

-- Connecting more filters leaves the input buffers and the connected sinks.
pub record Kept (fs fs' : Store) : Type 0 where
  pub inputs : (f : FilterRef) → (fs' f).input_buffers ≡ (fs f).input_buffers
  pub slots : (f : FilterRef) → length (fs' f).sinks ≡ length (fs f).sinks
  pub sinks : (f : FilterRef) (i : ℕ) → sink (fs f) i ≢ 0 → sink (fs' f) i ≡ sink (fs f) i

Kept-refl : (fs : Store) → Kept fs fs
Kept-refl fs = record { inputs = λ f. refl; slots = λ f. refl; sinks = λ f i n. refl }

Kept-trans : {fs gs hs : Store} → Kept fs gs → Kept gs hs → Kept fs hs
Kept-trans k l = record {
  inputs = λ f. l.inputs f ∙ k.inputs f;
  slots = λ f. l.slots f ∙ k.slots f;
  sinks = λ f i n. l.sinks f i (λ e. n (sym (k.sinks f i n) ∙ e)) ∙ k.sinks f i n;
}

-- The connection is in place.
abbrev pub IsJoined : Store → Connection → Type 0
IsJoined fs c =
    (input (fs c.to_filter) c.to_port ≢ 0)
    × (sink (fs c.from_filter) c.from_port ≡ input (fs c.to_filter) c.to_port)

IsJoined-Kept : {fs gs : Store} (c : Connection) → Kept fs gs → IsJoined fs c → IsJoined gs c
IsJoined-Kept c k (n, e) =
    let same = ap (λ rs. get_or rs c.to_port 0) (k.inputs c.to_filter) in
    (λ z. n (sym same ∙ z), k.sinks c.from_filter c.from_port (λ z. n (sym e ∙ z)) ∙ e ∙ sym same)

-- A filter that has got a buffer in a free slot of its sinks.
put-Kept :
    (fs : Store) (f : FilterRef) (x : Filter) (port : ℕ) (ref : BufRef)
    → x.input_buffers ≡ (fs f).input_buffers
    → sink (fs f) port ≡ 0
    → x.sinks ≡ set (fs f).sinks port ref
    → Kept fs (put fs f x)
put-Kept fs f x port ref same free e = record {
  inputs = λ g. elim (Bool-cases (g == f)) [
    | inl y ↦ rw y (same ∙ ap (λ h. (fs h).input_buffers) (sym ((==_iff g f).0 y)))
    | inr n ↦ rw n refl
  ];
  slots = λ g. elim (Bool-cases (g == f)) [
    | inl y ↦ rw y (
        ap length e
        ∙ length-set (fs f).sinks port ref
        ∙ ap (λ h. length (fs h).sinks) (sym ((==_iff g f).0 y)))
    | inr n ↦ rw n refl
  ];
  sinks = λ g i taken. elim (Bool-cases (g == f)) [
    | inl y ↦
        let same_filter = (==_iff g f).0 y in
        let other : port ≢ i =
          λ z. taken (ap (λ h. sink (fs h) i) same_filter ∙ ap (sink (fs f)) (sym z) ∙ free) in
        rw y (
          ap (λ rs. get_or rs i 0) e
          ∙ get_or-set_ne (fs f).sinks port i ref 0 other
          ∙ ap (λ h. sink (fs h) i) (sym same_filter))
    | inr n ↦ rw n refl
  ];
}

nothing_connected : (fs : Store) (h : Heap) → Kept fs (connect_all default_ops [] fs h).1
unfolding connect_all
nothing_connected fs h = Kept-refl fs

-- The state that the filter of a connection acts on, and what it makes of it.
abbrev acting : Connection → Store → Heap → State
acting c fs h = record { filter = fs c.from_filter; heap = h }

abbrev acted : Connection → Store → Heap → Ec × State
acted c fs h = sink_connect (acting c fs h) c.from_port (input (fs c.to_filter) c.to_port)

connect_one-set :
    (c : Connection) (fs : Store) (h : Heap)
    → is_ok (connect_one default_ops c fs h).0 ≡ true
    → ((connect_one default_ops c fs h).1 ≡ put fs c.from_filter (acted c fs h).1.filter)
      × (is_ok (acted c fs h).0 ≡ true)
unfolding connect_one is_ok
connect_one-set c fs h k = elim (Bool-cases (c.from_filter == 0)) [
  | inl y ↦ absurd (ground arith)
  | inr n ↦ (rw n refl, ground arith)
]

-- A connection that succeeds is in place, and those before it stay so.
connect_one-Joined :
    (c : Connection) (fs : Store) (h : Heap)
    → IsSized fs
    → is_ok (connect_one default_ops c fs h).0 ≡ true
    → Kept fs (connect_one default_ops c fs h).1 × IsJoined (connect_one default_ops c fs h).1 c
connect_one-Joined c fs h sized k =
    let f = c.from_filter in
    let ref = input (fs c.to_filter) c.to_port in
    let (e', done) = connect_one-set c fs h k in
    elim (sink_connect_cases (acting c fs h) c.from_port ref) [
      | inr (_, refused, _) ↦ absurd (refused (is_ok→eq _ done))
      | inl ((given, inside, _, free, _), _, e) ↦
          let x = (acted c fs h).1.filter in
          let kept =
            put-Kept fs f x c.from_port ref (sink_connect-inputs (acting c fs h) c.from_port ref)
              free e in
          let same = ap (λ rs. get_or rs c.to_port 0) (kept.inputs c.to_filter) in
          let filled : sink (put fs f x f) c.from_port ≡ ref =
            ap (λ b. sink (if b then x else fs f) c.from_port) ((==_iff f f).1 refl)
            ∙ ap (λ rs. get_or rs c.from_port 0) e
            ∙ get_or-set_self (fs f).sinks c.from_port ref 0
                (subst (λ n. c.from_port < n) (sym (sized f)) inside) in
          subst (λ gs. Kept fs gs × IsJoined gs c) (sym e')
            (kept, ((λ z. given (sym same ∙ z)), filled ∙ sym same))
    ]

connect_all-on :
    (c : Connection) (cs : List Connection) (fs : Store) (h : Heap)
    → is_ok (connect_one default_ops c fs h).0 ≡ true
    → connect_all default_ops (c ∷ cs) fs h
      ≡ connect_all default_ops cs
          (connect_one default_ops c fs h).1
          (connect_one default_ops c fs h).2
unfolding connect_all
connect_all-on c cs fs h y = rw y refl

connect_all-first :
    (c : Connection) (cs : List Connection) (fs : Store) (h : Heap)
    → is_ok (connect_all default_ops (c ∷ cs) fs h).0 ≡ true
    → is_ok (connect_one default_ops c fs h).0 ≡ true
unfolding connect_all
connect_all-first c cs fs h k = elim (Bool-cases (is_ok (connect_one default_ops c fs h).0)) [
  | inl y ↦ y
  | inr n ↦ ground arith
]

-- The loop that makes the connections: when it succeeds, all of them are in place.
pub connect_all-Joined :
    (cs : List Connection) (fs : Store) (h : Heap)
    → IsSized fs
    → is_ok (connect_all default_ops cs fs h).0 ≡ true
    → Kept fs (connect_all default_ops cs fs h).1
      × All (IsJoined (connect_all default_ops cs fs h).1) cs
connect_all-Joined [] fs h sized k = (nothing_connected fs h, tt)
connect_all-Joined (c ∷ cs) fs h sized k =
    let y = connect_all-first c cs fs h k in
    let on = connect_all-on c cs fs h y in
    let (kept, joined) = connect_one-Joined c fs h sized y in
    let x = connect_one default_ops c fs h in
    let (kept', rest) =
      connect_all-Joined cs x.1 x.2 (λ f. kept.slots f ∙ sized f)
        (sym (ap (λ r. is_ok r.0) on) ∙ k) in
    subst (λ r. Kept fs r.1 × All (IsJoined r.1) (c ∷ cs)) (sym on)
      (Kept-trans kept kept', (IsJoined-Kept c kept' joined, rest))
