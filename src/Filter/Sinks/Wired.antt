-- ===== src/Filter/Sinks/Wired.antt =====
-- default_sink_connect and filt_sink_disconnect of bpipe/core.c: the number of the sinks, and undoing
-- a connection.
use bpipe.Base.{
  ℕ, zero, suc, ◌+◌, ◌-◌, ◌<◌, ◌≡◌, inl, inr, refl, sym, ap, ◌∙◌, true, false, ◌||◌, List, [], ◌∷◌,
  arith, leb, ◌==◌, if◌then◌else◌, Bool-cases, subst, length, get_or, set, length-set,
  get_or-set_self,
}
use bpipe.Err.{Ec, ok}
use bpipe.Filter.{BufRef, Filter, State, max_sinks, sink, attach, sink_connect, sink_disconnect}
use bpipe.Filter.Sinks.{
  is_free, connect-attach, connect-refuse, attach-sinks, attach-n_sinks, CanConnect, is_free_iff,
}

-- The sinks that are not NULL.
abbrev connected : List BufRef → ℕ
connected [] = 0
connected (r ∷ rs) = (if r == 0 then 0 else 1) + connected rs

-- All slots are there, and `n_sinks` counts those in use.
abbrev pub IsWired : Filter → Type 0
IsWired f = (length f.sinks ≡ max_sinks) × (f.n_sinks ≡ connected f.sinks)

connected-set :
    (rs : List BufRef) (i : ℕ) (r : BufRef)
    → i < length rs
    → connected (set rs i r) + (if get_or rs i 0 == 0 then 0 else 1)
      ≡ connected rs + (if r == 0 then 0 else 1)
connected-set [] i r h = absurd (omega arith)
connected-set (x ∷ xs) zero r h = omega arith
connected-set (x ∷ xs) (suc i) r h = omega (arith, connected-set xs i r (omega arith))

set-set : {A : Type 0} (xs : List A) (i : ℕ) (v w : A) → set (set xs i v) i w ≡ set xs i w
set-set [] i v w = refl
set-set (x ∷ xs) zero v w = refl
set-set (x ∷ xs) (suc i) v w = ap (λ ys. x ∷ ys) (set-set xs i v w)

set-get_or : (xs : List ℕ) (i d : ℕ) → set xs i (get_or xs i d) ≡ xs
set-get_or [] i d = refl
set-get_or (x ∷ xs) zero d = refl
set-get_or (x ∷ xs) (suc i) d = ap (λ ys. x ∷ ys) (set-get_or xs i d)

attach-IsWired :
    (s : State) (port : ℕ) (ref : BufRef)
    → is_free s port ref ≡ true
    → IsWired s.filter
    → IsWired (attach s port ref).1.filter
attach-IsWired s port ref h (l, c) =
    let count = connected-set s.filter.sinks port ref (ground arith) in
    (
      ap length (attach-sinks s port ref) ∙ length-set s.filter.sinks port ref ∙ l,
      attach-n_sinks s port ref ∙ sum count ∙ sym (ap connected (attach-sinks s port ref)),
    )
  where
    sum :
        connected (set s.filter.sinks port ref) + (if sink s.filter port == 0 then 0 else 1)
          ≡ connected s.filter.sinks + (if ref == 0 then 0 else 1)
        → s.filter.n_sinks + 1 ≡ connected (set s.filter.sinks port ref)
    sum e = ground arith

disconnect-free :
    (f : Filter) (port : ℕ)
    → (leb max_sinks port || sink f port == 0) ≡ true
    → (sink_disconnect f port).1 ≡ f
unfolding sink_disconnect
disconnect-free f port h = ground arith

disconnect-used :
    (f : Filter) (port : ℕ)
    → (leb max_sinks port || sink f port == 0) ≡ false
    → sink_disconnect f port
      ≡ (ok, record f { sinks = set f.sinks port 0; n_sinks = f.n_sinks - 1 })
unfolding sink_disconnect
disconnect-used f port h = ground arith

disconnect-IsWired : (f : Filter) (port : ℕ) → IsWired f → IsWired (sink_disconnect f port).1
disconnect-IsWired f port (l, c) = elim (Bool-cases (leb max_sinks port || sink f port == 0)) [
  | inl y ↦ subst IsWired (sym (disconnect-free f port y)) (l, c)
  | inr n ↦
      subst IsWired (sym (ap (λ r. r.1) (disconnect-used f port n)))
        (length-set f.sinks port 0 ∙ l, less n (connected-set f.sinks port 0 (ground arith)))
]
  where
    less :
        (leb max_sinks port || sink f port == 0) ≡ false
        → connected (set f.sinks port 0) + (if sink f port == 0 then 0 else 1)
          ≡ connected f.sinks + 0
        → f.n_sinks - 1 ≡ connected (set f.sinks port 0)
    less n e = ground arith

-- Connecting and disconnecting sinks, whether they succeed or not, keep all slots of a filter and
-- keep `n_sinks` at the number of slots in use.
pub sinks-IsWired :
    (s : State) (port : ℕ) (ref : BufRef)
    → IsWired s.filter
    → IsWired (sink_connect s port ref).1.filter × IsWired (sink_disconnect s.filter port).1
sinks-IsWired s port ref w = (
  elim (Bool-cases (is_free s port ref)) [
    | inl y ↦
        subst (λ r. IsWired r.1.filter) (sym (connect-attach s port ref y))
          (attach-IsWired s port ref y w)
    | inr n ↦ subst (λ r. IsWired r.1.filter) (sym (connect-refuse s port ref n)) w
  ],
  disconnect-IsWired s.filter port w,
)

-- Undoing a connection that has just succeeded gives back the sinks and their number.
pub disconnect-connect :
    (s : State) (port : ℕ) (ref : BufRef)
    → length s.filter.sinks ≡ max_sinks
    → CanConnect s port ref
    → ((sink_disconnect (sink_connect s port ref).1.filter port).0 ≡ ok)
      × ((sink_disconnect (sink_connect s port ref).1.filter port).1.sinks ≡ s.filter.sinks)
      × ((sink_disconnect (sink_connect s port ref).1.filter port).1.n_sinks ≡ s.filter.n_sinks)
disconnect-connect s port ref l can =
    let y = (is_free_iff s port ref).1 can in
    subst Undone (sym (connect-attach s port ref y)) (
      ap (λ r. r.0) (used y),
      ap (λ r. r.1.sinks) (used y)
          ∙ ap (λ xs. set xs port 0) (attach-sinks s port ref)
          ∙ set-set s.filter.sinks port ref 0
          ∙ ap (set s.filter.sinks port) (sym can.3)
          ∙ set-get_or s.filter.sinks port 0,
      ap (λ r. r.1.n_sinks) (used y) ∙ ap (λ n. n - 1) (attach-n_sinks s port ref) ∙ omega arith,
    )
  where
    Undone : Ec × State → Type 0
    Undone r =
        ((sink_disconnect r.1.filter port).0 ≡ ok)
        × ((sink_disconnect r.1.filter port).1.sinks ≡ s.filter.sinks)
        × ((sink_disconnect r.1.filter port).1.n_sinks ≡ s.filter.n_sinks)

    held : is_free s port ref ≡ true → sink (attach s port ref).1.filter port ≡ ref
    held y =
        ap (λ xs. get_or xs port 0) (attach-sinks s port ref)
        ∙ get_or-set_self s.filter.sinks port ref 0 (ground arith)

    used :
        is_free s port ref ≡ true
        → sink_disconnect (attach s port ref).1.filter port ≡ (
          ok,
          record (attach s port ref).1.filter {
            sinks = set (attach s port ref).1.filter.sinks port 0;
            n_sinks = (attach s port ref).1.filter.n_sinks - 1;
          },
        )
    used y = disconnect-used (attach s port ref).1.filter port (let e = held y in ground arith)
