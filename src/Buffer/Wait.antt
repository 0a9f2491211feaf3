-- ===== src/Buffer/Wait.antt =====
-- A bb_submit of bpipe/batch_buffer.c that waits on a full buffer while a consumer deletes batches.
use bpipe.Base.{
  ℕ, zero, suc, ◌+◌, ◌<◌, ◌≡◌, ◌≢◌, refl, sym, ap, subst, ◌∙◌, true, false, inl, inr, Option, none,
  some, List, [], ◌∷◌, ◌++◌, arith, Bool-cases, ==_false, ◌==◌, map, length, drop, length-drop,
  drop-drop,
}
use bpipe.Err.{Ec, ok, is_ok}
use bpipe.Ring.{
  BatchBuff, n_batches, masked, is_full, is_empty, get_head, overflow_drop_head, overflow_drop_tail,
}
use bpipe.Buffer.{
  Outcome, waiting, returned, Wake, leave_head, await_notfull, publish, del_tail, submit,
  submit_waited, after,
}
use bpipe.Buffer.Inv.{IsValid, full_iff, empty_iff}
use bpipe.Buffer.Refine.{
  contents, length-contents, contents-publish, publish-IsValid, del_tail-empty, del_tail-ok,
  del_tail-IsValid, contents-advanced,
}
use bpipe.Buffer.Submit.{contents-nil}
use bpipe.Buffer.Await.{await-free, await-stuck, await-woken}

pub submit-waits :
    (t : ℕ) (ws : List Wake) (b : BatchBuff)
    → is_full b ≡ true
    → (b.overflow_behaviour == overflow_drop_head) ≡ false
    → (b.overflow_behaviour == overflow_drop_tail) ≡ false
    → submit t ws b ≡ after (submit_waited (masked b (b.head + 1))) (await_notfull t ws b)
unfolding submit is_full
submit-waits t ws b h n d = rw (h, n, d)

-- A consumer that calls bb_del_tail `k` times.
abbrev pub deletes : ℕ → BatchBuff → BatchBuff
deletes zero b = b
deletes (suc k) b = deletes k (del_tail b).1

-- The returns of the producer's wait, by the number of calls that come before each.
abbrev pub consuming : List ℕ → List Wake
consuming ks = map (λ k. record { ret = 0; others = deletes k }) ks

-- The first of them before which there is a call.
abbrev pub first_deletion : List ℕ → Option ℕ
first_deletion [] = none
first_deletion (zero ∷ ks) = first_deletion ks
first_deletion (suc k ∷ ks) = some (suc k)

-- Only the tail is moved, over the oldest batches.
del_tail-tail : (b : BatchBuff) → (del_tail b).1 ≡ record b { tail = (del_tail b).1.tail }
unfolding del_tail
del_tail-tail b = ground arith

deletes-tail : (k : ℕ) (b : BatchBuff) → deletes k b ≡ record b { tail = (deletes k b).tail }
deletes-tail zero b = refl
deletes-tail (suc k) b =
    deletes-tail k (del_tail b).1
    ∙ ap (λ (c : BatchBuff). record c { tail = (deletes k (del_tail b).1).tail }) (del_tail-tail b)

contents-del_tail : (b : BatchBuff) → IsValid b → contents (del_tail b).1 ≡ drop 1 (contents b)
contents-del_tail b v = elim (Bool-cases (is_empty b)) [
  | inl e ↦
      let nil = contents-nil b ((empty_iff v).0 e) in
      ap (λ r. contents r.1) (del_tail-empty b e) ∙ nil ∙ sym (ap (drop 1) nil)
  | inr n ↦ ap (λ r. contents r.1) (del_tail-ok b n) ∙ sym (ap (drop 1) (contents-advanced v n))
]

contents-deletes :
    (k : ℕ) (b : BatchBuff)
    → IsValid b
    → IsValid (deletes k b) × (contents (deletes k b) ≡ drop k (contents b))
contents-deletes zero b v = (v, refl)
contents-deletes (suc k) b v =
    let (v', e) = contents-deletes k (del_tail b).1 (del_tail-IsValid v) in
    (
      v',
      e
          ∙ ap (drop k) (contents-del_tail b v)
          ∙ drop-drop 1 k (contents b)
          ∙ ap (λ (n : ℕ). drop n (contents b)) {x = 1 + k} {y = suc k} (omega arith),
    )

-- A full ring of more than one slot is not full after a deletion.
room :
    (k : ℕ) (b : BatchBuff)
    → IsValid b
    → is_full b ≡ true
    → 1 < n_batches b
    → is_full (deletes (suc k) b) ≡ false
room k b v full wide =
    let c : BatchBuff = deletes (suc k) b in
    let (v', e) = contents-deletes (suc k) b v in
    let same : n_batches c ≡ n_batches b = ap n_batches (deletes-tail (suc k) b) in
    let before = (full_iff v).0 full in
    elim (Bool-cases (is_full c)) [
      | inl y ↦ absurd (
          let after_it = (full_iff v').0 y in
          omega (
            arith,
            before,
            after_it,
            same,
            sym (length-contents c) ∙ ap length e,
            length-drop (suc k) (contents b),
            length-contents b,
          ))
      | inr n ↦ n
    ]

-- A producer that bb_submit makes wait: the ring is full, running, and not forced.
pub record IsHeldUp (b : BatchBuff) : Type 0 where
  pub valid : IsValid b
  pub wide : 1 < n_batches b
  pub full : is_full b ≡ true
  pub started : b.running ≡ true
  pub no_force : b.force_return_head ≡ false
  pub no_drop_head : b.overflow_behaviour ≢ overflow_drop_head
  pub no_drop_tail : b.overflow_behaviour ≢ overflow_drop_tail

module _ (t : ℕ) (b : BatchBuff) (h : IsHeldUp b) where
  goes_on :
      (k : ℕ) (ws : List Wake)
      → await_notfull t (record { ret = 0; others = deletes k } ∷ ws) b
        ≡ await_notfull t ws (deletes k b)
  goes_on k ws =
      await-woken t (record { ret = 0; others = deletes k }) ws b
        (ground (arith, h.full, h.started, h.no_force)) (ground arith)

  unforced : (c : BatchBuff) (x : ℕ) → c ≡ record b { tail = x } → leave_head (ok, c) ≡ (ok, c)
  unfolding leave_head is_ok
  unforced c x e =
      let running : c.running ≡ true = ap (λ (y : BatchBuff). y.running) e ∙ h.started in
      let force : c.force_return_head ≡ false =
        ap (λ (y : BatchBuff). y.force_return_head) e ∙ h.no_force in
      rw (force, running) refl

  await-stays :
      (ks : List ℕ) → first_deletion ks ≡ none → await_notfull t (consuming ks) b ≡ waiting
  await-stays [] e = await-stuck t b (ground (arith, h.full, h.started, h.no_force))
  await-stays (zero ∷ ks) e = goes_on zero (consuming ks) ∙ await-stays ks e
  await-stays (suc k ∷ ks) e = absurd (cc)

  await-leaves :
      (ks : List ℕ) (k : ℕ)
      → first_deletion ks ≡ some k
      → (await_notfull t (consuming ks) b ≡ returned (ok, deletes k b))
        × (is_full (deletes k b) ≡ false)
  await-leaves [] k e = absurd (cc)
  await-leaves (zero ∷ ks) k e =
      let (eq, free) = await-leaves ks k e in (goes_on zero (consuming ks) ∙ eq, free)
  await-leaves (suc j ∷ ks) k e =
      let c : BatchBuff = deletes (suc j) b in
      let free : is_full c ≡ false = room j b h.valid h.full h.wide in
      let same : suc j ≡ k = ground arith in
      subst
        (λ (i : ℕ).
          (await_notfull t (consuming (suc j ∷ ks)) b ≡ returned (ok, deletes i b))
          × (is_full (deletes i b) ≡ false))
        same
        (
          goes_on (suc j) (consuming ks)
              ∙ await-free t (consuming ks) c (rw free refl)
              ∙ ap returned (unforced c (deletes (suc j) b).tail (deletes-tail (suc j) b)),
          free,
        )

  submit-waits_here :
      (ws : List Wake)
      → submit t ws b ≡ after (submit_waited (masked b (b.head + 1))) (await_notfull t ws b)
  submit-waits_here ws =
      submit-waits t ws b h.full (==_false _ _ h.no_drop_head) (==_false _ _ h.no_drop_tail)

-- How a bb_submit ends by the first deletion.
abbrev pub Ends : BatchBuff → Outcome (Ec × BatchBuff) → Option ℕ → Type 0
Ends b o none = o ≡ waiting
Ends b o (some k) =
    (b' : BatchBuff) × (o ≡ returned (ok, b'))
    × IsValid b'
    × (contents b' ≡ drop k (contents b) ++ get_head b ∷ [])

published-after :
    (b c : BatchBuff) (x : ℕ)
    → c ≡ record b { tail = x }
    → IsValid c
    → is_full c ≡ false
    → let b' = (publish (masked b (b.head + 1)) c).1 in
      IsValid b' × (contents b' ≡ contents c ++ get_head b ∷ [])
unfolding get_head
published-after b c x e v free =
    let i : masked c (c.head + 1) ≡ masked b (b.head + 1) =
      ap (λ (y : BatchBuff). masked y (y.head + 1)) e in
    let g : get_head c ≡ get_head b = ap get_head e in
    (
      subst (λ (n : ℕ). IsValid (publish n c).1) i (publish-IsValid v),
      ap (λ (n : ℕ). contents (publish n c).1) (sym i)
          ∙ contents-publish v free
          ∙ ap (λ y. contents c ++ y ∷ []) g,
    )

-- A bb_submit that waits on a valid, running, full ring of more than one slot, which drops nothing
-- and is not forced, while a consumer deletes: its wait returns (with the code 0) as often as the
-- list has entries, and each entry is the number of bb_del_tail before that return. If the consumer
-- deletes nothing, the call still waits; else it ends with OK at the first return with a deletion
-- before it, in a valid ring whose unread batches are those that were there without the oldest ones,
-- as many as were deleted, and then the new one.
pub submit_waits :
    (t : ℕ) (ks : List ℕ) (b : BatchBuff)
    → IsHeldUp b
    → Ends b (submit t (consuming ks) b) (first_deletion ks)
unfolding after submit_waited is_ok publish
submit_waits t ks b h = by_first (first_deletion ks) refl
  where
    by_first : (o : Option ℕ) → first_deletion ks ≡ o → Ends b (submit t (consuming ks) b) o
    by_first none e =
        submit-waits_here t b h (consuming ks)
        ∙ ap (after (submit_waited (masked b (b.head + 1)))) (await-stays t b h ks e)
    by_first (some k) e =
        let c : BatchBuff = deletes k b in
        let (eq, free) = await-leaves t b h ks k e in
        let (v, gone) = contents-deletes k b h.valid in
        let (valid, holds) = published-after b c (deletes k b).tail (deletes-tail k b) v free in
        (
          (publish (masked b (b.head + 1)) c).1,
          submit-waits_here t b h (consuming ks)
              ∙ ap (after (submit_waited (masked b (b.head + 1)))) eq,
          valid,
          holds ∙ ap (λ l. l ++ get_head b ∷ []) gone,
        )
