-- ===== src/Buffer/Await.antt =====
-- bb_await_notfull of bpipe/batch_buffer.c: how its loop can end.
use bpipe.Base.{
  ℕ, ◌≡◌, refl, sym, ◌∙◌, true, false, inl, inr, List, [], ◌∷◌, ◌++◌, Bool-cases, ◌==◌, ◌||◌,
}
use bpipe.Err.{ok, timeout}
use bpipe.Ring.{BatchBuff}
use bpipe.Buffer.{waiting, returned, Wake, leave_head, await_notfull, blocked_head}

pub returned-injective : {A : Type 0} {x y : A} → returned x ≡ returned y → x ≡ y
returned-injective h = cc

pub waiting-ne-returned : {A : Type 0} {x : A} → waiting ≡ returned x → ⊥
waiting-ne-returned h = cc

-- The three ways through one round of the loop.
pub await-free :
    (t : ℕ) (ws : List Wake) (b : BatchBuff)
    → blocked_head b ≡ false
    → await_notfull t ws b ≡ returned (leave_head (ok, b))
unfolding await_notfull
await-free t [] b h = rw h
await-free t (w ∷ ws) b h = rw h

pub await-stuck : (t : ℕ) (b : BatchBuff) → blocked_head b ≡ true → await_notfull t [] b ≡ waiting
unfolding await_notfull
await-stuck t b h = rw h

pub await-woken :
    (t : ℕ) (w : Wake) (ws : List Wake) (b : BatchBuff)
    → blocked_head b ≡ true
    → (t == 0 || w.ret == 0) ≡ true
    → await_notfull t (w ∷ ws) b ≡ await_notfull t ws (w.others b)
unfolding await_notfull
await-woken t w ws b h g = rw (h, g)

await-late :
    (t : ℕ) (w : Wake) (ws : List Wake) (b : BatchBuff)
    → blocked_head b ≡ true
    → (t == 0 || w.ret == 0) ≡ false
    → await_notfull t (w ∷ ws) b ≡ returned (leave_head (timeout, w.others b))
unfolding await_notfull
await-late t w ws b h g = rw (h, g)

-- The buffer that a call meets after its wake-ups.
abbrev pub met : List Wake → BatchBuff → BatchBuff
met [] b = b
met (w ∷ ws) b = met ws (w.others b)

-- A call that still waits goes on with the next wake-up.
pub await-append :
    (t : ℕ) (ws vs : List Wake) (b : BatchBuff)
    → await_notfull t ws b ≡ waiting
    → (await_notfull t (ws ++ vs) b ≡ await_notfull t vs (met ws b))
      × (blocked_head (met ws b) ≡ true)
await-append t [] vs b h = elim (Bool-cases (blocked_head b)) [
  | inl f ↦ (refl, f)
  | inr f ↦ absurd (waiting-ne-returned (sym h ∙ await-free t [] b f))
]
await-append t (w ∷ ws) vs b h = elim (Bool-cases (blocked_head b)) [
  | inr f ↦ absurd (waiting-ne-returned (sym h ∙ await-free t (w ∷ ws) b f))
  | inl f ↦ elim (Bool-cases (t == 0 || w.ret == 0)) [
    | inl g ↦
        let (e, blocked) = await-append t ws vs (w.others b) (sym (await-woken t w ws b f g) ∙ h) in
        (await-woken t w (ws ++ vs) b f g ∙ e, blocked)
    | inr g ↦ absurd (waiting-ne-returned (sym h ∙ await-late t w ws b f g))
  ]
]
