-- ===== src/Buffer/Setup/Waiters.antt =====
-- What the calls of bpipe/batch_buffer.c that end the wait of another thread do to it.
use bpipe.Base.{
  ℕ, ◌+◌, ◌≡◌, ◌≢◌, refl, sym, ap, ◌∙◌, true, false, none, some, List, [], ◌∷◌, ◌++◌, ◌==◌, arith,
}
use bpipe.Err.{Ec, stopped, ok, is_ok, ne-ok}
use bpipe.Ring.{BatchBuff, masked, is_full, is_empty, overflow_drop_head, overflow_drop_tail}
use bpipe.Buffer.{
  Outcome, waiting, returned, Wake, blocked_head, blocked_tail, get_tail_woken, await_notfull,
  await_notempty, submit, submit_waited, get_tail, after,
}
use bpipe.Buffer.Await.{met, await-append, waiting-ne-returned}
use bpipe.Buffer.Wait.{submit-waits}
use bpipe.Buffer.Setup.{
  stop, force_return_head, force_return_tail, reaches_consumer, reaches_producer, woken_by,
}

after-waiting : {A B : Type 0} (f : A → B) (o : Outcome A) → after f o ≡ waiting → o ≡ waiting
unfolding after
after-waiting f waiting h = refl
after-waiting f (returned a) h = absurd (waiting-ne-returned (sym h))

-- A bb_submit waits only on a full buffer that drops nothing.
waits-on :
    (t : ℕ) (ws : List Wake) (b : BatchBuff)
    → submit t ws b ≡ waiting
    → (is_full b ≡ true)
      × ((b.overflow_behaviour == overflow_drop_head) ≡ false)
      × ((b.overflow_behaviour == overflow_drop_tail) ≡ false)
unfolding submit is_full
waits-on t ws b h = (ground arith, ground arith, ground arith)

-- A bb_submit that waits takes the wake-ups that come as its wait does.
submit-append :
    (t : ℕ) (ws vs : List Wake) (b : BatchBuff)
    → submit t ws b ≡ waiting
    → (submit t (ws ++ vs) b
        ≡ after (submit_waited (masked b (b.head + 1))) (await_notfull t vs (met ws b)))
      × (blocked_head (met ws b) ≡ true)
submit-append t ws vs b h =
    let (full, n, d) = waits-on t ws b h in
    let f = submit_waited (masked b (b.head + 1)) in
    let still : await_notfull t ws b ≡ waiting =
      after-waiting f (await_notfull t ws b) (sym (submit-waits t ws b full n d) ∙ h) in
    let (e, blocked) = await-append t ws vs b still in
    (submit-waits t (ws ++ vs) b full n d ∙ ap (after f) e, blocked)

-- bb_stop ends a bb_submit that waits: whatever its timeout and the wake-ups before, the broadcast
-- wakes it in the stopped buffer, and it returns STOPPED and submits nothing.
pub stop_ends_submit :
    (t : ℕ) (ws : List Wake) (b : BatchBuff)
    → submit t ws b ≡ waiting
    → submit t (ws ++ woken_by reaches_producer (stop (some (met ws b)))) b
      ≡ returned (stopped, record (met ws b) { running = false })
unfolding stop await_notfull after submit_waited is_ok
stop_ends_submit t ws b h =
    let c : BatchBuff = met ws b in
    let (e, blocked) = submit-append t ws (woken_by reaches_producer (stop (some c))) b h in
    e ∙ ground (arith, blocked)

-- A buffer whose producer has been forced to return, with the flag lowered again.
abbrev pub lowered : Ec → BatchBuff → BatchBuff
lowered code b = record b { force_return_head_code = code; force_return_head = false }

-- bb_force_return_head ends a bb_submit that waits, and only that one: whatever its timeout and the
-- wake-ups before, the signal wakes it, and it returns the code (other than OK) that was given and
-- submits nothing; the flag is lowered, so that the next wait on the buffer waits.
pub force_return_head_ends_submit :
    (t : ℕ) (ws : List Wake) (b : BatchBuff) (code : Ec)
    → code ≢ ok
    → submit t ws b ≡ waiting
    → (submit t (ws ++ woken_by reaches_producer (force_return_head (some (met ws b)) code)) b
        ≡ returned (code, lowered code (met ws b)))
      × (await_notfull t [] (lowered code (met ws b)) ≡ waiting)
unfolding force_return_head await_notfull after submit_waited is_ok is_full
force_return_head_ends_submit t ws b code n h =
    let c : BatchBuff = met ws b in
    let vs : List Wake = woken_by reaches_producer (force_return_head (some c) code) in
    let (e, blocked) = submit-append t ws vs b h in
    (e ∙ ground (arith, blocked, ne-ok code n), ground (arith, blocked))

-- The wait of a consumer, likewise.
tail-woken :
    (w : Wake) (ws : List Wake) (b : BatchBuff)
    → blocked_tail b ≡ true
    → (w.ret == 0) ≡ true
    → await_notempty (w ∷ ws) b ≡ await_notempty ws (w.others b)
unfolding await_notempty
tail-woken w ws b h z = ground (arith, h, z)

tail-stuck : (b : BatchBuff) → await_notempty [] b ≡ waiting → blocked_tail b ≡ true
unfolding await_notempty after
tail-stuck b h = ground arith

tail-waits :
    (w : Wake) (ws : List Wake) (b : BatchBuff)
    → await_notempty (w ∷ ws) b ≡ waiting
    → (blocked_tail b ≡ true) × ((w.ret == 0) ≡ true)
unfolding await_notempty after
tail-waits w ws b h = (ground arith, ground arith)

tail-append :
    (ws vs : List Wake) (b : BatchBuff)
    → await_notempty ws b ≡ waiting
    → (await_notempty (ws ++ vs) b ≡ await_notempty vs (met ws b))
      × (blocked_tail (met ws b) ≡ true)
tail-append [] vs b h = (refl, tail-stuck b h)
tail-append (w ∷ ws) vs b h =
    let (f, z) = tail-waits w ws b h in
    let (e, blocked) = tail-append ws vs (w.others b) (sym (tail-woken w ws b f z) ∙ h) in
    (tail-woken w (ws ++ vs) b f z ∙ e, blocked)

get_tail-waits :
    (ws : List Wake) (b : BatchBuff)
    → is_empty b ≡ true
    → get_tail ws b ≡ after get_tail_woken (await_notempty ws b)
unfolding get_tail
get_tail-waits ws b e = rw e refl

waits-empty : (ws : List Wake) (b : BatchBuff) → get_tail ws b ≡ waiting → is_empty b ≡ true
unfolding get_tail
waits-empty ws b h = ground arith

get_tail-append :
    (ws vs : List Wake) (b : BatchBuff)
    → get_tail ws b ≡ waiting
    → (get_tail (ws ++ vs) b ≡ after get_tail_woken (await_notempty vs (met ws b)))
      × (blocked_tail (met ws b) ≡ true)
get_tail-append ws vs b h =
    let empty = waits-empty ws b h in
    let still : await_notempty ws b ≡ waiting =
      after-waiting get_tail_woken (await_notempty ws b) (sym (get_tail-waits ws b empty) ∙ h) in
    let (e, blocked) = tail-append ws vs b still in
    (get_tail-waits (ws ++ vs) b empty ∙ ap (after get_tail_woken) e, blocked)

-- bb_stop ends a bb_get_tail that waits: whatever the wake-ups before, the broadcast wakes it in the
-- stopped buffer, and it returns STOPPED and no batch.
pub stop_ends_get_tail :
    (ws : List Wake) (b : BatchBuff)
    → get_tail ws b ≡ waiting
    → get_tail (ws ++ woken_by reaches_consumer (stop (some (met ws b)))) b
      ≡ returned (stopped, none, record (met ws b) { running = false })
unfolding stop await_notempty after get_tail_woken is_ok
stop_ends_get_tail ws b h =
    let c : BatchBuff = met ws b in
    let (e, blocked) = get_tail-append ws (woken_by reaches_consumer (stop (some c))) b h in
    e ∙ ground (arith, blocked)

-- A buffer whose consumer has been forced to return, with the flag lowered again.
abbrev lowered_tail : Ec → BatchBuff → BatchBuff
lowered_tail code b = record b { force_return_tail_code = code; force_return_tail = false }

-- bb_force_return_tail ends a bb_get_tail that waits, and only that one: whatever the wake-ups
-- before, the signal wakes it, and it returns the code (other than OK) that was given and no batch;
-- the flag is lowered, so that the next bb_get_tail on the buffer waits.
force_return_tail_ends_get_tail :
    (ws : List Wake) (b : BatchBuff) (code : Ec)
    → code ≢ ok
    → get_tail ws b ≡ waiting
    → (get_tail (ws ++ woken_by reaches_consumer (force_return_tail (some (met ws b)) code)) b
        ≡ returned (code, none, lowered_tail code (met ws b)))
      × (get_tail [] (lowered_tail code (met ws b)) ≡ waiting)
unfolding force_return_tail get_tail await_notempty after get_tail_woken is_ok is_empty
force_return_tail_ends_get_tail ws b code n h =
    let c : BatchBuff = met ws b in
    let vs : List Wake = woken_by reaches_consumer (force_return_tail (some c) code) in
    let (e, blocked) = get_tail-append ws vs b h in
    (e ∙ ground (arith, blocked, ne-ok code n), ground (arith, blocked))
