-- ===== src/Buffer/Setup/Laws.antt =====
-- What bb_init and the calls that stop a waiting thread do (bpipe/batch_buffer.c).
use native.Mathlib.Nat.{pow-le-pow_right, one-le-pow}
use bpipe.Base.{
  ◌≤◌, ◌<◌, ◌^◌, ap, sym, subst, ◌∙◌, ◌↔◌, ◌≡◌, ◌≢◌, refl, true, Option, some, [], arith,
  length-replicate,
}
use bpipe.Err.{Ec, ok}
use bpipe.Ring.{BatchBuff, Config, dtype_ndef, dtype_max, overflow_max, is_empty}
use bpipe.Buffer.Inv.{IsValid, empty_iff}
use bpipe.Buffer.Refine.{contents}
use bpipe.Buffer.Submit.{IsOpen, contents-nil}
use bpipe.Buffer.Setup.{Alloc, init, configured, opened, fresh_batch}

-- What bb_init asks of a configuration. It accepts `OVERFLOW_MAX`, the end mark of its enum.
pub record IsAccepted (c : Config) : Type 0 where
  pub dtype_set : c.dtype ≢ dtype_ndef
  pub dtype_known : c.dtype < dtype_max
  pub ring_bound : c.ring_capacity_expo ≤ 30
  pub batch_bound : c.batch_capacity_expo ≤ 20
  pub overflow_bound : c.overflow_behaviour ≤ overflow_max

pub record Granted (a : Alloc) : Type 0 where
  pub batch_ring_ok : a.batch_ring ≡ true
  pub data_ring_ok : a.data_ring ≡ true
  pub mutex_ok : a.mutex ≡ true
  pub not_empty_ok : a.not_empty ≡ true
  pub not_full_ok : a.not_full ≡ true

init-ok :
    (b : BatchBuff) (c : Config) (a : Alloc)
    → IsAccepted c
    → Granted a
    → init (some b) c a ≡ (ok, some (opened (configured c)))
unfolding init
init-ok b c a h g = ground arith

-- bb_init succeeds exactly on an accepted configuration for which the C library grants everything.
pub init-ok_iff :
    (b : BatchBuff) (c : Config) (a : Alloc)
    → ((init (some b) c a).0 ≡ ok) ↔ (IsAccepted c × Granted a)
unfolding init
init-ok_iff b c a = (λ h. (ground arith, ground arith), λ h. ap (λ r. r.0) (init-ok b c a h.0 h.1))

opened-IsValid : (c : Config) → IsAccepted c → IsValid (opened (configured c))
opened-IsValid c h = record {
  slots = length-replicate (2 ^ c.ring_capacity_expo) (fresh_batch (configured c));
  small = pow-le-pow_right {n = 2} (omega arith) h.ring_bound;
  some_slot = one-le-pow c.ring_capacity_expo 2 (omega arith);
  head_in = one-le-pow c.ring_capacity_expo 2 (omega arith);
  tail_in = one-le-pow c.ring_capacity_expo 2 (omega arith);
}

result-injective :
    {e : Ec} {x y : BatchBuff} → ◌≡◌ {A = Ec × Option BatchBuff} (e, some x) (e, some y) → x ≡ y
result-injective h = cc

is_empty-opened : (c : Config) → is_empty (opened (configured c)) ≡ true
unfolding is_empty
is_empty-opened c = refl

-- A buffer that bb_init has set up is valid, open, and holds no unread batch.
pub init-IsValid :
    (b : BatchBuff) (c : Config) (a : Alloc) (b' : BatchBuff)
    → init (some b) c a ≡ (ok, some b')
    → IsValid b' × IsOpen b' × (contents b' ≡ [])
init-IsValid b c a b' h =
    let (acc, g) = (init-ok_iff b c a).0 (ap (λ r. r.0) h) in
    let e : opened (configured c) ≡ b' = result-injective (sym (init-ok b c a acc g) ∙ h) in
    subst (λ x. IsValid x × IsOpen x × (contents x ≡ [])) e
      (
        opened-IsValid c acc,
        record { started = refl; no_head_force = refl; no_tail_force = refl },
        contents-nil (opened (configured c))
            ((empty_iff (opened-IsValid c acc)).0 (is_empty-opened c)),
      )
