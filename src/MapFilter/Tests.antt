-- ===== src/MapFilter/Tests.antt =====
-- The theorem about bpipe/map.c at sink batches of two samples.
use bpipe.Base.{ℕ, suc, ◌≡◌, refl, true, false, some, List, [], ◌∷◌, ◌++◌, arith, map}
use bpipe.Err.{Ec, ok, timeout, stopped}
use bpipe.Ring.{Batch, zero_batch}
use bpipe.MapFilter.{Fetch, fetched, missed, Work, map_worker, misconfigured}
use bpipe.MapFilter.Stream.{Packed}
use bpipe.MapFilter.Repack.{fresh, map_worker-Packed}

abbrev no_slot : List Batch → Batch
no_slot bs = zero_batch

abbrev takes_all : List Batch → Ec
takes_all bs = ok

abbrev increment : List ℕ → Ec × List ℕ
increment xs = (ok, map suc xs)

abbrev batch : ℕ → List ℕ → Batch
batch h xs = record { head = h; t_ns = 0; period_ns = 5; batch_id = 0; ec = ok; samples = xs }

abbrev stream : List Fetch
stream =
    fetched (batch 3 (1 ∷ 2 ∷ 3 ∷ [])) ∷ missed timeout ∷ fetched (batch 2 (4 ∷ 5 ∷ 6 ∷ [])) ∷ []

well_configured : misconfigured true true 1 1 ≡ false
unfolding misconfigured
well_configured = refl

map_worker-Packed_example :
    (w : Work) × (map_worker no_slot takes_all increment 2 true true 1 1 20
        (fresh (stream ++ missed stopped ∷ []))
      ≡ some (ok, w))
    × Packed 2 (2 ∷ 3 ∷ 4 ∷ 5 ∷ 6 ∷ []) w.sent
map_worker-Packed_example =
    map_worker-Packed no_slot takes_all increment suc 2 true true 1 1 20 stream (λ bs. refl)
      (λ xs. refl) (omega arith) well_configured (omega arith, (refl, (omega arith, tt)))
      (omega arith)
