-- ===== src/Passthrough/Tests.antt =====
-- The passthrough workers at concrete inputs.
use bpipe.Base.{◌≡◌, refl, List, [], ◌∷◌, ◌++◌, arith}
use bpipe.Err.{ok, complete, timeout}
use bpipe.Ring.{Batch, zero_batch, zeroed}
use bpipe.Filter.{Filter, State}
use bpipe.Filter.Lifecycle.{cleared}
use bpipe.Passthrough.{fetched, missed, Work, passthrough_worker, matched_passthroug}
use bpipe.Passthrough.Copies.{Copies, passthrough_worker-Copies}

abbrev filter : Filter
filter = record cleared { n_input_buffers = 1; input_buffers = 1 ∷ []; sinks = 2 ∷ [] }

abbrev batch : Batch
batch = record zero_batch { head = 2; t_ns = 10; period_ns = 5; batch_id = 3; samples = 7 ∷ 8 ∷ [] }

abbrev mark : Batch
mark = record zero_batch { ec = complete }

abbrev slot : List Batch → Batch
slot sent = record zero_batch { head = 2; samples = 0 ∷ 0 ∷ [] }

abbrev idle : Work
idle = record { err = ok; worker_err = ok; samples_processed = 0; n_batches = 0; sent = [] }

passthrough_worker-Copies_example :
    Copies [] (batch ∷ []) (
      passthrough_worker slot filter
        ((missed timeout ∷ fetched batch ok ∷ []) ++ fetched mark ok ∷ [])
        idle)
    × ((passthrough_worker slot filter
          ((missed timeout ∷ fetched batch ok ∷ []) ++ fetched mark ok ∷ [])
          idle).worker_err
        ≡ ok)
passthrough_worker-Copies_example =
    passthrough_worker-Copies slot filter (missed timeout ∷ fetched batch ok ∷ []) mark [] idle refl
      (λ e. cc) (refl, ((refl, refl, omega arith), tt)) refl

-- A filter that is stopped after a wait has timed out records the timeout as its error.
stopped_after_timeout :
    (passthrough_worker slot filter (missed timeout ∷ []) idle).worker_err ≡ timeout
unfolding passthrough_worker
stopped_after_timeout = refl

abbrev state : State
state = record { filter = filter; heap = λ r. record zeroed { dtype = 1; batch_capacity_expo = 1 } }

-- The end mark of matched_passthroug has the number of samples that its slot had.
full_mark :
    (matched_passthroug slot state (fetched batch ok ∷ fetched mark ok ∷ []) idle).sent
    ≡ batch ∷ record zero_batch { head = 2; ec = complete; samples = 0 ∷ 0 ∷ [] } ∷ []
unfolding matched_passthroug
full_mark = refl
