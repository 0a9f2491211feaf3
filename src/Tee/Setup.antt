-- ===== src/Tee/Setup.antt =====
-- bpipe/tee.c: tee_init.
use bpipe.Base.{
  ℕ, ◌^◌, Bool, true, false, not, ◌&&◌, ◌||◌, Option, none, some, List, [], ◌∷◌, ltb, ◌==◌, length,
  if◌then◌else◌,
}
use bpipe.Err.{Ec, ok, null_pointer, invalid_config, type_mismatch, is_ok}
use bpipe.Ring.{Config}
use bpipe.Filter.{Filter, State, max_sinks}
use bpipe.Filter.Kind.{Platform, kind_config, kind_init, on_filter}
use bpipe.Filter.Contract.{constraints_from_buffer_append, set_output_behavior_for_buffer_filter}

abbrev pub filt_t_simo_tee : ℕ
filt_t_simo_tee = 3

-- What `tee_init` sets beside the base filter; `successful_writes` is cleared.
pub record TeeFields : Type 0 where
  pub copy_data : Bool
  pub n_outputs : ℕ

abbrev of_type : ℕ → List Config → Bool
of_type dtype [] = true
of_type dtype (c ∷ cs) = c.dtype == dtype && of_type dtype cs

abbrev of_size : ℕ → List Config → Bool
of_size size [] = true
of_size size (c ∷ cs) = 2 ^ c.batch_capacity_expo == size && of_size size cs

abbrev same_type : List Config → Bool
same_type [] = true
same_type (c ∷ cs) = of_type c.dtype cs

-- The contract of a filter that passes its batches on.
unfoldable pub pass_contract : Config → Filter → Filter
pass_contract c f =
    set_output_behavior_for_buffer_filter (constraints_from_buffer_append f c true) c false false

-- `tee_init` of a tee that is not NULL, for exponents below 31; `output_configs` is `none` for NULL
-- and has `n_outputs` entries.
unfoldable pub tee_init :
    Platform
    → Config
    → Option (List Config)
    → (copy_data : Bool) → ℕ
    → TeeFields × State
    → Ec × TeeFields × State
unfolding pass_contract
tee_init p c none copy_data timeout_us (t, s) = (null_pointer, t, s)
tee_init p c (some outputs) copy_data timeout_us (t, s) =
    let n = length outputs in
    let t' : TeeFields = record { copy_data = copy_data; n_outputs = n } in
    let (e, s') = kind_init p (kind_config p filt_t_simo_tee 1 n c timeout_us) s.heap in
    if ltb n 2 || ltb max_sinks n
    then (invalid_config, t, s)
    else if not (same_type outputs)
    then (type_mismatch, t, s)
    else if not (of_size (2 ^ c.batch_capacity_expo) outputs)
    then (invalid_config, t, s)
    else if not (is_ok e)
    then (e, t', s')
    else (ok, t', on_filter (pass_contract c) s')
