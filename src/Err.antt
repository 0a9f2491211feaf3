-- ===== src/Err.antt =====
-- bpipe/bperr.h: the error codes that every operation returns.
use bpipe.Base.{◌≡◌, ◌≢◌, refl, Bool, true, false, inl, inr, Bool-cases}

-- `Bp_EC`, without its end mark `Bp_EC_MAX`.
pub data Ec : Type 0 where
  ok complete stopped timeout pthread_unkown noinput nospace get_head_null type_mismatch : Ec
  bad_pyobject cond_init_fail mutex_init_fail null_filter already_running thread_create_fail : Ec
  thread_join_fail dtype_mismatch width_mismatch capacity_mismatch dtype_invalid : Ec
  invalid_dtype invalid_config invalid_config_worker invalid_config_max_inputs : Ec
  invalid_config_max_sinks invalid_config_filter_size invalid_config_filter_t : Ec
  invalid_config_timeout config_required malloc_fail memcpy_fail memset_fail : Ec
  thread_create_name_fail buffer_empty connection_occupied invalid_sink_idx null_buff : Ec
  already_registered not_implemented null_pointer no_sink phase_error type_error alloc : Ec
  invalid_data no_space invalid_precision filter_stopping property_mismatch : Ec

-- `ec == Bp_EC_OK`
unfoldable pub is_ok : Ec → Bool
is_ok ok = true
is_ok _ = false

pub is_ok→eq : (e : Ec) → is_ok e ≡ true → e ≡ ok
unfolding is_ok
is_ok→eq ok h = refl
is_ok→eq _ h = cc

pub ne-ok : (e : Ec) → e ≢ ok → is_ok e ≡ false
ne-ok e h = elim (Bool-cases (is_ok e)) [ inl y ↦ absurd (h (is_ok→eq e y)) | inr n ↦ n ]
