-- ===== src/Pipeline/Lifecycle/Default.antt =====
-- The operations of bpipe/core.c and of bpipe/batch_matcher.c that pipeline_start calls.
use bpipe.Base.{inl, inr, refl, Bool, not, ◌||◌, none, some, ◌==◌, Bool-cases}
use bpipe.Err.{is_ok}
use bpipe.Filter
use bpipe.Filter.{State, filt_t_ndef, sink}
use bpipe.Matcher.Control.{start_impl, stop_impl}
use bpipe.Pipeline.Lifecycle.{Ops}
use bpipe.Pipeline.Lifecycle.Rollback.{Reliable}

abbrev pub default_ops : Bool → Bool → Ops
default_ops created joined = record {
  start_op = none;
  stop_op = none;
  created = created;
  joined = joined;
}

abbrev pub matcher_ops : Bool → Bool → Ops
matcher_ops created joined = record {
  start_op = some (start_impl created);
  stop_op = some (stop_impl joined);
  created = created;
  joined = joined;
}

pub Reliable-default : (created joined : Bool) → Reliable (default_ops created joined)
unfolding Filter.start Filter.stop is_ok
Reliable-default created joined = record {
  starts = λ s. elim (Bool-cases (s.filter.filt_type == filt_t_ndef)) [
    | inl undefined ↦ simp undefined (inr (refl, refl, refl))
    | inr set_up ↦ elim (Bool-cases s.filter.running) [
      | inl up ↦ simp (set_up, up) (inr (refl, refl, refl))
      | inr idle ↦ elim (Bool-cases s.filter.has_worker) [
        | inr no_worker ↦ simp (set_up, idle, no_worker) (inl (refl, (refl, refl)))
        | inl worker ↦ elim (Bool-cases created) [
          | inl made ↦ simp (set_up, idle, worker, made) (inl (refl, (refl, refl)))
          | inr refused ↦ simp (set_up, idle, worker, refused) (inr (refl, refl, refl))
        ]
      ]
    ]
  ];
  stops = λ s set_up. elim (Bool-cases s.filter.running) [
    | inl up ↦ simp (set_up, up) (refl, refl)
    | inr idle ↦ simp (set_up, idle) (refl, refl)
  ];
}

pub Reliable-matcher : (created joined : Bool) → Reliable (matcher_ops created joined)
unfolding Filter.start Filter.stop start_impl stop_impl is_ok
Reliable-matcher created joined = record {
  starts = λ s. elim (Bool-cases (s.filter.filt_type == filt_t_ndef)) [
    | inl undefined ↦ simp undefined (inr (refl, refl, refl))
    | inr set_up ↦ elim (Bool-cases (not s.filter.size_detected || sink s.filter 0 == 0)) [
      | inl lone ↦ simp (set_up, lone) (inr (refl, refl, refl))
      | inr sized ↦ elim (Bool-cases s.filter.running) [
        | inl up ↦ simp (set_up, sized, up) (inr (refl, refl, refl))
        | inr idle ↦ elim (Bool-cases created) [
          | inl made ↦ simp (set_up, sized, idle, made) (inl (refl, (refl, refl)))
          | inr refused ↦ simp (set_up, sized, idle, refused) (inr (refl, refl, refl))
        ]
      ]
    ]
  ];
  stops = λ s set_up. elim (Bool-cases s.filter.running) [
    | inl up ↦ simp (set_up, up) (refl, refl)
    | inr idle ↦ simp (set_up, idle) (refl, refl)
  ];
}
