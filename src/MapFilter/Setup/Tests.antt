-- ===== src/MapFilter/Setup/Tests.antt =====
-- Map filters with batches of two and of four samples.
use bpipe.Base.{ℕ, ◌≡◌, ◌≢◌, ◌↔◌, ◌≤◌, refl, sym, ◌∙◌, true, some, [], ◌∷◌, arith}
use bpipe.Err.{ok, is_ok}
use bpipe.Ring.{Config, zeroed}
use bpipe.Buffer.Setup
use bpipe.Buffer.Setup.{Alloc}
use bpipe.Filter.{State, input, sink_connect, Filter}
use bpipe.Filter.Lifecycle.{init}
use bpipe.Filter.Kind.{Platform, own_batches, with_output}
use bpipe.Filter.Contract.{append_behavior, append_constraint, constraints_from_buffer_append}
use bpipe.Filter.Connect.{connect}
use bpipe.MapFilter.Setup.{map_init}
use bpipe.MapFilter.Setup.Joined.{map_init-connect}

abbrev platform : ℕ → Platform
platform pointer = record {
  sizeof_filter = 1;
  size = 2;
  answers =
      record {
        pointer = pointer;
        granted = record {
          batch_ring = true;
          data_ring = true;
          mutex = true;
          not_empty = true;
          not_full = true;
        };
      }
      ∷ [];
  mutex = true;
}

abbrev sized : ℕ → Config
sized expo = record {
  dtype = 1;
  batch_capacity_expo = expo;
  ring_capacity_expo = 2;
  overflow_behaviour = 0;
}

abbrev first : State
first = (map_init (platform 1) (sized 1) 0 true (λ r. zeroed)).1

abbrev second : State
second = (map_init (platform 2) (sized 2) 0 true first.heap).1

first_made : map_init (platform 1) (sized 1) 0 true (λ r. zeroed) ≡ (ok, first)
unfolding map_init init Setup.init is_ok
first_made = refl

second_made : map_init (platform 2) (sized 2) 0 true first.heap ≡ (ok, second)
unfolding map_init init Setup.init is_ok
second_made = refl

first_buffer : input first.filter 0 ≡ 1
unfolding map_init init Setup.init is_ok with_output own_batches append_behavior append_constraint
    constraints_from_buffer_append
first_buffer = refl

second_buffer : input second.filter 0 ≡ 2
unfolding map_init init Setup.init is_ok with_output own_batches append_behavior append_constraint
    constraints_from_buffer_append
second_buffer = refl

two_ne_one : ¬ (◌≡◌ {A = ℕ} 2 1)
two_ne_one e = absurd (omega arith)

apart : input second.filter 0 ≢ input first.filter 0
apart e = two_ne_one (sym second_buffer ∙ e ∙ first_buffer)

map_init-connect_example :
    ((s' : State) × (f' : Filter) × (connect sink_connect
          (record first { heap = second.heap })
          0
          second.filter
          0
        ≡ some (ok, s', f')))
    ↔ (◌≡◌ {A = ℕ} 1 1 × (1 ≤ 2))
map_init-connect_example =
    map_init-connect (platform 1) (platform 2) (sized 1) (sized 2) 0 0 (λ r. zeroed) first second
      first_made second_made apart
