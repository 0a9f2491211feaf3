-- ===== src/Pipeline/Sort.antt =====
-- The topological sort of bpipe/pipeline.c: depth-first visits with the marks `visited` and
-- `visiting`, over arrays indexed like the pipeline's filters.
pub mod Graph
mod Marks
pub mod Visit
mod Leave
mod Dfs
mod Loops
pub mod Correct
use mathlib.Core.List.{reverse}
use bpipe.Base.{
  ℕ, zero, suc, ◌+◌, Bool, true, false, not, ◌||◌, Option, none, some, List, [], ◌∷◌, ◌++◌, ◌==◌,
  if◌then◌else◌, length, get_or, set, replicate,
}
use bpipe.Err.{Ec, ok, invalid_config, is_ok}
use bpipe.Pipeline.{FilterRef, null, Connection, Mapping, Pipeline}

-- The arrays of a sort under way; `sorted` has the entries written so far, `n_sorted` of them.
pub record Visits : Type 0 where
  pub sorted : List FilterRef
  pub visited : List Bool
  pub visiting : List Bool

-- `none`: the fuel of the recursion has run out.
abbrev pub Result : Type 0
Result = Option (Ec × Visits)

-- Go on if the call has returned `Bp_EC_OK`.
pub continue : (Visits → Result) → Result → Result
continue k none = none
continue k (some (e, s)) = if is_ok e then k s else some (e, s)

-- The index of the first entry that is `f`, counted from `i`; 0 if there is none.
pub find_index : List FilterRef → FilterRef → ℕ → ℕ
find_index [] f i = 0
find_index (g ∷ gs) f i = if g == f then i else find_index gs f (i + 1)

-- The loop over the connections, with `call` for the recursive visit.
pub each : (FilterRef → Visits → Result) → FilterRef → List Connection → Visits → Result
each call x [] s = some (ok, s)
each call x (c ∷ cs) s = elim (c.from_filter == x) [
  | true ↦ continue (each call x cs) (call c.to_filter s)
  | false ↦ each call x cs s
]

abbrev pub enter : ℕ → Visits → Visits
enter i s = record s { visiting = set s.visiting i true }

abbrev pub leave : ℕ → FilterRef → Visits → Visits
leave i x s = record {
  sorted = s.sorted ++ x ∷ [];
  visited = set s.visited i true;
  visiting = set s.visiting i false;
}

module _ (filters : List FilterRef) (connections : List Connection) where
  -- `topological_sort_visit`
  pub visit : ℕ → FilterRef → Visits → Result
  unfolding continue find_index each
  visit zero x s = none
  visit (suc fuel) x s =
      let i = find_index filters x 0 in
      elim (get_or s.visiting i false) [
        | true ↦ some (invalid_config, s)
        | false ↦ elim (get_or s.visited i false) [
          | true ↦ some (ok, s)
          | false ↦
              continue (λ s'. some (ok, leave i x s')) (each (visit fuel) x connections (enter i s))
        ]
      ]

  -- The loop that visits the filters for which `starts` holds.
  pub visit_starts : ℕ → (FilterRef → Bool) → List FilterRef → Visits → Result
  visit_starts fuel starts [] s = some (ok, s)
  visit_starts fuel starts (f ∷ fs) s = elim (starts f) [
    | true ↦ continue (visit_starts fuel starts fs) (visit fuel f s)
    | false ↦ visit_starts fuel starts fs s
  ]

  -- The loop over the filters from index `i` on that visits the ones not yet marked.
  pub visit_rest : ℕ → ℕ → List FilterRef → Visits → Result
  visit_rest fuel i [] s = some (ok, s)
  visit_rest fuel i (f ∷ fs) s = elim (get_or s.visited i false) [
    | true ↦ visit_rest fuel (i + 1) fs s
    | false ↦ continue (visit_rest fuel (i + 1) fs) (visit fuel f s)
  ]

-- `is_pipeline_input`, over the first `n` mappings.
is_mapped : ℕ → List Mapping → FilterRef → Bool
is_mapped zero ms f = false
is_mapped (suc n) [] f = false
is_mapped (suc n) (m ∷ ms) f = m.filter == f || is_mapped n ms f

has_upstream : List Connection → FilterRef → Bool
has_upstream [] f = false
has_upstream (c ∷ cs) f = c.to_filter == f || has_upstream cs f

-- With the number of inputs of each filter: where the first loop starts a visit.
pub is_start : Pipeline → (FilterRef → ℕ) → FilterRef → Bool
unfolding is_mapped has_upstream
is_start p n_input_buffers f =
    if f == null
    then false
    else n_input_buffers f == 0
      || (is_mapped p.n_external_inputs p.external_input_mappings f
          || not (has_upstream p.connections f))

abbrev pub no_visits : ℕ → Visits
no_visits n = record { sorted = []; visited = replicate n false; visiting = replicate n false }

-- The recursion is at most one level deeper than there are filters.
abbrev pub sort_fuel : Pipeline → ℕ
sort_fuel p = suc (length p.filters)

pub sort_rest : Pipeline → Visits → Result
unfolding visit_rest
sort_rest p s =
    if length s.sorted == length p.filters
    then some (ok, s)
    else visit_rest p.filters p.connections (sort_fuel p) 0 p.filters s

pub reversed : Result → Option (Ec × List FilterRef)
reversed none = none
reversed (some (e, s)) = if is_ok e then some (e, reverse s.sorted) else some (e, s.sorted)

-- `topological_sort`: its code, and the array that it leaves. The last loop of the source swaps
-- the ends of the array inward, which reverses it.
unfoldable pub topological_sort : Pipeline → (FilterRef → ℕ) → Option (Ec × List FilterRef)
unfolding visit visit_starts is_start sort_rest reversed
topological_sort p n_input_buffers = reversed (
    continue (sort_rest p) (
      visit_starts p.filters p.connections (sort_fuel p) (is_start p n_input_buffers) p.filters
        (no_visits (length p.filters))))
