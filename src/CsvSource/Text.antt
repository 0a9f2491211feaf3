-- ===== src/CsvSource/Text.antt =====
-- bpipe/csv_source.c: parse_header and parse_line, with what they use of `strtok` and `strcmp`. A
-- C string is the list of its bytes. `strtoull` and `strtod` are arguments.
use mathlib.Core.List.{map}
use bpipe.Base.{
  ℕ, zero, suc, ◌+◌, ◌-◌, ◌<◌, ◌≡◌, Bool, true, false, not, ◌&&◌, ◌||◌, Option, none, some, List,
  [], ◌∷◌, ◌++◌, ltb, leb, ◌==◌, if◌then◌else◌, length, get_or, set, replicate, take, min,
}
use bpipe.Err.{Ec, ok, invalid_config, invalid_data, malloc_fail}
pub mod Tokens
pub mod Columns
pub mod Fields
pub mod Header
pub mod Table

abbrev pub Text : Type 0
Text = List ℕ

-- `BP_CSV_MAX_COLUMNS`
abbrev pub max_columns : ℕ
max_columns = 64

-- `CsvSource_t`: what reading uses of it. An index of -1 is `none`; `data_column_names` and
-- `data_column_indices` have `n_data_columns` entries.
pub record Source : Type 0 where
  pub delimiter : ℕ
  pub has_header : Bool
  pub ts_column_name : Text
  pub data_column_names : List Text
  pub ts_column_index : Option ℕ
  pub data_column_indices : List (Option ℕ)
  pub n_header_columns : ℕ
  pub detect_regular_timing : Bool
  pub loop : Bool
  pub skip_invalid : Bool

-- The numbers of the C library. A conversion that sets `errno` or leaves a rest of the string is
-- `none`; a `double` is its bits. `narrowed` converts one to a sample of a type.
pub record Numbers : Type 0 where
  pub strtoull : Text → Option ℕ
  pub strtod : Text → Option ℕ
  pub narrowed : ℕ → ℕ → ℕ

-- A line that `fgets` has stored, whether that has met the end of the file, whether `strdup` is
-- granted its copy, and what the worker's uninitialised `timestamp` holds.
pub record Line : Type 0 where
  pub text : Text
  pub at_end : Bool
  pub granted : Bool
  pub stale : ℕ

pub data Parsed : Type 0 where
  parsed : (timestamp : ℕ) (values : List ℕ) → Parsed
  failed : Ec → Parsed

-- The newline at the end of a line.
unfoldable pub ends_line : Text → Bool
ends_line [] = false
ends_line (c ∷ []) = c == b'\n'
ends_line (c ∷ d ∷ cs) = ends_line (d ∷ cs)

unfoldable pub chomped : Text → Text
chomped [] = []
chomped (c ∷ []) = if c == b'\n' then [] else c ∷ []
chomped (c ∷ d ∷ cs) = c ∷ chomped (d ∷ cs)

-- The test for a line that did not fit into the buffer.
unfoldable pub is_cut_off : Line → Bool
unfolding ends_line
is_cut_off line = ltb 0 (length line.text) && not (ends_line line.text) && not line.at_end

-- `&self->delimiter` as the set of delimiters of `strtok`: the byte behind the delimiter is
-- `has_header`, and the padding behind that is zero.
abbrev pub is_delimiter : Source → ℕ → Bool
is_delimiter self c = c == self.delimiter || (self.has_header && c == 1)

abbrev pub token : Text → List Text → List Text
token [] ts = ts
token (c ∷ cs) ts = (c ∷ cs) ∷ ts

-- The tokens that `strtok` returns, one call after another; `seen` is the one that it is in.
unfoldable pub tokens : (ℕ → Bool) → Text → Text → List Text
tokens is_delim seen [] = token seen []
tokens is_delim seen (c ∷ cs) = elim (is_delim c) [
  | true ↦ token seen (tokens is_delim [] cs)
  | false ↦ tokens is_delim (seen ++ c ∷ []) cs
]

-- `strcmp(a, b) == 0`
unfoldable pub same : Text → Text → Bool
same [] [] = true
same [] (d ∷ ds) = false
same (c ∷ cs) [] = false
same (c ∷ cs) (d ∷ ds) = c == d && same cs ds

-- The data columns whose name is the token of the column `col`.
unfoldable pub matched_columns : ℕ → Text → List Text → List (Option ℕ) → List (Option ℕ)
unfolding same
matched_columns col name [] indices = indices
matched_columns col name (n ∷ names) [] = []
matched_columns col name (n ∷ names) (i ∷ indices) =
    (if same name n then some col else i) ∷ matched_columns col name names indices

-- A round of the second loop of parse_header.
unfoldable pub find_columns : ℕ → List Text → Source → Source
unfolding matched_columns
find_columns col [] self = self
find_columns col (name ∷ names) self = find_columns (col + 1) names (record self {
  ts_column_index = if same name self.ts_column_name then some col else self.ts_column_index;
  data_column_indices = matched_columns col name self.data_column_names self.data_column_indices;
})

unfoldable pub are_found : List (Option ℕ) → Bool
are_found [] = true
are_found (none ∷ is) = false
are_found (some i ∷ is) = are_found is

abbrev pub is_found : Option ℕ → Bool
is_found none = false
is_found (some i) = true

-- What `fgets` answers for the header: `none` is NULL. `listed` is whether `calloc` is granted the
-- list of names.
unfoldable pub parse_header : Option Line → Bool → Source → Ec × Source
unfolding is_cut_off chomped tokens find_columns are_found
parse_header none listed self = (invalid_data, self)
parse_header (some line) listed self =
    let names = take max_columns (tokens (is_delimiter self) [] (chomped line.text)) in
    let counted = record self { n_header_columns = length names } in
    let found = find_columns 0 names counted in
    if is_cut_off line
    then (invalid_data, self)
    else if not line.granted
    then (malloc_fail, self)
    else if ltb 0 (length names) && not listed
    then (malloc_fail, counted)
    else if is_found found.ts_column_index && are_found found.data_column_indices
    then (ok, found)
    else (invalid_config, found)

-- A token of the column `col`, with what is known of the row.
abbrev pub is_timestamp : Source → ℕ → Bool
is_timestamp self col = elim self.ts_column_index [ none ↦ false | some i ↦ col == i ]

module _ (numbers : Numbers) (self : Source) where
  -- At most `rounds` rounds of the loop over the tokens, from the column `col` on.
  unfoldable pub parse_fields : ℕ → ℕ → List Text → ℕ → List ℕ → Option (ℕ × List ℕ)
  parse_fields zero col ts timestamp buffer = some (timestamp, buffer)
  parse_fields (suc rounds) col [] timestamp buffer = some (timestamp, buffer)
  parse_fields (suc rounds) col (t ∷ ts) timestamp buffer = elim (is_timestamp self col) [
    | true ↦ elim (numbers.strtoull t) [
      | none ↦ none
      | some v ↦ parse_fields rounds (col + 1) ts v buffer
    ]
    | false ↦ elim (numbers.strtod t) [
      | none ↦ none
      | some v ↦ parse_fields rounds (col + 1) ts timestamp (set buffer col v)
    ]
  ]

  -- `parse_buffer` at an index; before its start lies `n_header_columns`, whose bits are read.
  abbrev pub value_at : List ℕ → Option ℕ → ℕ
  value_at buffer none = self.n_header_columns
  value_at buffer (some i) = get_or buffer i 0

  unfoldable pub parse_line : Line → Parsed
  unfolding chomped tokens parse_fields
  parse_line line =
      let fields = tokens (is_delimiter self) [] (chomped line.text) in
      let row = parse_fields self.n_header_columns 0 fields line.stale (replicate max_columns 0) in
      if not line.granted then failed malloc_fail else elim row [
        | none ↦ failed invalid_data
        | some (timestamp, buffer) ↦
            parsed timestamp (map (value_at buffer) self.data_column_indices)
      ]
