-- ===== src/CsvSource/Text/Table.antt =====
-- A header and the lines below it (bpipe/csv_source.c, parse_header and parse_line).
use mathlib.Core.List.{map}
use bpipe.Base.{
  ℕ, ◌+◌, ◌<◌, ◌≤◌, ◌≡◌, ◌≢◌, refl, sym, ap, ap₂, subst, ◌∙◌, ◌⊎◌, inl, inr, Bool, true, false,
  ◌&&◌, ◌||◌, Option, none, some, List, [], arith, ◌==◌, ==_false, if◌then◌else◌, length, get_or,
  length-replicate, get_or-replicate, replicate, take, Bool-cases, Option-cases,
}
use bpipe.Err.{ok, invalid_data}
use bpipe.CsvSource.Text.{
  Text, Source, Numbers, Line, Parsed, parsed, failed, max_columns, is_delimiter, is_timestamp,
  tokens, is_found, are_found, parse_header, parse_fields, value_at, parse_line, chomped,
}
use bpipe.CsvSource.Text.Columns.{
  IsNamed, ts_column-Found, data_column-Found, find_columns-frame, length-find_columns,
  are_found-get_or,
}
use bpipe.CsvSource.Text.Fields.{IsRead, IsBad, Outcome, parse_fields-Outcome}
use bpipe.CsvSource.Text.Header.{
  take-all, get_or-map, Renders, IsUnset, tokens-Renders, columns_of, searched, parse_header-ok,
}

-- A row as it should be read: its time is the number below the name of the time column, and each
-- value, unless its column is that one, the number below the name of its data column.
pub record IsRow (numbers : Numbers) (self : Source) (names fields : List Text) (timestamp : ℕ)
    (values : List ℕ) : Type 0 where
  pub time :
      (j : ℕ) × (j < length names)
      × (get_or names j [] ≡ self.ts_column_name)
      × (numbers.strtoull (get_or fields j []) ≡ some timestamp)
  pub value :
      (k : ℕ)
      → k < length self.data_column_names
      → get_or self.data_column_names k [] ≢ self.ts_column_name
      → (j : ℕ) × (j < length names)
        × (get_or names j [] ≡ get_or self.data_column_names k [])
        × (numbers.strtod (get_or fields j []) ≡ some (get_or values k 0))

-- A field that is no number: one below the name of the time column that `strtoull` cannot read, or
-- one that `strtod` cannot read, where another column is the time column.
abbrev pub IsUnread : Numbers → Source → List Text → List Text → ℕ → Type 0
IsUnread numbers self names fields j =
    ((get_or names j [] ≡ self.ts_column_name) × (numbers.strtoull (get_or fields j []) ≡ none))
    ⊎ (((i : ℕ) × (i < length names) × (get_or names i [] ≡ self.ts_column_name) × (i ≢ j))
        × (numbers.strtod (get_or fields j []) ≡ none))

-- The reading of a line: the row, or the refusal of one of its fields that is no number.
abbrev pub IsReading : Numbers → Source → List Text → List Text → Parsed → Type 0
IsReading numbers self names fields (parsed timestamp values) =
    IsRow numbers self names fields timestamp values
IsReading numbers self names fields (failed e) =
    (e ≡ invalid_data) × ((j : ℕ) × (j < length fields) × IsUnread numbers self names fields j)

module _ (numbers : Numbers) (self : Source) (unset : IsUnset self) (names : List Text)
    (found : Source) (e : searched self names ≡ found)
    (has_time : is_found found.ts_column_index ≡ true)
    (has_data : are_found found.data_column_indices ≡ true) where
  ts_column : (i : ℕ) → found.ts_column_index ≡ some i → IsNamed 0 names self.ts_column_name i
  ts_column i h =
      elim (ts_column-Found 0 names (record self { n_header_columns = length names }) i
        (ap (λ s. s.ts_column_index) e ∙ h)) [
          | inl before ↦ absurd (cc (unset.no_time))
          | inr named ↦ named
        ]

  wide : length self.data_column_indices ≡ length self.data_column_names
  wide = ap length unset.no_data ∙ length-replicate (length self.data_column_names) none

  many : length found.data_column_indices ≡ length self.data_column_names
  many =
      ap (λ (s : Source). length s.data_column_indices) (sym e)
      ∙ length-find_columns 0 names (record self { n_header_columns = length names }) wide

  data_column :
      (k : ℕ)
      → k < length self.data_column_names
      → (i : ℕ) × (get_or found.data_column_indices k none ≡ some i)
        × IsNamed 0 names (get_or self.data_column_names k []) i
  data_column k h =
      let counted : Source = record self { n_header_columns = length names } in
      let (i, at) = are_found-get_or found.data_column_indices k has_data (omega (arith, many)) in
      let empty : get_or self.data_column_indices k none ≡ none =
        ap (λ is. get_or is k none) unset.no_data
        ∙ get_or-replicate (length self.data_column_names) k none in
      (
        i,
        at,
        elim (data_column-Found 0 names counted k i wide h
            (ap (λ (s : Source). get_or s.data_column_indices k none) e ∙ at)) [
              | inl before ↦ absurd (cc empty)
              | inr named ↦ named
            ],
      )

  -- The time column that was found.
  time_column : (i : ℕ) × (found.ts_column_index ≡ some i)
  time_column = elim (Option-cases found.ts_column_index) [
    | inl unknown ↦ absurd (cc (ap is_found unknown))
    | inr known ↦ known
  ]

  is_timestamp-eq : (i k : ℕ) → found.ts_column_index ≡ some i → is_timestamp found k ≡ (k == i)
  is_timestamp-eq i k h = rw h refl

  module _ (fields : List Text) (same_number : length fields ≡ length names) where
    IsRow-IsRow :
        (row before : ℕ × List ℕ)
        → IsRead numbers found 0 fields before row
        → IsRow numbers self names fields row.0
            (map (value_at numbers found row.1) found.data_column_indices)
    IsRow-IsRow row before h = record {
      time =
          let (i, at) = time_column in
          let named = ts_column i at in
          let now : is_timestamp found (0 + named.place) ≡ true =
            is_timestamp-eq i (0 + named.place) at ∙ ground (arith, named.is_at) in
          (
            named.place,
            named.inside,
            named.carries,
            h.times named.place (omega (arith, named.inside)) now,
          );
      value = λ k lt differs.
          let (i, at, named) = data_column k lt in
          let (t, t_at) = time_column in
          let time = ts_column t t_at in
          let later : is_timestamp found (0 + named.place) ≡ false =
            is_timestamp-eq t (0 + named.place) t_at
            ∙ ==_false (0 + named.place) t (λ eq. differs (
                sym named.carries
                ∙ ap (λ (p : ℕ). get_or names p []) {x = named.place} {y = time.place}
                    (omega (arith, time.is_at))
                ∙ time.carries)) in
          let eq : get_or row.1 (0 + named.place) 0
              ≡ get_or (map (value_at numbers found row.1) found.data_column_indices) k 0 =
            sym (
              get_or-map (value_at numbers found row.1) found.data_column_indices k
                (omega (arith, many))
              ∙ ap (value_at numbers found row.1) at
              ∙ ap (λ (p : ℕ). get_or row.1 p 0) named.is_at) in
          (
            named.place,
            named.inside,
            named.carries,
            h.values named.place (omega (arith, named.inside)) later ∙ ap some eq,
          );
    }

    -- What parse_line makes of what its loop ends with.
    built : Option (ℕ × List ℕ) → Parsed
    built none = failed invalid_data
    built (some row) = parsed row.0 (map (value_at numbers found row.1) found.data_column_indices)

    unread : (h : IsBad numbers found 0 fields) → IsUnread numbers self names fields h.place
    unread h =
        let field : Text = get_or fields h.place [] in
        let choice : Bool → Type 0 =
          λ b. (if b then numbers.strtoull field else numbers.strtod field) ≡ none in
        let (t, t_at) = time_column in
        let time = ts_column t t_at in
        let now_eq = is_timestamp-eq t (0 + h.place) t_at in
        elim (Bool-cases (is_timestamp found (0 + h.place))) [
          | inl now ↦ inl (
            ap (λ (p : ℕ). get_or names p []) {x = h.place} {y = time.place}
                  (ground (arith, time.is_at))
                ∙ time.carries,
            subst choice now h.unread,
          )
          | inr later ↦ inr (
            (time.place, time.inside, time.carries, λ e. ground (arith, time.is_at)),
            subst choice later h.unread,
          )
        ]

    built-IsReading :
        (before : ℕ × List ℕ) (o : Option (ℕ × List ℕ))
        → Outcome numbers found 0 fields before o
        → IsReading numbers self names fields (built o)
    unfolding built
    built-IsReading before none h = (refl, (h.place, h.inside, unread h))
    built-IsReading before (some row) h = IsRow-IsRow row before h

    parse_line-built :
        (line : Line)
        → Renders self fields line
        → line.granted ≡ true
        → parse_line numbers found line
          ≡ built (
              parse_fields numbers found
                (length names)
                0
                fields
                line.stale
                (replicate max_columns 0))
    unfolding parse_line built
    parse_line-built line h granted =
        let (delimiter, header, number) =
          find_columns-frame 0 names (record self { n_header_columns = length names }) in
        let counted : found.n_header_columns ≡ length names =
          ap (λ (s : Source). s.n_header_columns) (sym e) ∙ number in
        let split : tokens (is_delimiter found) [] (chomped line.text) ≡ fields =
          ap (λ (s : Source). tokens (is_delimiter s) [] (chomped line.text)) (sym e)
          ∙ ap₂ (λ d b. tokens (λ c. c == d || (b && c == 1)) [] (chomped line.text)) delimiter
              header
          ∙ tokens-Renders self fields line h in
        rw granted (
          ap₂
            (λ n (ts : List Text).
              built (parse_fields numbers found n 0 ts line.stale (replicate max_columns 0)))
            counted split)

-- Below a header that parse_header accepts, parse_line reads a line with as many fields as there are
-- columns, at most 64, none of them empty: it gives the row whose time is the number below the name
-- of the time column and whose values, in a column other than that, are the numbers below the names
-- of their data columns; or it refuses the line with INVALID_DATA, as `strtoull` cannot read a field
-- below the name of the time column, or `strtod` a field where another column is the time column.
pub parse_line-parse_header :
    (numbers : Numbers) (self : Source) (names fields : List Text) (header line : Line)
    (listed : Bool) (found : Source)
    → IsUnset self
    → length names ≤ max_columns
    → Renders self names header
    → length fields ≡ length names
    → Renders self fields line
    → line.granted ≡ true
    → parse_header (some header) listed self ≡ (ok, found)
    → IsReading numbers self names fields (parse_line numbers found line)
parse_line-parse_header numbers self names fields header line listed found unset few top same rest
      granted h =
    let (e, has_time, has_data) = parse_header-ok self header listed found h in
    let columns : columns_of self header ≡ names =
      ap (take max_columns) (tokens-Renders self names header top)
      ∙ take-all max_columns names few in
    let e' : searched self names ≡ found = ap (searched self) (sym columns) ∙ e in
    let start : List ℕ = replicate max_columns 0 in
    rw
      (parse_line-built numbers self unset names found e' has_time has_data fields same line rest
        granted)
      (built-IsReading numbers self unset names found e' has_time has_data fields same
        (line.stale, start) _
        (parse_fields-Outcome numbers found (length names) 0 fields line.stale start
          (omega (arith, same)) (omega (arith, same, few, length-replicate {A = ℕ} max_columns 0))))
