-- ===== src/CsvSource/Text/Columns.antt =====
-- The columns that parse_header (bpipe/csv_source.c) finds: each index is that of a column of the
-- header with the wanted name.
use bpipe.Base.{
  ℕ, zero, suc, ◌+◌, ◌<◌, ◌≡◌, refl, ap, subst, ◌⊎◌, inl, inr, true, Option, none, some, List, [],
  ◌∷◌, arith, if◌then◌else◌, length, get_or, Bool-cases,
}
use bpipe.CsvSource.Text.{Text, Source, same, matched_columns, find_columns, are_found}
use bpipe.CsvSource.Text.Tokens.{same→eq}

-- The index `i` is that of a column of this name among those from `col` on.
pub record IsNamed (col : ℕ) (names : List Text) (name : Text) (i : ℕ) : Type 0 where
  pub place : ℕ
  pub is_at : i ≡ col + place
  pub inside : place < length names
  pub carries : get_or names place [] ≡ name

IsNamed-cons :
    (col : ℕ) (x : Text) (names : List Text) (name : Text) (i : ℕ)
    → IsNamed (col + 1) names name i
    → IsNamed col (x ∷ names) name i
IsNamed-cons col x names name i h = record {
  place = suc h.place;
  is_at = omega (arith, h.is_at);
  inside = omega (arith, h.inside);
  carries = h.carries;
}

IsNamed-here : (col : ℕ) (x : Text) (names : List Text) → IsNamed col (x ∷ names) x col
IsNamed-here col x names = record {
  place = 0;
  is_at = omega arith;
  inside = omega arith;
  carries = refl;
}

-- An index found by a search from `col` on, or from before it.
abbrev Found : ℕ → List Text → Text → Option ℕ → ℕ → Type 0
Found col names name before i = (before ≡ some i) ⊎ IsNamed col names name i

-- A name that is met now, or an index from before.
choose-Found :
    (col : ℕ) (x : Text) (names : List Text) (name : Text) (before : Option ℕ) (i : ℕ)
    → Found (col + 1) names name (if same x name then some col else before) i
    → Found col (x ∷ names) name before i
choose-Found col x names name before i (inr h) = inr (IsNamed-cons col x names name i h)
choose-Found col x names name before i (inl e) = elim (Bool-cases (same x name)) [
  | inl met ↦
      let at : col ≡ i = ground arith in
      let eq : x ≡ name = same→eq x name met in
      inr (
        subst (λ (n : Text). IsNamed col (x ∷ names) n i) eq
          (subst (λ (k : ℕ). IsNamed col (x ∷ names) x k) at (IsNamed-here col x names)))
  | inr other ↦ inl (ground arith)
]

get_or-matched :
    (col : ℕ) (x : Text) (names : List Text) (indices : List (Option ℕ)) (k : ℕ)
    → length indices ≡ length names
    → k < length names
    → get_or (matched_columns col x names indices) k none
      ≡ (if same x (get_or names k []) then some col else get_or indices k none)
unfolding matched_columns
get_or-matched col x [] indices k e h = absurd (omega arith)
get_or-matched col x (n ∷ ns) [] k e h = absurd (omega arith)
get_or-matched col x (n ∷ ns) (i ∷ is) zero e h = refl
get_or-matched col x (n ∷ ns) (i ∷ is) (suc k) e h =
    get_or-matched col x ns is k (omega arith) (omega arith)

length-matched :
    (col : ℕ) (x : Text) (names : List Text) (indices : List (Option ℕ))
    → length indices ≡ length names
    → length (matched_columns col x names indices) ≡ length names
unfolding matched_columns
length-matched col x [] indices e = e
length-matched col x (n ∷ ns) [] e = absurd (omega arith)
length-matched col x (n ∷ ns) (i ∷ is) e = ap suc (length-matched col x ns is (omega arith))

pub ts_column-Found :
    (col : ℕ) (names : List Text) (self : Source) (i : ℕ)
    → (find_columns col names self).ts_column_index ≡ some i
    → Found col names self.ts_column_name self.ts_column_index i
unfolding find_columns
ts_column-Found col [] self i h = inl h
ts_column-Found col (x ∷ names) self i h =
    choose-Found col x names self.ts_column_name self.ts_column_index i
      (ts_column-Found (col + 1) names _ i h)

pub data_column-Found :
    (col : ℕ) (names : List Text) (self : Source) (k i : ℕ)
    → length self.data_column_indices ≡ length self.data_column_names
    → k < length self.data_column_names
    → get_or (find_columns col names self).data_column_indices k none ≡ some i
    → Found col names
        (get_or self.data_column_names k [])
        (get_or self.data_column_indices k none)
        i
unfolding find_columns
data_column-Found col [] self k i e lt h = inl h
data_column-Found col (x ∷ names) self k i e lt h =
    let wanted : List Text = self.data_column_names in
    let indices : List (Option ℕ) = self.data_column_indices in
    let met =
      data_column-Found (col + 1) names _ k i (length-matched col x wanted indices e) lt h in
    choose-Found col x names (get_or wanted k []) (get_or indices k none) i (
      subst (λ o. Found (col + 1) names (get_or wanted k []) o i)
        (get_or-matched col x wanted indices k e lt) met)

-- What the search leaves alone.
pub find_columns-frame :
    (col : ℕ) (names : List Text) (self : Source)
    → ((find_columns col names self).delimiter ≡ self.delimiter)
      × ((find_columns col names self).has_header ≡ self.has_header)
      × ((find_columns col names self).n_header_columns ≡ self.n_header_columns)
unfolding find_columns
find_columns-frame col [] self = (refl, refl, refl)
find_columns-frame col (x ∷ names) self = find_columns-frame (col + 1) names _

pub length-find_columns :
    (col : ℕ) (names : List Text) (self : Source)
    → length self.data_column_indices ≡ length self.data_column_names
    → length (find_columns col names self).data_column_indices ≡ length self.data_column_names
unfolding find_columns
length-find_columns col [] self e = e
length-find_columns col (x ∷ names) self e =
    length-find_columns (col + 1) names _
      (length-matched col x self.data_column_names self.data_column_indices e)

pub are_found-get_or :
    (indices : List (Option ℕ)) (k : ℕ)
    → are_found indices ≡ true
    → k < length indices
    → (i : ℕ) × (get_or indices k none ≡ some i)
unfolding are_found
are_found-get_or [] k h lt = absurd (omega arith)
are_found-get_or (none ∷ is) k h lt = absurd (cc)
are_found-get_or (some i ∷ is) zero h lt = (i, refl)
are_found-get_or (some i ∷ is) (suc k) h lt = are_found-get_or is k h (omega arith)
