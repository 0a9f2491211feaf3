-- ===== src/CsvSource/Text/Header.antt =====
-- What parse_header (bpipe/csv_source.c) has found when it succeeds, and the texts of lines.
use mathlib.Core.List.{map}
use bpipe.Base.{
  ℕ, zero, suc, ◌<◌, ◌≤◌, ◌≡◌, refl, ap, subst, ◌∙◌, Bool, true, false, not, ◌&&◌, Option, none,
  some, List, [], ◌∷◌, ◌++◌, arith, ltb, if◌then◌else◌, length, get_or, replicate, take, All,
}
use bpipe.Err.{Ec, ok, invalid_config, invalid_data, malloc_fail}
use bpipe.CsvSource.Text.{
  Text, Source, Line, max_columns, is_delimiter, tokens, find_columns, is_found, are_found,
  parse_header, chomped, is_cut_off,
}
use bpipe.CsvSource.Text.Tokens.{delimited, IsPlain, tokens-delimited, chomped-line}

pub take-all : (n : ℕ) (xs : List Text) → length xs ≤ n → take n xs ≡ xs
take-all zero [] h = refl
take-all zero (x ∷ xs) h = absurd (omega arith)
take-all (suc n) [] h = refl
take-all (suc n) (x ∷ xs) h = ap (◌∷◌ x) (take-all n xs (omega arith))

pub get_or-map :
    (f : Option ℕ → ℕ) (is : List (Option ℕ)) (k : ℕ)
    → k < length is
    → get_or (map f is) k 0 ≡ f (get_or is k none)
get_or-map f [] k h = absurd (omega arith)
get_or-map f (i ∷ is) zero h = refl
get_or-map f (i ∷ is) (suc k) h = get_or-map f is k (omega arith)

-- A line of the file that holds just these fields.
pub record Renders (self : Source) (fields : List Text) (line : Line) : Type 0 where
  pub text : line.text ≡ delimited self.delimiter fields ++ b'\n' ∷ []
  pub plain : All (IsPlain (is_delimiter self)) fields

-- Before the header has been read no column is found.
pub record IsUnset (self : Source) : Type 0 where
  pub no_time : self.ts_column_index ≡ none
  pub no_data : self.data_column_indices ≡ replicate (length self.data_column_names) none

pub tokens-Renders :
    (self : Source) (fields : List Text) (line : Line)
    → Renders self fields line
    → tokens (is_delimiter self) [] (chomped line.text) ≡ fields
tokens-Renders self fields line h =
    ap (λ (t : Text). tokens (is_delimiter self) [] (chomped t)) h.text
    ∙ ap (tokens (is_delimiter self) []) (chomped-line (delimited self.delimiter fields))
    ∙ tokens-delimited (is_delimiter self) self.delimiter fields (ground arith) h.plain

-- A header that is accepted.
abbrev pub columns_of : Source → Line → List Text
columns_of self line = take max_columns (tokens (is_delimiter self) [] (chomped line.text))

abbrev pub searched : Source → List Text → Source
searched self names = find_columns 0 names (record self { n_header_columns = length names })

header_choice :
    (cut granted unlisted good : Bool) (self counted searched' found : Source)
    → ◌≡◌ {A = Ec × Source}
        (if cut
          then (invalid_data, self)
          else if not granted
          then (malloc_fail, self)
          else if unlisted
          then (malloc_fail, counted)
          else if good
          then (ok, searched')
          else (invalid_config, searched'))
        (ok, found)
    → (good ≡ true) × (searched' ≡ found)
header_choice true granted unlisted good self counted s found h = absurd (cc (ap (λ p. p.0) h))
header_choice false false unlisted good self counted s found h = absurd (cc (ap (λ p. p.0) h))
header_choice false true true good self counted s found h = absurd (cc (ap (λ p. p.0) h))
header_choice false true false true self counted s found h = (refl, ap (λ p. p.1) h)
header_choice false true false false self counted s found h = absurd (cc (ap (λ p. p.0) h))

pub parse_header-ok :
    (self : Source) (line : Line) (listed : Bool) (found : Source)
    → parse_header (some line) listed self ≡ (ok, found)
    → (searched self (columns_of self line) ≡ found)
      × (is_found found.ts_column_index ≡ true)
      × (are_found found.data_column_indices ≡ true)
unfolding parse_header
parse_header-ok self line listed found h =
    let names : List Text = columns_of self line in
    let f : Source = searched self names in
    let (good, e) =
      header_choice (is_cut_off line) line.granted (ltb 0 (length names) && not listed)
        (is_found f.ts_column_index && are_found f.data_column_indices) self
        (record self { n_header_columns = length names }) f found h in
    let both : (is_found found.ts_column_index && are_found found.data_column_indices) ≡ true =
      subst (λ (s : Source). (is_found s.ts_column_index && are_found s.data_column_indices) ≡ true)
        e good in
    (e, ground arith, ground arith)
