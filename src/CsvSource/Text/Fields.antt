-- ===== src/CsvSource/Text/Fields.antt =====
-- The fields that parse_line (bpipe/csv_source.c) reads, and the columns that parse_header has
-- found for them: every value comes from the field below its column's name.
use bpipe.Base.{
  ℕ, zero, suc, ◌+◌, ◌<◌, ◌≤◌, ◌≡◌, refl, sym, ap, subst, ◌∙◌, inl, inr, true, false, Option, none,
  some, List, [], ◌∷◌, arith, ◌==◌, if◌then◌else◌, length, get_or, get_or-set_self, get_or-set_ne,
  length-set, set, Bool-cases, Option-cases,
}
use bpipe.CsvSource.Text.{Text, Source, Numbers, is_timestamp, parse_fields}

each_place : (P : ℕ → Type 0) → P 0 → ((j : ℕ) → P (suc j)) → (j : ℕ) → P j
each_place P z s zero = z
each_place P z s (suc j) = s j

shifted : (col j : ℕ) → col + 1 + j ≡ col + suc j
shifted col j = omega arith

module _ (numbers : Numbers) (self : Source) where
  -- What a field from the column `col` on is read as.
  abbrev pub number_of : ℕ → Text → Option ℕ
  number_of col field =
      if is_timestamp self col then numbers.strtoull field else numbers.strtod field

  -- Where the loop over the fields ends.
  pub record IsRead (col : ℕ) (fields : List Text) (before : ℕ × List ℕ) (row : ℕ × List ℕ)
      : Type 0 where
    pub times :
        (j : ℕ)
        → j < length fields
        → is_timestamp self (col + j) ≡ true
        → numbers.strtoull (get_or fields j []) ≡ some row.0
    pub values :
        (j : ℕ)
        → j < length fields
        → is_timestamp self (col + j) ≡ false
        → numbers.strtod (get_or fields j []) ≡ some (get_or row.1 (col + j) 0)
    pub earlier : (k : ℕ) → k < col → get_or row.1 k 0 ≡ get_or before.1 k 0
    pub same_time : ((j : ℕ) → col ≤ j → is_timestamp self j ≡ false) → row.0 ≡ before.0

  -- A field that is no number.
  pub record IsBad (col : ℕ) (fields : List Text) : Type 0 where
    pub place : ℕ
    pub inside : place < length fields
    pub unread : number_of (col + place) (get_or fields place []) ≡ none

  abbrev pub Outcome : ℕ → List Text → ℕ × List ℕ → Option (ℕ × List ℕ) → Type 0
  Outcome col fields before none = IsBad col fields
  Outcome col fields before (some row) = IsRead col fields before row

  -- The timestamp's column is one.
  timestamp_once : (i j : ℕ) → is_timestamp self i ≡ true → i < j → is_timestamp self j ≡ false
  timestamp_once i j h lt = elim (Option-cases self.ts_column_index) [
    | inl unset ↦ rw unset
    | inr (k, at) ↦
        let e : (i == k) ≡ true =
          sym (ap (λ o. elim o [ none ↦ false | some n ↦ i == n ]) at) ∙ h in
        rw at (ground arith)
  ]

  -- One field more, in front of fields that are read.
  module _ (col : ℕ) (t : Text) (fields : List Text) (before row : ℕ × List ℕ) where
    times_after :
        (h : IsRead (col + 1) fields before row) (j : ℕ)
        → suc j < length (t ∷ fields)
        → is_timestamp self (col + suc j) ≡ true
        → numbers.strtoull (get_or (t ∷ fields) (suc j) []) ≡ some row.0
    times_after h j lt at = h.times j (omega arith) (ap (is_timestamp self) (shifted col j) ∙ at)

    values_after :
        (h : IsRead (col + 1) fields before row) (j : ℕ)
        → suc j < length (t ∷ fields)
        → is_timestamp self (col + suc j) ≡ false
        → numbers.strtod (get_or (t ∷ fields) (suc j) []) ≡ some (get_or row.1 (col + suc j) 0)
    values_after h j lt at =
        subst (λ (k : ℕ). numbers.strtod (get_or fields j []) ≡ some (get_or row.1 k 0))
          (shifted col j) (h.values j (omega arith) (ap (is_timestamp self) (shifted col j) ∙ at))

  at_first : (col : ℕ) → is_timestamp self (col + 0) ≡ is_timestamp self col
  at_first col = ap (is_timestamp self) (omega arith)

  IsRead-time :
      (col : ℕ) (t : Text) (fields : List Text) (timestamp v : ℕ) (buffer : List ℕ)
      (row : ℕ × List ℕ)
      → is_timestamp self col ≡ true
      → numbers.strtoull t ≡ some v
      → IsRead (col + 1) fields (v, buffer) row
      → IsRead col (t ∷ fields) (timestamp, buffer) row
  IsRead-time col t fields timestamp v buffer row now e h = record {
    times =
        each_place _
          (λ lt at.
            e ∙ ap some (sym (h.same_time (λ j le. timestamp_once col j now (omega arith)))))
          (times_after col t fields (v, buffer) row h);
    values =
        each_place _ (λ lt at. absurd (cc (at_first col)))
          (values_after col t fields (v, buffer) row h);
    earlier = λ k lt. h.earlier k (omega arith);
    same_time = λ none_left. absurd (cc (none_left col (omega arith)));
  }

  IsRead-value :
      (col : ℕ) (t : Text) (fields : List Text) (timestamp v : ℕ) (buffer : List ℕ)
      (row : ℕ × List ℕ)
      → is_timestamp self col ≡ false
      → numbers.strtod t ≡ some v
      → col < length buffer
      → IsRead (col + 1) fields (timestamp, set buffer col v) row
      → IsRead col (t ∷ fields) (timestamp, buffer) row
  IsRead-value col t fields timestamp v buffer row later e room h =
      let before : ℕ × List ℕ = (timestamp, set buffer col v) in
      record {
        times =
            each_place _ (λ lt at. absurd (cc (at_first col)))
              (times_after col t fields before row h);
        values =
            each_place _ (λ lt at. e ∙ ap some (stored h)) (values_after col t fields before row h);
        earlier = λ k lt.
            h.earlier k (omega arith) ∙ get_or-set_ne buffer col k v 0 (λ eq. absurd (omega arith));
        same_time = λ none_left. h.same_time (λ j le. none_left j (omega arith));
      }
    where
      stored :
          IsRead (col + 1) fields (timestamp, set buffer col v) row → v ≡ get_or row.1 (col + 0) 0
      stored r =
          sym (get_or-set_self buffer col v 0 room)
          ∙ sym (r.earlier col (omega arith))
          ∙ ap (λ (k : ℕ). get_or row.1 k 0) {x = col} {y = col + 0} (omega arith)

  IsBad-cons :
      (col : ℕ) (t : Text) (fields : List Text) → IsBad (col + 1) fields → IsBad col (t ∷ fields)
  IsBad-cons col t fields h = record {
    place = suc h.place;
    inside = omega (arith, h.inside);
    unread =
        ap (λ (k : ℕ). number_of k (get_or fields h.place [])) (sym (shifted col h.place))
        ∙ h.unread;
  }

  IsBad-here :
      (col : ℕ) (t : Text) (fields : List Text) → number_of col t ≡ none → IsBad col (t ∷ fields)
  IsBad-here col t fields e = record {
    place = 0;
    inside = omega arith;
    unread = ap (λ (k : ℕ). number_of k t) {x = col + 0} {y = col} (omega arith) ∙ e;
  }

  IsRead-nil : (col : ℕ) (row : ℕ × List ℕ) → IsRead col [] row row
  IsRead-nil col row = record {
    times = λ j lt. absurd (omega arith);
    values = λ j lt. absurd (omega arith);
    earlier = λ k lt. refl;
    same_time = λ h. refl;
  }

  Outcome-cons :
      (col : ℕ) (t : Text) (fields : List Text) (before before' : ℕ × List ℕ)
      → ((row : ℕ × List ℕ)
          → IsRead (col + 1) fields before' row
          → IsRead col (t ∷ fields) before row)
      → (o : Option (ℕ × List ℕ)) → Outcome (col + 1) fields before' o
      → Outcome col (t ∷ fields) before o
  Outcome-cons col t fields before before' f none h = IsBad-cons col t fields h
  Outcome-cons col t fields before before' f (some row) h = f row h

  pub parse_fields-Outcome :
      (rounds col : ℕ) (fields : List Text) (timestamp : ℕ) (buffer : List ℕ)
      → length fields ≤ rounds
      → col + length fields ≤ length buffer
      → Outcome col fields
          (timestamp, buffer)
          (parse_fields numbers self rounds col fields timestamp buffer)
  unfolding parse_fields
  parse_fields-Outcome zero col [] timestamp buffer le fits = IsRead-nil col (timestamp, buffer)
  parse_fields-Outcome (suc rounds) col [] timestamp buffer le fits =
      IsRead-nil col (timestamp, buffer)
  parse_fields-Outcome zero col (t ∷ ts) timestamp buffer le fits = absurd (omega arith)
  parse_fields-Outcome (suc rounds) col (t ∷ ts) timestamp buffer le fits =
      elim (Bool-cases (is_timestamp self col)) [
        | inl now ↦ elim (Option-cases (numbers.strtoull t)) [
          | inl e ↦ rw (now, e, parse_fields) (IsBad-here col t ts (rw now e))
          | inr (v, e) ↦
              rw (now, e, parse_fields)
                (Outcome-cons col t ts (timestamp, buffer) (v, buffer)
                  (λ row. IsRead-time col t ts timestamp v buffer row now e) _
                  (parse_fields-Outcome rounds (col + 1) ts v buffer (omega arith) (omega arith)))
        ]
        | inr later ↦ elim (Option-cases (numbers.strtod t)) [
          | inl e ↦ rw (later, e, parse_fields) (IsBad-here col t ts (rw later e))
          | inr (v, e) ↦
              rw (later, e, parse_fields)
                (Outcome-cons col t ts (timestamp, buffer) (timestamp, set buffer col v)
                  (λ row. IsRead-value col t ts timestamp v buffer row later e (omega arith)) _
                  (parse_fields-Outcome rounds (col + 1) ts timestamp (set buffer col v)
                    (omega arith) (omega (arith, length-set buffer col v))))
        ]
      ]
