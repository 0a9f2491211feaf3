-- ===== src/CsvSource/Tests.antt =====
-- A CSV source at concrete files.
use bpipe.Base.{
  ℕ, ◌+◌, ◌*◌, ◌-◌, ◌≡◌, ◌≢◌, refl, true, false, Option, none, some, List, [], ◌∷◌, ◌++◌, arith,
  leb, ◌&&◌, if◌then◌else◌,
}
use bpipe.Err.{ok, complete}
use bpipe.Ring.{Batch, BatchBuff, zero_batch, zeroed}
use bpipe.CsvSource.Text.{Text, Source, Numbers, Line, parsed, is_cut_off, parse_header, parse_line}
use bpipe.CsvSource.Text.Table.{IsReading, parse_line-parse_header}
use bpipe.CsvSource.{Answer, got, end, csvsource_worker}
use bpipe.CsvSource.Loop.{start, present}

-- Decimal digits, for the two conversions.
abbrev digits : ℕ → Text → Option ℕ
digits n [] = some n
digits n (c ∷ cs) = if leb b'0' c && leb c b'9' then digits (n * 10 + (c - b'0')) cs else none

abbrev decimal : Numbers
decimal = record { strtoull = digits 0; strtod = digits 0; narrowed = λ dtype v. v }

-- Columns "t", "a", "b", of which "b" is wanted.
abbrev unread : Source
unread = record {
  delimiter = b',';
  has_header = true;
  ts_column_name = b't' ∷ [];
  data_column_names = (b'b' ∷ []) ∷ [];
  ts_column_index = none;
  data_column_indices = none ∷ [];
  n_header_columns = 0;
  detect_regular_timing = true;
  loop = false;
  skip_invalid = true;
}

abbrev read : Source
read = record unread {
  ts_column_index = some 0;
  data_column_indices = some 2 ∷ [];
  n_header_columns = 3;
}

abbrev line : Text → Line
line t = record { text = t ++ b'\n' ∷ []; at_end = false; granted = true; stale = 0 }

abbrev names : List Text
names = (b't' ∷ []) ∷ (b'a' ∷ []) ∷ (b'b' ∷ []) ∷ []

abbrev header : Line
header = line (b't' ∷ b',' ∷ b'a' ∷ b',' ∷ b'b' ∷ [])

abbrev fields : List Text
fields = (b'1' ∷ b'0' ∷ []) ∷ (b'5' ∷ []) ∷ (b'7' ∷ []) ∷ []

abbrev row : ℕ → ℕ → Line
row t v = line (b'1' ∷ t ∷ b',' ∷ b'5' ∷ b',' ∷ v ∷ [])

header_found : parse_header (some header) true unread ≡ (ok, read)
unfolding parse_header
header_found = refl

row_parsed : parse_line decimal read (row b'0' b'7') ≡ parsed 10 (7 ∷ [])
unfolding parse_line
row_parsed = refl

-- An empty field shifts the columns behind it: `strtok` passes over it.
empty_shifts : parse_line decimal read (line (b'1' ∷ b',' ∷ b',' ∷ b'7' ∷ [])) ≡ parsed 1 (0 ∷ [])
unfolding parse_line
empty_shifts = refl

-- An empty line is a row at the time that the variable happens to hold.
empty_row : parse_line decimal read (record (line []) { stale = 99 }) ≡ parsed 99 (0 ∷ [])
unfolding parse_line
empty_row = refl

-- Without a header no column is known, and the value is read in front of the array.
no_header :
    parse_line decimal (record unread { has_header = false }) (row b'0' b'7') ≡ parsed 0 (0 ∷ [])
unfolding parse_line
no_header = refl

letter : (c : ℕ) → c ∷ [] ≢ []
letter c e = cc

-- Three rows, of which one is no number, then the end of the file; two rows to a batch.
abbrev answers : List Answer
answers =
    got (row b'0' b'7') ∷ got (row b'x' b'8') ∷ got (row b'2' b'9') ∷ got (row b'4' b'5') ∷ end ∷ []

abbrev sinks : List BatchBuff
sinks = record zeroed { dtype = 2; batch_capacity_expo = 1 } ∷ []

abbrev slot : ℕ → List (List Batch) → Batch
slot col sent = record zero_batch { samples = 0 ∷ 0 ∷ [] }

-- The rows of the times 10 and 12 make a batch of the period 2, and the one of 14 another.
batches_sent :
    (csvsource_worker decimal slot read (present sinks) true answers start).sent
    ≡ (record zero_batch { head = 2; t_ns = 10; period_ns = 2; samples = 7 ∷ 9 ∷ [] } ∷ [])
      ∷ (record zero_batch { head = 1; t_ns = 14; samples = 5 ∷ 0 ∷ [] } ∷ [])
      ∷ (record zero_batch { ec = complete; samples = 0 ∷ 0 ∷ [] } ∷ [])
      ∷ []
unfolding csvsource_worker parse_line is_cut_off
batches_sent = refl

parse_line-parse_header_example :
    IsReading decimal unread names fields (parse_line decimal read (row b'0' b'7'))
parse_line-parse_header_example =
    parse_line-parse_header decimal unread names fields header (row b'0' b'7') true read
      (record { no_time = refl; no_data = refl }) (omega arith)
      (record {
        text = refl;
        plain = (
          (letter b't', (refl, tt)),
          ((letter b'a', (refl, tt)), ((letter b'b', (refl, tt)), tt)),
        );
      })
      (omega arith)
      (record {
        text = refl;
        plain = (
          ((λ e. cc), (refl, (refl, tt))),
          ((letter b'5', (refl, tt)), ((letter b'7', (refl, tt)), tt)),
        );
      })
      refl header_found
