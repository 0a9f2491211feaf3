-- ===== src/CsvSource/Text/Tokens.antt =====
-- Reading a delimited line back (the calls of `strtok` in bpipe/csv_source.c).
use mathlib.Core.List.{append_assoc, append-nil}
use bpipe.Base.{ℕ, ◌≡◌, ◌≢◌, refl, sym, ap, ◌∙◌, Bool, true, false, List, [], ◌∷◌, ◌++◌, arith, All}
use bpipe.CsvSource.Text.{Text, tokens, token, chomped, ends_line, same}

-- Fields with the delimiter `d` between them.
abbrev pub delimited : ℕ → List Text → Text
delimited d [] = []
delimited d (x ∷ []) = x
delimited d (x ∷ y ∷ ys) = x ++ d ∷ delimited d (y ∷ ys)

-- A field that `strtok` gives back as it is.
abbrev pub IsPlain : (ℕ → Bool) → Text → Type 0
IsPlain is_delim x = (x ≢ []) × All (λ c. is_delim c ≡ false) x

module _ (is_delim : ℕ → Bool) where
  tokens-within :
      (seen x rest : Text)
      → All (λ c. is_delim c ≡ false) x
      → tokens is_delim seen (x ++ rest) ≡ tokens is_delim (seen ++ x) rest
  unfolding tokens
  tokens-within seen [] rest h = ap (λ (l : Text). tokens is_delim l rest) (sym (append-nil seen))
  tokens-within seen (c ∷ x) rest h = rw h.0 (
      tokens-within (seen ++ c ∷ []) x rest h.1
      ∙ ap (λ (l : Text). tokens is_delim l rest) (append_assoc seen (c ∷ []) x))

  token-plain : (x : Text) (ts : List Text) → x ≢ [] → token x ts ≡ x ∷ ts
  token-plain [] ts h = absurd (h refl)
  token-plain (c ∷ x) ts h = refl

  -- The tokens of delimited fields are the fields.
  pub tokens-delimited :
      (d : ℕ) (xs : List Text)
      → is_delim d ≡ true
      → All (IsPlain is_delim) xs
      → tokens is_delim [] (delimited d xs) ≡ xs
  unfolding tokens
  tokens-delimited d [] hd h = refl
  tokens-delimited d (x ∷ []) hd h =
      ap (tokens is_delim []) (sym (append-nil x))
      ∙ tokens-within [] x [] h.0.1
      ∙ token-plain x [] h.0.0
  tokens-delimited d (x ∷ y ∷ ys) hd h =
      tokens-within [] x (d ∷ delimited d (y ∷ ys)) h.0.1
      ∙ (rw (hd, tokens) (token-plain x _ h.0.0))
      ∙ ap (◌∷◌ x) (tokens-delimited d (y ∷ ys) hd h.1)

pub chomped-line : (x : Text) → chomped (x ++ b'\n' ∷ []) ≡ x
unfolding chomped
chomped-line [] = refl
chomped-line (c ∷ []) = refl
chomped-line (c ∷ d ∷ x) = ap (◌∷◌ c) (chomped-line (d ∷ x))

pub ends_line-line : (x : Text) → ends_line (x ++ b'\n' ∷ []) ≡ true
unfolding ends_line
ends_line-line [] = refl
ends_line-line (c ∷ []) = refl
ends_line-line (c ∷ d ∷ x) = ends_line-line (d ∷ x)

pub same→eq : (a b : Text) → same a b ≡ true → a ≡ b
unfolding same
same→eq [] [] h = refl
same→eq [] (d ∷ ds) h = cc
same→eq (c ∷ cs) [] h = cc
same→eq (c ∷ cs) (d ∷ ds) h =
    let e : c ≡ d = ground arith in let es : cs ≡ ds = same→eq cs ds (ground arith) in cc
