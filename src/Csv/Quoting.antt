-- ===== src/Csv/Quoting.antt =====
-- extension/options/csv-parser.js: the texts that `parseRows` refuses for their quotes, with the
-- number of the record that its message names.
use passwort_manager_yurr.Common.{
  ℕ, ◌+◌, ◌≡◌, ◌∙◌, refl, true, false, List, [], ◌∷◌, ◌++◌, Text, All, length, arith,
}
use passwort_manager_yurr.Csv.{
  err, invalid_quoting, unclosed_quote, quoted_step, plain_step, scan, parse_rows,
}
use passwort_manager_yurr.Csv.RoundTrip.{
  Line, IsLine, IsBare, render, double, line_rows, state, scan-bare, scan-double, scan-render,
}

module _ (rows : List (List Text)) where
  scan-unclosed :
      (t field : Text)
      → scan false (double t) (state rows [] field true false true) ≡ err unclosed_quote
  unfolding scan quoted_step
  scan-unclosed [] field = refl
  scan-unclosed (c ∷ t) field = ground (arith, scan-unclosed t (field ++ c ∷ []))

  scan-late_quote :
      (c : ℕ) (t rest : Text)
      → IsBare (c ∷ t)
      → scan false ((c ∷ t) ++ b'"' ∷ rest) (state rows [] [] false false false)
        ≡ err (invalid_quoting (length rows + 1))
  scan-late_quote c t rest h = scan-bare rows [] (c ∷ t) (b'"' ∷ rest) [] false h ∙ stop
    where
      stop :
          scan false (b'"' ∷ rest) (state rows [] (c ∷ t) false false true)
          ≡ err (invalid_quoting (length rows + 1))
      stop = unfold scan plain_step in refl

  scan-after_quote :
      (t rest : Text) (c : ℕ)
      → IsBare (c ∷ [])
      → scan false (double t ++ b'"' ∷ c ∷ rest) (state rows [] [] true false true)
        ≡ err (invalid_quoting (length rows + 1))
  scan-after_quote t rest c k = scan-double rows [] t (c ∷ rest) [] true (ground arith) ∙ stop
    where
      stop :
          scan false (c ∷ rest) (state rows [] t false true true)
          ≡ err (invalid_quoting (length rows + 1))
      stop = unfold scan plain_step in ground arith

-- An opening quote that no later quote closes.
parse_rows-unclosed :
    (ls : List Line) (t : Text)
    → All IsLine ls
    → parse_rows (render ls ++ b'"' ∷ double t) ≡ err unclosed_quote
unfolding parse_rows
parse_rows-unclosed ls t h =
    scan-render [] ls (b'"' ∷ double t) h ∙ scan-unclosed (line_rows ls) t []

-- A quote inside a bare field.
parse_rows-late_quote :
    (ls : List Line) (c : ℕ) (t rest : Text)
    → All IsLine ls
    → IsBare (c ∷ t)
    → parse_rows (render ls ++ ((c ∷ t) ++ b'"' ∷ rest))
      ≡ err (invalid_quoting (length (line_rows ls) + 1))
unfolding parse_rows
parse_rows-late_quote ls c t rest h k =
    scan-render [] ls ((c ∷ t) ++ b'"' ∷ rest) h ∙ scan-late_quote (line_rows ls) c t rest k

-- A closing quote that is followed by a character of a bare field.
parse_rows-after_quote :
    (ls : List Line) (t rest : Text) (c : ℕ)
    → All IsLine ls
    → IsBare (c ∷ [])
    → parse_rows (render ls ++ b'"' ∷ (double t ++ b'"' ∷ c ∷ rest))
      ≡ err (invalid_quoting (length (line_rows ls) + 1))
unfolding parse_rows
parse_rows-after_quote ls t rest c h k =
    scan-render [] ls (b'"' ∷ (double t ++ b'"' ∷ c ∷ rest)) h
    ∙ scan-after_quote (line_rows ls) t rest c k

-- After lines in the CSV format, a last field that opens a quote and does not close it is refused, and
-- so is a quote behind the first character of a bare field, and a closing quote that is followed by a
-- character that is neither a separator, an end of line nor a quote; the last two with the number of
-- the record among those that are kept.
pub parse_rows-quoting :
    (ls : List Line) (quoted : Text) (c : ℕ) (t rest : Text)
    → All IsLine ls
    → IsBare (c ∷ t)
    → (parse_rows (render ls ++ b'"' ∷ double quoted) ≡ err unclosed_quote)
      × (parse_rows (render ls ++ ((c ∷ t) ++ b'"' ∷ rest))
          ≡ err (invalid_quoting (length (line_rows ls) + 1)))
      × (parse_rows (render ls ++ b'"' ∷ (double quoted ++ b'"' ∷ c ∷ rest))
          ≡ err (invalid_quoting (length (line_rows ls) + 1)))
parse_rows-quoting ls quoted c t rest h k = (
  parse_rows-unclosed ls quoted h,
  parse_rows-late_quote ls c t rest h k,
  parse_rows-after_quote ls quoted rest c h (k.0, tt),
)
