-- ===== src/Csv/RoundTrip.antt =====
-- extension/options/csv-parser.js: CSV text as its format describes it, and what `parseRows` makes
-- of it. A field is quoted, with each quote in it doubled, or bare.
use passwort_manager_yurr.Common.{
  ◌≡◌, ◌≢◌, refl, ◌∙◌, ap, sym, Bool, true, false, ◌||◌, List, [], ◌∷◌, ◌++◌, map, append_assoc,
  append-nil, Text, ◌==◌, if◌then◌else◌, is_empty, not, head?, All, arith,
}
use passwort_manager_yurr.Csv.{
  Scan, ok, keep_row, next_is, quoted_step, plain_step, scan, start, parse_rows,
}

pub data Cell : Type 0 where
  quoted bare : Text → Cell

pub data Ending : Type 0 where
  lf crlf : Ending

pub record Line : Type 0 where
  pub first : Cell
  pub more : List Cell
  pub ending : Ending

abbrev pub double : Text → Text
double [] = []
double (c ∷ t) = if c == b'"' then b'"' ∷ b'"' ∷ double t else c ∷ double t

abbrev pub render_cell : Cell → Text
render_cell (quoted t) = b'"' ∷ (double t ++ b'"' ∷ [])
render_cell (bare t) = t

abbrev pub render_more : List Cell → Text
render_more [] = []
render_more (c ∷ cs) = b',' ∷ (render_cell c ++ render_more cs)

abbrev pub render_ending : Ending → Text
render_ending lf = 10 ∷ []
render_ending crlf = 13 ∷ 10 ∷ []

abbrev pub render : List Line → Text
render [] = []
render (l ∷ ls) =
    render_cell l.first ++ (render_more l.more ++ (render_ending l.ending ++ render ls))

abbrev pub IsBare : Text → Type 0
IsBare = All (λ c. (c ≢ b',') × (c ≢ 13) × (c ≢ 10) × (c ≢ b'"'))

abbrev pub IsCell : Cell → Type 0
IsCell (quoted t) = Unit
IsCell (bare t) = IsBare t

abbrev pub value : Cell → Text
value (quoted t) = t
value (bare t) = t

abbrev is_quoted : Cell → Bool
is_quoted (quoted t) = true
is_quoted (bare t) = false

abbrev pub speaks : Cell → Bool
speaks (quoted t) = true
speaks (bare t) = not (is_empty t)

abbrev pub no_cells : List Cell → Bool
no_cells [] = true
no_cells (_ ∷ _) = false

-- A line says something unless it is empty: one bare field with no character.
abbrev pub has_content : Cell → List Cell → Bool
has_content c cs = speaks c || not (no_cells cs)

abbrev pub line_values : Cell → List Cell → List Text
line_values c cs = map value (c ∷ cs)

abbrev pub state : List (List Text) → List Text → Text → Bool → Bool → Bool → Scan
state rows row field quotes closed content = record {
  rows = rows;
  row = row;
  field = field;
  in_quotes = quotes;
  closed_quote = closed;
  has_content = content;
}

module _ (rows : List (List Text)) (row : List Text) where
  pub scan-bare :
      (t rest field : Text) (content : Bool)
      → IsBare t
      → scan false (t ++ rest) (state rows row field false false content)
        ≡ scan false rest (state rows row (field ++ t) false false (content || not (is_empty t)))
  unfolding scan plain_step
  scan-bare [] rest field content h = ground (arith, append-nil field)
  scan-bare (c ∷ t) rest field content (p, h) =
      ground (arith, scan-bare t rest (field ++ c ∷ []) true h, append_assoc field (c ∷ []) t)

  -- Inside quotes, up to the closing one.
  pub scan-double :
      (t rest field : Text) (content : Bool)
      → next_is (head? rest) b'"' ≡ false
      → scan false (double t ++ b'"' ∷ rest) (state rows row field true false content)
        ≡ scan false rest (state rows row (field ++ t) false true content)
  unfolding scan quoted_step
  scan-double [] rest field content h = rw (h, append-nil field)
  scan-double (c ∷ t) rest field content h =
      ground (arith, scan-double t rest (field ++ c ∷ []) content h, append_assoc field (c ∷ []) t)

  scan-cell :
      (cell : Cell) (rest : Text) (content : Bool)
      → IsCell cell
      → next_is (head? rest) b'"' ≡ false
      → scan false (render_cell cell ++ rest) (state rows row [] false false content)
        ≡ scan false rest
            (state rows row (value cell) false (is_quoted cell) (content || speaks cell))
  unfolding scan plain_step
  scan-cell (quoted t) rest content k h =
      ground (arith, scan-double t rest [] true h, append_assoc (double t) (b'"' ∷ []) rest)
  scan-cell (bare t) rest content k h = scan-bare t rest [] content k

-- What stands behind a line's first field.
IsDelimited :
    (cs : List Cell) (e : Ending) (rest : Text)
    → next_is (head? (render_more cs ++ (render_ending e ++ rest))) b'"' ≡ false
IsDelimited [] lf rest = refl
IsDelimited [] crlf rest = refl
IsDelimited (c ∷ cs) e rest = refl

scan-ending :
    (rows : List (List Text)) (row : List Text) (field : Text) (closed content : Bool) (e : Ending)
    (rest : Text)
    → scan false (render_ending e ++ rest) (state rows row field false closed content)
      ≡ scan false rest (state (keep_row content rows (row ++ field ∷ [])) [] [] false false false)
unfolding scan plain_step
scan-ending rows row field closed content lf rest = refl
scan-ending rows row field closed content crlf rest = refl

scan-more :
    (rows : List (List Text)) (row : List Text) (field : Text) (closed content : Bool)
    (cs : List Cell) (e : Ending) (rest : Text)
    → All IsCell cs
    → scan false
        (render_more cs ++ (render_ending e ++ rest))
        (state rows row field false closed content)
      ≡ scan false rest (
          state
            (keep_row (content || not (no_cells cs)) rows (row ++ (field ∷ map value cs)))
            []
            []
            false
            false
            false)
unfolding scan plain_step
scan-more rows row field closed content [] e rest h =
    ground (arith, scan-ending rows row field closed content e rest)
scan-more rows row field closed content (c ∷ cs) e rest (k, h) =
    let tail = render_more cs ++ (render_ending e ++ rest) in
    ground (
      arith,
      append_assoc (render_cell c) (render_more cs) (render_ending e ++ rest),
      scan-cell rows (row ++ field ∷ []) c tail true k (IsDelimited cs e rest),
      scan-more rows (row ++ field ∷ []) (value c) (is_quoted c) true cs e rest h,
      append_assoc row (field ∷ []) (value c ∷ map value cs),
    )

-- The rows that the text stands for: a line that says nothing is left out.
abbrev pub line_rows : List Line → List (List Text)
line_rows [] = []
line_rows (l ∷ ls) =
    if has_content l.first l.more then line_values l.first l.more ∷ line_rows ls else line_rows ls

abbrev pub IsLine : Line → Type 0
IsLine l = IsCell l.first × All IsCell l.more

scan-line :
    (rows : List (List Text)) (l : Line) (rest : Text)
    → IsLine l
    → scan false
        (render_cell l.first ++ (render_more l.more ++ (render_ending l.ending ++ rest)))
        (state rows [] [] false false false)
      ≡ scan false rest (
          state
            (keep_row (has_content l.first l.more) rows (line_values l.first l.more))
            []
            []
            false
            false
            false)
scan-line rows l rest (k, h) =
    let tail = render_more l.more ++ (render_ending l.ending ++ rest) in
    scan-cell rows [] l.first tail false k (IsDelimited l.more l.ending rest)
    ∙ scan-more rows [] (value l.first) (is_quoted l.first) (speaks l.first) l.more l.ending rest h

render-append :
    (l : Line) (ls : List Line) (rest : Text)
    → render (l ∷ ls) ++ rest
      ≡ render_cell l.first
        ++ (render_more l.more ++ (render_ending l.ending ++ (render ls ++ rest)))
render-append l ls rest = simp append_assoc

pub scan-render :
    (rows : List (List Text)) (ls : List Line) (rest : Text)
    → All IsLine ls
    → scan false (render ls ++ rest) (state rows [] [] false false false)
      ≡ scan false rest (state (rows ++ line_rows ls) [] [] false false false)
scan-render rows [] rest h = rw append-nil
scan-render rows (l ∷ ls) rest (k, h) =
    let row = line_values l.first l.more in
    let shown = has_content l.first l.more in
    ground (
      arith,
      render-append l ls rest,
      scan-line rows l (render ls ++ rest) k,
      scan-render (keep_row shown rows row) ls rest h,
      append_assoc rows (row ∷ []) (line_rows ls),
    )

-- Text in the CSV format, each record ended by a line feed or by a carriage return and a line
-- feed, parses to the records' values, with the empty lines left out.
pub parse_rows-render :
    (ls : List Line) → All IsLine ls → parse_rows (render ls) ≡ ok (line_rows ls)
unfolding parse_rows
parse_rows-render ls h =
    ap (λ text. scan false text start) (sym (append-nil (render ls))) ∙ scan-render [] ls [] h
