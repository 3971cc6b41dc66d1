-- ===== src/Csv.antt =====
-- extension/options/csv-parser.js: the scanner `parseRows` of browser password exports. Its local
-- variables are the record `Scan`, and a `throw` is a value of `Error`.
pub mod Report
pub mod Accounting
pub mod RoundTrip
pub mod Quoting
pub mod Entries
mod Tests
use passwort_manager_yurr.Common.{
  ℕ, ◌+◌, ◌≡◌, refl, Bool, true, false, not, ◌&&◌, ◌||◌, List, [], ◌∷◌, ◌++◌, Option, none, some,
  Text, ◌==◌, if◌then◌else◌, is_empty, head?, length,
}

pub data Column : Type 0 where
  url username password : Column

pub data Error : Type 0 where
  empty_file unclosed_quote : Error
  invalid_quoting : ℕ → Error
  column_count : Column → Error
  record_width : ℕ → ℕ → ℕ → Error

pub data Result {ℓ} (A : Type ℓ) : Type ℓ where
  err : Error → Result A
  ok : A → Result A

infixl 5 ◌>>=◌
abbrev pub ◌>>=◌ {ℓ κ} : {A : Type ℓ} {C : Type κ} → Result A → (A → Result C) → Result C
err e >>= next = err e
ok value >>= next = next value

-- Inversion of a successful bind.
pub >>=-eq-ok {ℓ κ} :
    {A : Type ℓ} {C : Type κ} (first : Result A) (next : A → Result C) {out : C}
    → (first >>= next) ≡ ok out
    → (value : A) × (first ≡ ok value) × (next value ≡ ok out)
>>=-eq-ok (err e) next h = cc
>>=-eq-ok (ok value) next h = (value, refl, h)

pub record Scan : Type 0 where
  pub rows : List (List Text)
  pub row : List Text
  pub field : Text
  pub in_quotes : Bool
  pub closed_quote : Bool
  pub has_content : Bool

abbrev pub start : Scan
start = record {
  rows = [];
  row = [];
  field = [];
  in_quotes = false;
  closed_quote = false;
  has_content = false;
}

abbrev pub finish_field : Scan → Scan
finish_field s = record s { row = s.row ++ s.field ∷ []; field = []; closed_quote = false }

abbrev pub keep_row : Bool → List (List Text) → List Text → List (List Text)
keep_row true rows row = rows ++ row ∷ []
keep_row false rows row = rows

abbrev pub finish_record : Scan → Scan
finish_record s =
    let t = finish_field s in
    record t { rows = keep_row s.has_content s.rows t.row; row = []; has_content = false }

-- `text[i + 1] === c`: false at the end of the text.
abbrev pub next_is : Option ℕ → ℕ → Bool
next_is none c = false
next_is (some d) c = d == c

-- The branch for a character inside quotes. The flag beside the new state tells that the next
-- character is skipped (`i += 1`).
unfoldable pub quoted_step : ℕ → Option ℕ → Scan → Scan × Bool
quoted_step c next s =
    if c == b'"'
    then if next_is next b'"'
      then (record s { field = s.field ++ b'"' ∷ [] }, true)
      else (record s { in_quotes = false; closed_quote = true }, false)
    else (record s { field = s.field ++ c ∷ [] }, false)

-- The branches for a character outside quotes.
unfoldable pub plain_step : ℕ → Option ℕ → Scan → Result (Scan × Bool)
plain_step c next s =
    if c == b','
    then ok (finish_field (record s { has_content = true }), false)
    else if c == 13 || c == 10
    then ok (finish_record s, c == 13 && next_is next 10)
    else if c == b'"' && is_empty s.field && not s.closed_quote
    then ok (record s { has_content = true; in_quotes = true }, false)
    else if s.closed_quote || c == b'"'
    then err (invalid_quoting (length s.rows + 1))
    else ok (record s { has_content = true; field = s.field ++ c ∷ [] }, false)

-- One round of the loop.
abbrev pub step : ℕ → Option ℕ → Scan → Result (Scan × Bool)
step c next s = if s.in_quotes then ok (quoted_step c next s) else plain_step c next s

-- After the loop.
abbrev pub finish : Scan → Result (List (List Text))
finish s =
    if s.in_quotes
    then err unclosed_quote
    else ok (if s.has_content then (finish_record s).rows else s.rows)

-- The loop; the flag skips the character that the round before has read ahead.
unfoldable pub scan : Bool → Text → Scan → Result (List (List Text))
scan skip [] s = finish s
scan true (c ∷ text) s = scan false text s
scan false (c ∷ text) s = do (s', skip) ← step c (head? text) s; scan skip text s'

unfoldable pub parse_rows : Text → Result (List (List Text))
unfolding scan quoted_step plain_step
parse_rows text = scan false text start
