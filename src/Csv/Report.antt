-- ===== src/Csv/Report.antt =====
-- extension/options/csv-parser.js: `parseWithReport`, from the scanned rows to the entries.
use passwort_manager_yurr.Common.{
  ℕ, ◌+◌, Bool, true, false, not, ◌&&◌, ◌||◌, List, [], ◌∷◌, ◌++◌, map, Option, none, some, Text,
  codes, text_eq, is_empty, starts_with, index_of, count, trim, leb, ◌==◌, if◌then◌else◌, length,
  get_elem?,
}
use passwort_manager_yurr.Platform.{Platform, Url}
use passwort_manager_yurr.Csv.{
  Column, url, username, password, empty_file, column_count, record_width, Result, ok, err, ◌>>=◌,
  parse_rows,
}

pub record Entry : Type 0 where
  pub website_url : Text
  pub username : Text
  pub password : Text
  pub notes : Option Text

pub record Report : Type 0 where
  pub entries : List Entry
  pub skipped_rows : ℕ
  pub total_rows : ℕ

abbrev pub column_name : Column → Text
column_name url = codes "url"
column_name username = codes "username"
column_name password = codes "password"

-- `.replace(/^\uFEFF/, '')`
abbrev pub strip_bom : Text → Text
strip_bom [] = []
strip_bom (c ∷ text) = if c == 0xfeff then text else c ∷ text

abbrev is_letter : ℕ → Bool
is_letter c = leb b'a' c && leb c b'z' || leb b'A' c && leb c b'Z'

abbrev is_scheme_char : ℕ → Bool
is_scheme_char c = is_letter c || leb b'0' c && leb c b'9' || c == b'+' || c == b'.' || c == b'-'

scheme_tail : Text → Bool
scheme_tail [] = false
scheme_tail (c ∷ s) = if is_scheme_char c then scheme_tail s else starts_with (c ∷ s) (codes "://")

-- `/^[a-z][a-z0-9+.-]*:\/\//i.test(website)`
unfoldable pub has_scheme : Text → Bool
unfolding scheme_tail
has_scheme [] = false
has_scheme (c ∷ s) = is_letter c && scheme_tail s

-- `values[headers.indexOf(name)] || ''`
abbrev pub field_of : List Text → List Text → Text → Text
field_of headers values name = elim (index_of name headers) [
  | none ↦ []
  | some i ↦ elim (get_elem? values i) [ none ↦ [] | some v ↦ v ]
]

abbrev pub or_null : Text → Option Text
or_null [] = none
or_null (c ∷ s) = some (c ∷ s)

abbrev pub is_web_protocol : Text → Bool
is_web_protocol p = text_eq p (codes "https:") || text_eq p (codes "http:")

module _ (platform : Platform) (browser : Text) (headers : List Text) where
  -- `field('note') || field('notes') || null`
  abbrev pub notes_of : List Text → Option Text
  notes_of values =
      if text_eq browser (codes "firefox")
      then none
      else if is_empty (field_of headers values (codes "note"))
      then or_null (field_of headers values (codes "notes"))
      else some (field_of headers values (codes "note"))

  -- The entry of a row that is not skipped, once its URL is parsed.
  unfoldable pub accept_record : Text → Text → Text → Option Text → Option Url → Option Entry
  accept_record website user pass notes none = none
  accept_record website user pass notes (some u) =
      if is_empty website
        || is_empty user
        || is_empty (trim pass)
        || not (is_web_protocol u.protocol)
        || not (is_empty u.username)
        || not (is_empty u.password)
      then none
      else some (record { website_url = u.href; username = user; password = pass; notes = notes })

  -- The body of the loop over the records: `none` where it counts a skipped row.
  unfoldable pub read_record : List Text → Option Entry
  unfolding accept_record
  read_record values =
      let website = trim (field_of headers values (codes "url")) in
      let target = if has_scheme website then website else codes "https://" ++ website in
      accept_record website (trim (field_of headers values (codes "username")))
        (field_of headers values (codes "password")) (notes_of values) (platform.parse_url target)

  -- The loop over the records.
  unfoldable pub read_records : ℕ → List (List Text) → List Entry → ℕ → Result (List Entry × ℕ)
  read_records index [] entries skipped = ok (entries, skipped)
  read_records index (values ∷ rows) entries skipped = elim (length values == length headers) [
    | false ↦ err (record_width (index + 2) (length values) (length headers))
    | true ↦ elim (read_record values) [
      | none ↦ read_records (index + 1) rows entries (skipped + 1)
      | some e ↦ read_records (index + 1) rows (entries ++ e ∷ []) skipped
    ]
  ]

abbrev pub check_column : List Text → Column → Result (Unit {0})
check_column headers c = if count (column_name c) headers == 1 then ok tt else err (column_count c)

module _ (platform : Platform) where
  abbrev pub headers_of : List Text → List Text
  headers_of row = map (λ value. platform.to_lower_case (trim value)) row

  unfoldable pub report_rows : Text → List (List Text) → Result Report
  unfolding read_records
  report_rows browser [] = err empty_file
  report_rows browser (first ∷ rows) = do
    let headers = headers_of first
    _ ← check_column headers url
    _ ← check_column headers username
    _ ← check_column headers password
    (entries, skipped) ← read_records platform browser headers 0 rows [] 0
    ok (record { entries = entries; skipped_rows = skipped; total_rows = length rows })

  unfoldable pub parse_with_report : Text → Text → Result Report
  unfolding report_rows
  parse_with_report text browser = do rows ← parse_rows (strip_bom text); report_rows browser rows

  -- `parse`
  unfoldable pub parse : Text → Text → Result (List Entry)
  unfolding parse_with_report
  parse text browser = do report ← parse_with_report text browser; ok report.entries
