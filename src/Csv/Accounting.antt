-- ===== src/Csv/Accounting.antt =====
-- extension/options/csv-parser.js: what a report of `parseWithReport` accounts for.
use passwort_manager_yurr.Common.{
  ℕ, suc, ◌+◌, ◌≡◌, ◌↔◌, refl, List, [], ◌∷◌, ◌++◌, none, some, Text, count, length, filter_map,
  All, Option-cases, inl, inr, append_assoc, append-nil, arith,
}
use passwort_manager_yurr.Platform.{Platform}
use passwort_manager_yurr.Csv.{
  Column, url, username, password, Result, ok, err, parse_rows, ◌>>=◌, >>=-eq-ok,
}
use passwort_manager_yurr.Csv.Report.{
  Entry, Report, column_name, strip_bom, check_column, headers_of, read_record, read_records,
  report_rows, parse_with_report,
}

module _ (platform : Platform) (browser : Text) (headers : List Text) where
  abbrev kept : List (List Text) → List Entry
  kept = filter_map (read_record platform browser headers)

  abbrev HasWidths : List (List Text) → Type 0
  HasWidths = All (λ values. length values ≡ length headers)

  misses : List (List Text) → ℕ
  misses [] = 0
  misses (values ∷ rows) = elim (read_record platform browser headers values) [
    | none ↦ suc (misses rows)
    | some _ ↦ misses rows
  ]

  misses-add-length : (rows : List (List Text)) → misses rows + length (kept rows) ≡ length rows
  unfolding misses
  misses-add-length [] = omega arith
  misses-add-length (values ∷ rows) = ground (arith, misses-add-length rows)

  -- The accumulator loop, as a plain recursion.
  read_records-ok :
      (index : ℕ) (rows : List (List Text)) (entries : List Entry) (skipped : ℕ)
      → HasWidths rows
      → read_records platform browser headers index rows entries skipped
        ≡ ok (entries ++ kept rows, skipped + misses rows)
  unfolding read_records misses
  read_records-ok index [] entries skipped h = ground (arith, append-nil entries)
  read_records-ok index (values ∷ rows) entries skipped (w, h) =
      elim (Option-cases (read_record platform browser headers values)) [
        | inl skip ↦ ground (arith, read_records-ok (index + 1) rows entries (skipped + 1) h)
        | inr (e, keep) ↦ ground (
          arith,
          read_records-ok (index + 1) rows (entries ++ e ∷ []) skipped h,
          append_assoc entries (e ∷ []) (kept rows),
        )
      ]

  read_records-HasWidths :
      (index : ℕ) (rows : List (List Text)) (entries : List Entry) (skipped : ℕ)
      (out : List Entry × ℕ)
      → read_records platform browser headers index rows entries skipped ≡ ok out
      → HasWidths rows
  unfolding read_records
  read_records-HasWidths index [] entries skipped out e = tt
  read_records-HasWidths index (values ∷ rows) entries skipped out h =
      elim (Option-cases (read_record platform browser headers values)) [
        | inl skip ↦
            ground (arith, read_records-HasWidths (index + 1) rows entries (skipped + 1) out)
        | inr (e, keep) ↦
            ground (arith, read_records-HasWidths (index + 1) rows (entries ++ e ∷ []) skipped out)
      ]

-- What a successful import says of the file: the scanned rows, each wanted column named exactly
-- once in the header, every record as wide as the header, the entries in the order of the rows,
-- and a count for each row.
pub record IsExport (platform : Platform) (text browser : Text) (r : Report) : Type 0 where
  pub first : List Text
  pub rows : List (List Text)
  pub scanned : parse_rows (strip_bom text) ≡ ok (first ∷ rows)
  pub url_once : count (column_name url) (headers_of platform first) ≡ 1
  pub username_once : count (column_name username) (headers_of platform first) ≡ 1
  pub password_once : count (column_name password) (headers_of platform first) ≡ 1
  pub widths : All (λ values. length values ≡ length (headers_of platform first)) rows
  pub entries :
      r.entries ≡ filter_map (read_record platform browser (headers_of platform first)) rows
  pub skipped : r.skipped_rows + length r.entries ≡ length rows
  pub total : r.total_rows ≡ length rows

module _ (platform : Platform) (browser : Text) where
  check_column-once :
      (headers : List Text) (c : Column) (a : Unit {0})
      → check_column headers c ≡ ok a
      → count (column_name c) headers ≡ 1
  check_column-once headers c a h = ground arith

  once-check_column :
      (headers : List Text) (c : Column)
      → count (column_name c) headers ≡ 1
      → check_column headers c ≡ ok tt
  once-check_column headers c h = ground arith

  IsExport-of_ok :
      (text : Text) (r : Report)
      → parse_with_report platform text browser ≡ ok r
      → IsExport platform text browser r
  unfolding parse_with_report
  IsExport-of_ok text r h = go (parse_rows (strip_bom text)) refl h
    where
      go :
          (m : Result (List (List Text)))
          → parse_rows (strip_bom text) ≡ m
          → (m >>= report_rows platform browser) ≡ ok r
          → IsExport platform text browser r
      go (err e) scanned k = cc
      go (ok []) scanned k = cc
      go (ok (first ∷ rows)) scanned k =
          let headers : List Text = headers_of platform first in
          let (a, url_ok, k1) = >>=-eq-ok (check_column headers url) _ k in
          let (b, username_ok, k2) = >>=-eq-ok (check_column headers username) _ k1 in
          let (c, password_ok, k3) = >>=-eq-ok (check_column headers password) _ k2 in
          let (out, loop, k4) =
            >>=-eq-ok (read_records platform browser headers 0 rows [] 0) _ k3 in
          let widths = read_records-HasWidths platform browser headers 0 rows [] 0 out loop in
          let same = read_records-ok platform browser headers 0 rows [] 0 widths in
          let balance = misses-add-length platform browser headers rows in
          record {
            first = first;
            rows = rows;
            scanned = scanned;
            url_once = check_column-once headers url a url_ok;
            username_once = check_column-once headers username b username_ok;
            password_once = check_column-once headers password c password_ok;
            widths = widths;
            entries = ground arith;
            skipped = ground arith;
            total = ground arith;
          }

  ok_of_IsExport :
      (text : Text) (r : Report)
      → IsExport platform text browser r
      → parse_with_report platform text browser ≡ ok r
  unfolding parse_with_report
  ok_of_IsExport text r x =
      let headers : List Text = headers_of platform x.first in
      let balance = misses-add-length platform browser headers x.rows in
      rw
        (
          x.scanned,
          once-check_column headers url x.url_once,
          once-check_column headers username x.username_once,
          once-check_column headers password x.password_once,
          read_records-ok platform browser headers 0 x.rows [] 0 x.widths,
        )
        (ground arith)

  -- Parsing a browser export succeeds exactly when it scans to a header and records, the header
  -- names each wanted column once and every record is as wide as the header; the report then
  -- holds, in order, the entry of each record that is not skipped, and its entries and skipped
  -- rows add up to the records.
  pub parse_with_report-ok_iff :
      (text : Text) (r : Report)
      → (parse_with_report platform text browser ≡ ok r) ↔ IsExport platform text browser r
  parse_with_report-ok_iff text r = (IsExport-of_ok text r, ok_of_IsExport text r)
