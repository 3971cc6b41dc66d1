-- ===== src/Csv/Tests.antt =====
-- extension/options/csv-parser.js: runs of the parser, and its theorems at concrete files.
use passwort_manager_yurr.Common.{
  ◌≡◌, ◌↔◌, refl, [], ◌∷◌, ◌++◌, some, none, Text, codes, trim, List, All, arith,
}
use passwort_manager_yurr.Samples.{sample_platform}
use passwort_manager_yurr.Csv.{
  parse_rows, ok, err, unclosed_quote, invalid_quoting, record_width, column_count, Column,
}
use passwort_manager_yurr.Csv.Report.{
  Report, Entry, parse_with_report, parse, read_record, has_scheme,
}
use passwort_manager_yurr.Csv.Accounting.{IsExport, parse_with_report-ok_iff}
use passwort_manager_yurr.Csv.Entries.{IsImportable, parse_with_report-IsImportable}
use passwort_manager_yurr.Csv.RoundTrip.{
  Line, Ending, quoted, bare, render, double, parse_rows-render,
}
use passwort_manager_yurr.Csv.Quoting.{parse_rows-quoting}

-- All that a run computes with.
program : Unit {0}
unfolding parse parse_with_report parse_rows read_record has_scheme trim
program = tt

two_rows :
    parse_rows (codes "a,b\n\n\"x,\"\"y\",\n")
    ≡ ok ((codes "a" ∷ codes "b" ∷ []) ∷ (codes "x,\"y" ∷ codes "" ∷ []) ∷ [])
unfolding parse_rows
two_rows = refl

bad_quotes : parse_rows (codes "a\n\"x\"y") ≡ err (invalid_quoting 2)
unfolding parse_rows
bad_quotes = refl

abbrev header : Text
header = codes "URL, username ,password,note\n"

abbrev export : Text
export = header ++ codes "a.org,ann,pw 1,hi\nb.org,,x,\n"

abbrev ann : Entry
ann = record {
  website_url = codes "https://a.org/";
  username = codes "ann";
  password = codes "pw 1";
  notes = some (codes "hi");
}

abbrev export_report : Report
export_report = record { entries = ann ∷ []; skipped_rows = 1; total_rows = 2 }

export_run : parse_with_report sample_platform export (codes "chrome") ≡ ok export_report
unfolding program
export_run = refl

firefox_run : parse sample_platform export (codes "firefox") ≡ ok (record ann { notes = none } ∷ [])
unfolding program
firefox_run = refl

narrow_record :
    parse_with_report sample_platform (header ++ codes "a,b") (codes "chrome")
    ≡ err (record_width 2 2 4)
unfolding program
narrow_record = refl

no_url_column :
    parse_with_report sample_platform (codes "username,password") (codes "chrome")
    ≡ err (column_count Column.url)
unfolding program
no_url_column = refl

parse_with_report-ok_iff_example :
    (parse_with_report sample_platform export (codes "chrome") ≡ ok export_report)
    ↔ IsExport sample_platform export (codes "chrome") export_report
parse_with_report-ok_iff_example =
    parse_with_report-ok_iff sample_platform (codes "chrome") export export_report

parse_with_report-IsImportable_example : All (IsImportable sample_platform) (ann ∷ [])
parse_with_report-IsImportable_example =
    parse_with_report-IsImportable sample_platform (codes "chrome") export export_report export_run

abbrev lines : List Line
lines =
    record { first = bare (codes "a"); more = quoted (codes "x\"\n") ∷ []; ending = Ending.crlf }
    ∷ record { first = bare []; more = []; ending = Ending.lf }
    ∷ []

parse_rows-render_example : parse_rows (render lines) ≡ ok ((codes "a" ∷ codes "x\"\n" ∷ []) ∷ [])
parse_rows-render_example = parse_rows-render lines (omega arith)

parse_rows-quoting_example :
    (parse_rows (render lines ++ b'"' ∷ double (codes "y\"")) ≡ err unclosed_quote)
    × (parse_rows (render lines ++ (codes "zz" ++ b'"' ∷ codes "z")) ≡ err (invalid_quoting 2))
    × (parse_rows (render lines ++ b'"' ∷ (double (codes "y\"") ++ b'"' ∷ b'z' ∷ codes "z"))
        ≡ err (invalid_quoting 2))
parse_rows-quoting_example =
    parse_rows-quoting lines (codes "y\"") b'z' (codes "z") (codes "z") (omega arith) (omega arith)
