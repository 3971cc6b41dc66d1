-- ===== src/Csv/Entries.antt =====
-- extension/options/csv-parser.js: which rows of an export become entries.
use passwort_manager_yurr.Common.{
  ◌≡◌, ◌≢◌, ◌⊎◌, refl, List, [], Option, none, some, Text, codes, text_eq_iff, trim, All,
  All-filter_map, arith,
}
use passwort_manager_yurr.Platform.{Platform, Url}
use passwort_manager_yurr.Csv.{ok}
use passwort_manager_yurr.Csv.Report.{
  Entry, Report, headers_of, accept_record, read_record, parse_with_report,
}
use passwort_manager_yurr.Csv.Accounting.{parse_with_report-ok_iff}

-- An entry that may enter the vault: a user name, a password that is not blank, and the address of
-- a web page with no credentials in it.
pub record IsImportable (platform : Platform) (e : Entry) : Type 0 where
  pub named : e.username ≢ []
  pub secret : trim e.password ≢ []
  pub typed : Text
  pub page : Url
  pub parsed : platform.parse_url typed ≡ some page
  pub address : e.website_url ≡ page.href
  pub web : (page.protocol ≡ codes "https:") ⊎ (page.protocol ≡ codes "http:")
  pub no_user : page.username ≡ []
  pub no_password : page.password ≡ []

module _ (platform : Platform) (browser : Text) where
  accept_record-IsImportable :
      (headers : List Text) (website user pass : Text) (notes : Option Text) (typed : Text)
      (found : Option Url) (e : Entry)
      → platform.parse_url typed ≡ found
      → accept_record platform browser headers website user pass notes found ≡ some e
      → IsImportable platform e
  unfolding accept_record
  accept_record-IsImportable headers website user pass notes typed none e p h = cc
  accept_record-IsImportable headers website user pass notes typed (some u) e p h = record {
    named = ground arith;
    secret = ground arith;
    typed = typed;
    page = u;
    parsed = p;
    address = ground arith;
    web =
        ground
          (arith, text_eq_iff u.protocol (codes "https:"), text_eq_iff u.protocol (codes "http:"));
    no_user = ground arith;
    no_password = ground arith;
  }

  read_record-IsImportable :
      (headers values : List Text) (e : Entry)
      → read_record platform browser headers values ≡ some e
      → IsImportable platform e
  unfolding read_record
  read_record-IsImportable headers values e h =
      accept_record-IsImportable headers _ _ _ _ _ _ e refl h

  -- Whatever the file, each entry that a report offers for import has a user name, a password that
  -- is not blank, and the address of an http or https page with no credentials in it.
  pub parse_with_report-IsImportable :
      (text : Text) (r : Report)
      → parse_with_report platform text browser ≡ ok r
      → All (IsImportable platform) r.entries
  parse_with_report-IsImportable text r h =
      let x = (parse_with_report-ok_iff platform browser text r).0 h in
      let headers : List Text = headers_of platform x.first in
      rw x.entries (
        All-filter_map (IsImportable platform) (read_record platform browser headers)
          (read_record-IsImportable headers) x.rows)
