-- ===== src/Credential/Tests.antt =====
-- extension/background/service-worker.js: credential rules at concrete pages.
use passwort_manager_yurr.Common.{
  ◌≡◌, ◌≢◌, ◌↔◌, refl, sym, ◌∙◌, true, false, Text, codes, [], ◌∷◌, ◌++◌, not, none, some, filter,
}
use passwort_manager_yurr.Samples.{sample_platform, stored}
use passwort_manager_yurr.Session.Api.{ok, return}
use passwort_manager_yurr.Site.Scope.{key}
use passwort_manager_yurr.Credential.{Metadata, is_allowed, is_page_allowed}
use passwort_manager_yurr.Credential.SafeUrl.{safe_url, safe_url-is_page_allowed}
use passwort_manager_yurr.Credential.Allowed.{IsAllowed, is_allowed_iff}
use passwort_manager_yurr.Credential.Save.{
  Vault, Detail, Filled, create, update, candidates, same_username, get_credential_by_id,
  save_decision, normalize_username,
}
use passwort_manager_yurr.Credential.Fill.{IsFilled, get_credential_by_id-IsFilled}
use passwort_manager_yurr.Credential.Rank.{comes_first, sort_for_fill, IsFirst, sort_for_fill-lem}
use passwort_manager_yurr.Credential.Saving.{IsJudged, save_decision-IsJudged, save_decision-create}

abbrev entry : Metadata
entry = record {
  id = codes "7";
  website_url = codes "https://www.a.org/login";
  website_domain = codes "a.org";
  username = codes "Ann";
}

abbrev detail : Detail
detail = record { metadata = entry; password = codes "pw" }

abbrev vault : Vault
vault = record { entries_for = λ _. return (entry ∷ []); get_entry = λ _. return detail }

abbrev page : Text
page = codes "https://a.org/x"

pages :
    (is_allowed sample_platform entry page ≡ true)
    × (is_allowed sample_platform entry (codes "http://a.org/") ≡ false)
    × (is_allowed sample_platform entry (codes "https://b.a.org/") ≡ false)
unfolding is_allowed key
pages = (refl, refl, refl)

is_allowed_iff_example :
    (is_allowed sample_platform entry page ≡ true) ↔ IsAllowed sample_platform entry page
is_allowed_iff_example = is_allowed_iff sample_platform entry page

abbrev filled : Filled
filled = record {
  id = codes "7";
  username = codes "Ann";
  password = codes "pw";
  website_url = codes "https://www.a.org/login";
}

fill_run :
    get_credential_by_id sample_platform vault (codes "7") page stored ≡ (ok (some filled), stored)
unfolding get_credential_by_id is_allowed key
fill_run = refl

get_credential_by_id-IsFilled_example :
    IsFilled sample_platform vault (codes "7") page stored filled stored
get_credential_by_id-IsFilled_example =
    get_credential_by_id-IsFilled sample_platform vault (codes "7") page filled stored stored
      fill_run

update_run :
    save_decision sample_platform vault false (entry ∷ []) page (codes " ann") (codes "new") stored
    ≡ (ok (update (codes "7") (codes "Ann") false), stored)
unfolding save_decision is_allowed key
update_run = refl

save_decision-IsJudged_example :
    IsJudged sample_platform vault page (codes "new") (update (codes "7") (codes "Ann") false)
save_decision-IsJudged_example =
    save_decision-IsJudged sample_platform vault page (codes "new") false (entry ∷ [])
      (codes " ann") (update (codes "7") (codes "Ann") false) stored stored update_run

create_run :
    save_decision sample_platform vault false (entry ∷ []) page (codes "bob") (codes "new") stored
    ≡ (ok create, stored)
unfolding save_decision is_allowed key
create_run = refl

save_decision-create_example :
    (normalize_username sample_platform vault (codes "bob") ≢ [])
    × (filter
          (same_username sample_platform vault (codes "bob"))
          (candidates sample_platform vault (entry ∷ []) page)
        ≡ [])
save_decision-create_example =
    save_decision-create sample_platform vault page (codes "new") false (entry ∷ []) (codes "bob")
      stored stored create_run

abbrev other : Metadata
other = record entry { id = codes "8"; username = codes "bob" }

rank_run :
    sort_for_fill sample_platform (codes "bob") none (entry ∷ other ∷ entry ∷ [])
    ≡ other ∷ entry ∷ entry ∷ []
unfolding sort_for_fill
rank_run = refl

sort_for_fill-lem_example :
    (sort_for_fill sample_platform [] (some (codes "8")) (entry ∷ other ∷ [])
      ≡ filter (comes_first sample_platform [] (some (codes "8"))) (entry ∷ other ∷ [])
        ++ filter
            (λ c. not (comes_first sample_platform [] (some (codes "8")) c))
            (entry ∷ other ∷ []))
    × ((c : Metadata)
        → (comes_first sample_platform [] (some (codes "8")) c ≡ true)
          ↔ IsFirst sample_platform [] (some (codes "8")) c)
sort_for_fill-lem_example =
    sort_for_fill-lem sample_platform [] (some (codes "8")) (entry ∷ other ∷ [])

safe_run :
    (safe_url sample_platform (codes "http://a.org/") (codes "https://a.org/")
      ≡ codes "https://a.org/")
    × (safe_url sample_platform (codes "https://www.a.org/") (codes "https://a.org/")
        ≡ codes "https://www.a.org/")
unfolding safe_url key
safe_run = (refl, refl)

safe_url-is_page_allowed_example :
    is_page_allowed sample_platform
      (safe_url sample_platform (codes "http://a.org/") (codes "https://a.org/"))
    ≡ true
safe_url-is_page_allowed_example =
    safe_url-is_page_allowed sample_platform (codes "http://a.org/") (codes "https://a.org/")
      (λ h. cc (sym safe_run.0 ∙ h))
