-- ===== src/Credential/SafeUrl.antt =====
-- extension/background/service-worker.js: the address that a submitted credential is saved for.
use passwort_manager_yurr.Common.{
  ◌≡◌, ◌≢◌, refl, Bool, true, ◌&&◌, ◌||◌, not, [], Option, none, some, Text, text_eq, if◌then◌else◌,
  Bool-cases, inl, inr, arith,
}
use passwort_manager_yurr.Platform.{Platform, Url}
use passwort_manager_yurr.Site.Local.{is_local_host}
use passwort_manager_yurr.Site.Scope.{key}
use passwort_manager_yurr.Credential.{is_page_allowed, is_same_host}

module _ (platform : Platform) where
  abbrev pub may_replace : Url → Url → Bool
  may_replace page candidate =
      is_page_allowed platform candidate.href
      && is_same_host platform page.hostname candidate.hostname
      && (not (is_local_host platform page.hostname)
          || text_eq (key platform page.href) (key platform candidate.href))

  abbrev pub safer : Url → Option Url → Text
  safer page none = page.href
  safer page (some candidate) = if may_replace page candidate then candidate.href else page.href

  abbrev pub safe_from : Option Url → Option Url → Text
  safe_from none candidate = []
  safe_from (some page) candidate =
      if is_page_allowed platform page.href then safer page candidate else []

  -- `getSafeCredentialUrlForPage(candidateUrl, pageUrl)`
  unfoldable pub safe_url : Text → Text → Text
  unfolding is_page_allowed is_same_host
  safe_url candidate_url page_url =
      safe_from (platform.parse_url page_url) (platform.parse_url candidate_url)

  safer-is_page_allowed :
      (page : Url) (candidate : Option Url)
      → is_page_allowed platform page.href ≡ true
      → is_page_allowed platform (safer page candidate) ≡ true
  safer-is_page_allowed page none h = h
  safer-is_page_allowed page (some candidate) h = elim (Bool-cases (may_replace page candidate)) [
    | inr keep ↦ rw keep h
    | inl replace ↦ rw replace (allowed_of replace)
  ]
    where
      allowed_of :
          may_replace page candidate ≡ true → is_page_allowed platform candidate.href ≡ true
      allowed_of r = ground arith

  safe_from-is_page_allowed :
      (page candidate : Option Url)
      → safe_from page candidate ≢ []
      → is_page_allowed platform (safe_from page candidate) ≡ true
  safe_from-is_page_allowed none candidate h = absurd (h refl)
  safe_from-is_page_allowed (some page) candidate h =
      elim (Bool-cases (is_page_allowed platform page.href)) [
        | inl allowed ↦ rw allowed (safer-is_page_allowed page candidate allowed)
        | inr refused ↦ absurd (h (rw refused refl))
      ]

  -- The address that is saved with a credential, where there is one, is always one of an https page
  -- or of a page on a local host, whatever address the page has reported.
  pub safe_url-is_page_allowed :
      (candidate_url page_url : Text)
      → safe_url candidate_url page_url ≢ []
      → is_page_allowed platform (safe_url candidate_url page_url) ≡ true
  unfolding safe_url
  safe_url-is_page_allowed candidate_url page_url h =
      safe_from-is_page_allowed (platform.parse_url page_url) (platform.parse_url candidate_url) h
