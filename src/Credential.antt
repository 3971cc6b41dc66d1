-- ===== src/Credential.antt =====
-- extension/background/service-worker.js: which stored credentials a page may be given.
pub mod Allowed
mod Tests
pub mod Save
pub mod Fill
pub mod Saving
pub mod Rank
pub mod SafeUrl
use passwort_manager_yurr.Common.{
  Bool, true, false, ◌&&◌, ◌||◌, not, List, [], ◌∷◌, ◌++◌, Option, none, some, Text, codes, ◌==◌,
  if◌then◌else◌, text_eq, is_empty, starts_with, strip_first, strip_last, drop,
}
use passwort_manager_yurr.Platform.{Platform, Url}
use passwort_manager_yurr.Site.Local.{is_local_host}
use passwort_manager_yurr.Site.Scope.{parse, key, key_of}

-- The metadata of an entry, without its password.
pub record Metadata : Type 0 where
  pub id : Text
  pub website_url : Text
  pub website_domain : Text
  pub username : Text

module _ (platform : Platform) where
  -- `normalizeHostname`
  abbrev pub normalize_hostname : Text → Text
  normalize_hostname host =
      platform.to_lower_case (strip_last b'.' (strip_last b']' (strip_first b'[' host)))

  abbrev allows_page : Option Url → Bool
  allows_page none = false
  allows_page (some u) =
      text_eq u.protocol (codes "https:")
      || text_eq u.protocol (codes "http:") && is_local_host platform u.hostname

  -- `isCredentialPageAllowed`
  unfoldable pub is_page_allowed : Text → Bool
  is_page_allowed page_url = allows_page (platform.parse_url page_url)

  abbrev strip_www : Text → Text
  strip_www host = if starts_with host (codes "www.") then drop 4 host else host

  -- `stripCommonWwwPrefix`, of a host name that may not be normal yet
  abbrev pub strip_common_www : Text → Text
  strip_common_www host = strip_www (normalize_hostname host)

  -- `isSameCredentialHost`
  unfoldable pub is_same_host : Text → Text → Bool
  is_same_host page_host credential_host =
      let page = normalize_hostname page_host in
      let credential = normalize_hostname credential_host in
      not (is_empty page)
      && not (is_empty credential)
      && (text_eq page credential || text_eq (strip_common_www page) (strip_common_www credential))

  -- `getCredentialHost`
  unfoldable pub credential_host : Metadata → Text
  credential_host c = normalize_hostname (elim (parse platform c.website_url) [
    | none ↦ c.website_domain
    | some u ↦ if is_empty u.hostname then c.website_domain else u.hostname
  ])

  -- The two tests on the credential's URL.
  abbrev matches_local : Url → Option Url → Bool
  matches_local page none = false
  matches_local page (some u) = text_eq (key platform page.href) (key platform u.href)

  abbrev is_https : Option Url → Bool
  is_https none = false
  is_https (some u) = text_eq u.protocol (codes "https:")

  abbrev pub allows : Metadata → Url → Bool
  allows c page =
      let url = parse platform c.website_url in
      if not (is_page_allowed page.href)
      then false
      else if not (is_same_host page.hostname (credential_host c))
      then false
      else if is_local_host platform page.hostname && not (matches_local page url)
      then false
      else not (text_eq page.protocol (codes "http:") && is_https url)

  -- `isCredentialAllowedForPage`
  unfoldable pub is_allowed : Metadata → Text → Bool
  unfolding is_page_allowed is_same_host credential_host
  is_allowed c page_url = elim (platform.parse_url page_url) [
    | none ↦ false
    | some page ↦ allows c page
  ]
