-- ===== src/Credential/Allowed.antt =====
-- extension/background/service-worker.js: `isCredentialAllowedForPage` against its rules.
use passwort_manager_yurr.Common.{
  true, false, ◌≡◌, ◌≢◌, ◌⊎◌, ◌↔◌, inl, inr, [], none, some, Text, codes, text_eq_iff, Option-cases,
  arith,
}
use passwort_manager_yurr.Platform.{Platform, Url}
use passwort_manager_yurr.Site.Local.{is_local_host}
use passwort_manager_yurr.Site.Scope.{parse, key}
use passwort_manager_yurr.Credential.{
  Metadata, normalize_hostname, strip_common_www, is_page_allowed, is_same_host, credential_host,
  allows, is_allowed,
}

module _ (platform : Platform) where
  -- Equal host names, once normal, up to one leading `www.`.
  abbrev pub SameHost : Text → Text → Type 0
  SameHost p c =
      let page = normalize_hostname platform p in
      let credential = normalize_hostname platform c in
      (page ≢ [])
      × (credential ≢ [])
      × ((page ≡ credential)
          ⊎ (strip_common_www platform page ≡ strip_common_www platform credential))

  is_same_host_iff : (p c : Text) → (is_same_host platform p c ≡ true) ↔ SameHost p c
  unfolding is_same_host
  is_same_host_iff p c =
      let page = normalize_hostname platform p in
      let credential = normalize_hostname platform c in
      ground (
        arith,
        text_eq_iff page credential,
        text_eq_iff (strip_common_www platform page) (strip_common_www platform credential),
      )

  abbrev pub IsSecure : Url → Type 0
  IsSecure page =
      (page.protocol ≡ codes "https:")
      ⊎ ((page.protocol ≡ codes "http:") × (is_local_host platform page.hostname ≡ true))

  abbrev pub IsInScope : Metadata → Url → Type 0
  IsInScope c page =
      (is_local_host platform page.hostname ≡ false)
      ⊎ ((u : Url) × (parse platform c.website_url ≡ some u)
          × (key platform page.href ≡ key platform u.href))

  -- Not a credential of an https page on an http page.
  abbrev pub IsNoDowngrade : Metadata → Url → Type 0
  IsNoDowngrade c page =
      (page.protocol ≢ codes "http:")
      ⊎ (parse platform c.website_url ≡ none)
      ⊎ ((u : Url) × (parse platform c.website_url ≡ some u) × (u.protocol ≢ codes "https:"))

  pub record IsAllowed (c : Metadata) (page_url : Text) : Type 0 where
    pub page : Url
    pub parsed : platform.parse_url page_url ≡ some page
    pub secure : IsSecure page
    pub same_host : SameHost page.hostname (credential_host platform c)
    pub in_scope : IsInScope c page
    pub no_downgrade : IsNoDowngrade c page

  is_page_allowed_iff :
      (page_url : Text) (page : Url)
      → platform.parse_url page_url ≡ some page
      → (is_page_allowed platform page.href ≡ true) ↔ IsSecure page
  unfolding is_page_allowed
  is_page_allowed_iff page_url page parsed = rw (platform.parse_href page_url page parsed) (
      ground (
        arith,
        text_eq_iff page.protocol (codes "https:"),
        text_eq_iff page.protocol (codes "http:"),
      ))

  allows_iff :
      (c : Metadata) (page : Url)
      → (allows platform c page ≡ true) ↔ (
          (is_page_allowed platform page.href ≡ true)
          × (is_same_host platform page.hostname (credential_host platform c) ≡ true)
          × IsInScope c page
          × IsNoDowngrade c page)
  allows_iff c page = elim (Option-cases (parse platform c.website_url)) [
    | inl missing ↦ rw missing (ground (arith, text_eq_iff page.protocol (codes "http:")))
    | inr (u, found) ↦ ground (
      arith,
      text_eq_iff page.protocol (codes "http:"),
      text_eq_iff u.protocol (codes "https:"),
      text_eq_iff (key platform page.href) (key platform u.href),
    )
  ]

  -- A credential is offered to a page exactly if the page is an https page or an http page on a
  -- local host, the two hosts are the same up to `www.`, a local host agrees in its port too, and
  -- a credential stored for https is not offered over http.
  pub is_allowed_iff :
      (c : Metadata) (page_url : Text)
      → (is_allowed platform c page_url ≡ true) ↔ IsAllowed c page_url
  unfolding is_allowed
  is_allowed_iff c page_url = (to, from)
    where
      to : is_allowed platform c page_url ≡ true → IsAllowed c page_url
      to h = elim (Option-cases (platform.parse_url page_url)) [
        | inl missing ↦ cc (rw (missing, is_allowed) at h)
        | inr (page, parsed) ↦
            let (paged, same, in_scope, safe) =
              (allows_iff c page).0 (rw (parsed, is_allowed) at h) in
            record {
              page = page;
              parsed = parsed;
              secure = (is_page_allowed_iff page_url page parsed).0 paged;
              same_host = (is_same_host_iff page.hostname (credential_host platform c)).0 same;
              in_scope = in_scope;
              no_downgrade = safe;
            }
      ]

      from : IsAllowed c page_url → is_allowed platform c page_url ≡ true
      from a =
          rw (a.parsed, is_allowed)
            ((allows_iff c a.page).1 (
              (is_page_allowed_iff page_url a.page a.parsed).1 a.secure,
              (is_same_host_iff a.page.hostname (credential_host platform c)).1 a.same_host,
              a.in_scope,
              a.no_downgrade,
            ))
