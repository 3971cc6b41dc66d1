-- ===== src/Credential/Fill.antt =====
-- extension/background/service-worker.js: what `getCredentialForPageById` hands to a page.
use passwort_manager_yurr.Common.{
  Bool, true, ◌≡◌, refl, List, [], ◌∷◌, Option, none, some, Text, text_eq, text_eq_iff, find, Among,
  find-Among, is_empty, Bool-cases, inl, inr, arith,
}
use passwort_manager_yurr.Platform.{Platform}
use passwort_manager_yurr.Site.Scope.{key}
use passwort_manager_yurr.Credential.{Metadata, is_allowed}
use passwort_manager_yurr.Credential.Allowed.{IsAllowed, is_allowed_iff}
use passwort_manager_yurr.World.{World}
use passwort_manager_yurr.Session.Api.{M, ok, return, then_run, then_run-eq-ok, if-eq}
use passwort_manager_yurr.Credential.Save.{
  Detail, Filled, Vault, filled_from, fill_detail, fill_entry, get_credential_by_id,
}

find-some {ℓ} : {A : Type ℓ} (p : A → Bool) (xs : List A) (x : A) → find p xs ≡ some x → p x ≡ true
find-some p [] x h = cc
find-some p (y ∷ ys) x h = elim (Bool-cases (p y)) [
  | inl here ↦ ground arith
  | inr there ↦ find-some p ys x (rw there at h)
]

module _ (platform : Platform) (vault : Vault) where
  -- Where a filled credential comes from: the entries that were listed for the page at first, one of
  -- which was asked for, and what was fetched for it then.
  pub record IsFilled (id page_url : Text) (w : World) (f : Filled) (v : World) : Type 0 where
    pub entries : List Metadata
    pub entry : Metadata
    pub detail : Detail
    pub before : World
    pub listing : vault.entries_for (key platform page_url) w ≡ (ok entries, before)
    pub among : Among entry entries
    pub asked : entry.id ≡ id
    pub listed : IsAllowed platform entry page_url
    pub fetched : vault.get_entry id before ≡ (ok detail, v)
    pub checked : IsAllowed platform detail.metadata page_url
    pub password : f.password ≡ detail.password
    pub username : f.username ≡ detail.username

  -- What is made of a fetched entry.
  filled_from-IsFilled :
      (detail : Detail) (page_url : Text) (f : Filled)
      → filled_from platform vault detail page_url ≡ some f
      → IsAllowed platform detail.metadata page_url
        × (f.password ≡ detail.password)
        × (f.username ≡ detail.username)
  filled_from-IsFilled detail page_url f h =
      elim (Bool-cases (is_allowed platform detail.metadata page_url)) [
        | inr refused ↦ cc (rw refused at h)
        | inl allowed ↦ (
          (is_allowed_iff platform detail.metadata page_url).0 allowed,
          ground arith,
          ground arith,
        )
      ]

  fill_detail-IsFilled :
      (entry : Metadata) (page_url : Text) (f : Filled) (w v : World)
      → is_allowed platform entry page_url ≡ true
      → fill_detail platform vault entry page_url w ≡ (ok (some f), v)
      → (entries : List Metadata) (first : World)
      → vault.entries_for (key platform page_url) first ≡ (ok entries, w)
      → Among entry entries
      → IsFilled entry.id page_url first f v
  unfolding fill_detail
  fill_detail-IsFilled entry page_url f w v allowed h entries first listing among =
      let (detail, u, fetched, rest) =
        then_run-eq-ok (vault.get_entry entry.id w)
          (λ (d : Detail). return (filled_from platform vault d page_url)) h in
      let there : u ≡ v = cc in
      let made : filled_from platform vault detail page_url ≡ some f = cc in
      let (checked, password, username) = filled_from-IsFilled detail page_url f made in
      record {
        entries = entries;
        entry = entry;
        listing = listing;
        among = among;
        detail = detail;
        before = w;
        asked = refl;
        listed = (is_allowed_iff platform entry page_url).0 allowed;
        fetched = rw there at fetched;
        checked = checked;
        password = password;
        username = username;
      }

  listed-IsFilled :
      (entry : Metadata) (page_url : Text) (f : Filled) (w v : World)
      → fill_entry platform vault (some entry) page_url w ≡ (ok (some f), v)
      → (entries : List Metadata) (first : World)
      → vault.entries_for (key platform page_url) first ≡ (ok entries, w)
      → Among entry entries
      → IsFilled entry.id page_url first f v
  unfolding fill_entry
  listed-IsFilled entry page_url f w v h entries first listing among =
      elim (if-eq (is_allowed platform entry page_url) (fill_detail platform vault entry page_url)
        (return none) w h) [
          | inl (allowed, rest) ↦
              fill_detail-IsFilled entry page_url f w v allowed rest entries first listing among
          | inr (refused, rest) ↦ cc
        ]

  -- The entry that was found, where something is filled in.
  found-IsFilled :
      (found : Option Metadata) (page_url : Text) (f : Filled) (w v : World)
      → fill_entry platform vault found page_url w ≡ (ok (some f), v)
      → (entry : Metadata) × (found ≡ some entry)
  unfolding fill_entry
  found-IsFilled none page_url f w v h = cc
  found-IsFilled (some entry) page_url f w v h = (entry, refl)

  abbrev fill_found : Text → Text → List Metadata → M (Option Filled)
  fill_found id page_url entries =
      fill_entry platform vault (find (λ item. text_eq item.id id) entries) page_url

  listed_first :
      (id page_url : Text) (f : Filled) (w v : World)
      → get_credential_by_id platform vault id page_url w ≡ (ok (some f), v)
      → then_run (vault.entries_for (key platform page_url) w) (fill_found id page_url)
        ≡ (ok (some f), v)
  unfolding get_credential_by_id
  listed_first id page_url f w v h =
      elim (if-eq (is_empty (key platform page_url)) (return none) _ w h) [
        | inl nowhere ↦ cc nowhere.1
        | inr site ↦ elim (if-eq (is_empty id) (return none) _ w site.1) [
          | inl unnamed ↦ cc unnamed.1
          | inr named ↦ named.1
        ]
      ]

  fill_found-IsFilled :
      (id page_url : Text) (entries : List Metadata) (f : Filled) (first w v : World)
      → vault.entries_for (key platform page_url) first ≡ (ok entries, w)
      → fill_found id page_url entries w ≡ (ok (some f), v)
      → IsFilled id page_url first f v
  fill_found-IsFilled id page_url entries f first w v listing h =
      let asked = find (λ item. text_eq item.id id) entries in
      let found = found-IsFilled asked page_url f w v h in
      let same : found.0.id ≡ id =
        (text_eq_iff found.0.id id).0
          (find-some (λ item. text_eq item.id id) entries found.0 found.1) in
      rw same at (
        listed-IsFilled found.0 page_url f w v (rw found.1 at h) entries first listing
          (find-Among (λ item. text_eq item.id id) entries found.0 found.1))

  -- What a page is filled with is the password of the entry that was asked for, as it was fetched
  -- last. The entry is one of those that were listed for the site of the page, and both the listed
  -- entry and the fetched one are allowed on the page.
  pub get_credential_by_id-IsFilled :
      (id page_url : Text) (f : Filled) (w v : World)
      → get_credential_by_id platform vault id page_url w ≡ (ok (some f), v)
      → IsFilled id page_url w f v
  get_credential_by_id-IsFilled id page_url f w v h =
      let listed =
        then_run-eq-ok (vault.entries_for (key platform page_url) w) (fill_found id page_url)
          (listed_first id page_url f w v h) in
      fill_found-IsFilled id page_url listed.0 f w listed.1 v listed.2 listed.3
