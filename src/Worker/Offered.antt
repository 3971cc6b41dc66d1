-- ===== src/Worker/Offered.antt =====
-- extension/background/service-worker.js: what a page is told of the vault, and what it is filled with.
use passwort_manager_yurr.Common.{
  ◌≡◌, ◌⊎◌, refl, Bool, true, false, not, ◌&&◌, ◌||◌, List, [], ◌∷◌, map, Option, none, some,
  if◌then◌else◌, Text, is_empty, filter, ap, ℕ, ◌==◌, &&-true, All, All-append, All-filter,
  Bool-cases, inl, inr, arith,
}
use passwort_manager_yurr.Site.Scope.{key}
use passwort_manager_yurr.World.{World, Item, Selected}
use passwort_manager_yurr.Credential.{Metadata, is_page_allowed, is_allowed}
use passwort_manager_yurr.Credential.Allowed.{IsAllowed, is_allowed_iff}
use passwort_manager_yurr.Credential.Fill.{IsFilled, get_credential_by_id-IsFilled}
use passwort_manager_yurr.Credential.Save.{Filled}
use passwort_manager_yurr.Credential.Rank.{comes_first, sort_for_fill, sort_for_fill-lem}
use passwort_manager_yurr.Session.Api.{Result, ok, return, then_run-eq-ok, return-eq, if-eq}
use passwort_manager_yurr.Worker.{Runtime, Tab, Sender, Payload, is_unlocked, entries_for, vault}
use passwort_manager_yurr.Worker.Pages.{page_of, from_content_script}
use passwort_manager_yurr.Worker.Selected.{last_selected}
use passwort_manager_yurr.Worker.Offers.{
  Offers, no_offers, told, id_of, allowed_on, offers_of, normal_name, preferred_name, offer_named,
  offer_listed, offer_on, offer_when, check_credentials, in_front, autofill_on, autofill_when,
  autofill_unlocked, autofill_set, fill_by_id, credential_for_autofill,
}

module _ (r : Runtime) (page : Text) where
  -- An entry that is told to a page is allowed on it.
  pub record IsTold (m : Metadata) : Type 0 where
    pub entry : Metadata
    pub allowed : IsAllowed r.platform entry page
    pub same : m ≡ told entry

  All-told :
      (ms : List Metadata)
      → All (λ m. is_allowed r.platform m page ≡ true) ms
      → All IsTold (map told ms)
  All-told [] h = tt
  All-told (m ∷ ms) h = (
    record { entry = m; allowed = (is_allowed_iff r.platform m page).0 h.0; same = refl },
    All-told ms h.1,
  )

  filtered-IsTold :
      (p : Metadata → Bool) (ms : List Metadata) → All IsTold ms → All IsTold (filter p ms)
  filtered-IsTold p [] h = tt
  filtered-IsTold p (m ∷ ms) h = elim (Bool-cases (p m)) [
    | inl kept ↦ rw kept (h.0, filtered-IsTold p ms h.1)
    | inr gone ↦ rw gone (filtered-IsTold p ms h.1)
  ]

  sorted-IsTold :
      (preferred : Text) (last : Option Text) (ms : List Metadata)
      → All IsTold ms
      → All IsTold (sort_for_fill r.platform preferred last ms)
  sorted-IsTold preferred last ms h =
      let first = comes_first r.platform preferred last in
      rw ((sort_for_fill-lem r.platform preferred last ms).0) (
        All-append IsTold (filter first ms) (filter (λ m. not (first m)) ms)
          (filtered-IsTold first ms h) (filtered-IsTold (λ m. not (first m)) ms h))

  allowed_on-IsTold : (items : List Item) → All IsTold (allowed_on r page items)
  allowed_on-IsTold items =
      All-told (filter (λ m. is_allowed r.platform m page) (map (λ (i : Item). i.metadata) items))
        (All-filter (λ m. is_allowed r.platform m page) (map (λ (i : Item). i.metadata) items))

  IsTold-return :
      {a b : Offers} {w v : World}
      → return a w ≡ (ok b, v)
      → All IsTold a.credentials
      → All IsTold b.credentials
  IsTold-return h j = rw (return-eq h) at j

  offer_named-IsTold :
      (domain : Text) (ms : List Metadata) (name : Text) (w : World) {out : Offers} {v : World}
      → All IsTold ms
      → offer_named r domain ms name w ≡ (ok out, v)
      → All IsTold out.credentials
  offer_named-IsTold domain ms name w j h =
      let rest = λ (last : Option Selected). return (offers_of r ms (normal_name r name) last) in
      let (last, u, _, k) = then_run-eq-ok (last_selected r domain w) rest h in
      IsTold-return k (sorted-IsTold (normal_name r name) (id_of last) ms j)

  offer_listed-IsTold :
      (p : Payload) (s : Sender) (items : List Item) (w : World) {out : Offers} {v : World}
      → offer_listed r p s page items w ≡ (ok out, v)
      → All IsTold out.credentials
  offer_listed-IsTold p s items w h =
      let domain = key r.platform page in
      let ms = allowed_on r page items in
      let (name, u, _, k) =
        then_run-eq-ok (preferred_name r p s domain w) (offer_named r domain ms) h in
      offer_named-IsTold domain ms name u (allowed_on-IsTold items) k

  offer_on-IsTold :
      (p : Payload) (s : Sender) (w : World) {out : Offers} {v : World}
      → offer_on r p s page w ≡ (ok out, v)
      → All IsTold out.credentials
  offer_on-IsTold p s w h =
      let (items, u, _, k) =
        then_run-eq-ok (entries_for r (key r.platform page) w) (offer_listed r p s page) h in
      offer_listed-IsTold p s items u k

  offer_when-IsTold :
      (p : Payload) (s : Sender) (unlocked : Bool) (w : World) {out : Offers} {v : World}
      → offer_when r p s page unlocked w ≡ (ok out, v)
      → All IsTold out.credentials
  offer_when-IsTold p s false w h = IsTold-return h tt
  offer_when-IsTold p s true w h =
      elim (if-eq (not (is_page_allowed r.platform page)) (return no_offers)
        (if is_empty (key r.platform page) then return no_offers else offer_on r p s page) w h) [
          | inl refused ↦ IsTold-return refused.1 tt
          | inr accepted ↦
              elim (if-eq (is_empty (key r.platform page)) (return no_offers) (offer_on r p s page)
                w accepted.1) [
                  | inl no_key ↦ IsTold-return no_key.1 tt
                  | inr keyed ↦ offer_on-IsTold p s w keyed.1
                ]
        ]

module _ (r : Runtime) where
  -- When `CHECK_CREDENTIALS` answers, each credential that it lists is an entry that is allowed on
  -- the page that the message is from, and is told without its stored domain.
  pub check_credentials-IsTold :
      (p : Payload) (s : Sender) (w : World) {out : Offers} {v : World}
      → check_credentials r p s w ≡ (ok out, v)
      → All (IsTold r (page_of r p s)) out.credentials
  unfolding check_credentials
  check_credentials-IsTold p s w h =
      let page = page_of r p s in
      let (unlocked, u, _, k) = then_run-eq-ok (is_unlocked r w) (offer_when r p s page) h in
      offer_when-IsTold r page p s unlocked u k

  autofill_on-eq :
      (p : Payload) (page : Text) (enabled : Bool) (w : World) {f : Filled} {v : World}
      → autofill_on r p page enabled w ≡ (ok (some f), v)
      → (enabled ≡ true)
        × ((not (is_page_allowed r.platform page) || is_empty p.id) ≡ false)
        × (fill_by_id r p.id page w ≡ (ok (some f), v))
  autofill_on-eq p page false w h = cc
  autofill_on-eq p page true w h =
      elim (if-eq (not (is_page_allowed r.platform page) || is_empty p.id) (return none)
        (fill_by_id r p.id page) w h) [
          | inl ended ↦ cc ended.1
          | inr went_on ↦ (refl, went_on.0, went_on.1)
        ]

  page_passed :
      (page : Text) (b : Bool)
      → (not (is_page_allowed r.platform page) || b) ≡ false
      → is_page_allowed r.platform page ≡ true
  page_passed page b h = ground arith

  -- What the setting, as it was read, and the answers of the vault after that show.
  pub record IsPassed (settings : World) (id page : Text) (f : Filled) (v : World) : Type 0 where
    pub enabled : settings.autofill_enabled ≡ true
    pub allowed : is_page_allowed r.platform page ≡ true
    pub filled : IsFilled r.platform (vault r) id page settings f v

  asked-IsPassed :
      (p : Payload) (page : Text) (a : World) (f : Filled) (v : World)
      → autofill_on r p page a.autofill_enabled a ≡ (ok (some f), v)
      → IsPassed a p.id page f v
  asked-IsPassed p page a f v k =
      let passed = autofill_on-eq p page a.autofill_enabled a k in
      record {
        enabled = passed.0;
        allowed = page_passed page (is_empty p.id) passed.1;
        filled = get_credential_by_id-IsFilled r.platform (vault r) p.id page f a v passed.2;
      }

  autofill_when-IsPassed :
      (p : Payload) (page : Text) (unlocked : Bool) (w : World) (f : Filled) (v : World)
      → autofill_when r p page unlocked w ≡ (ok (some f), v)
      → IsPassed (r.env 54 w) p.id page f v
  autofill_when-IsPassed p page unlocked w f v h =
      elim (if-eq (not unlocked) (return none) (autofill_set r p page) w h) [
        | inl ended ↦ cc ended.1
        | inr went_on ↦ asked-IsPassed p page (r.env 54 w) f v went_on.1
      ]

  unlocked-IsPassed :
      (p : Payload) (page : Text) (w : World) (f : Filled) (v : World)
      → autofill_unlocked r p page w ≡ (ok (some f), v)
      → IsPassed (r.env 54 (is_unlocked r w).1) p.id page f v
  unlocked-IsPassed p page w f v h =
      let asked = then_run-eq-ok (is_unlocked r w) (autofill_when r p page) h in
      rw (ap (λ (x : Result Bool × World). x.1) asked.2)
        (autofill_when-IsPassed p page asked.0 asked.1 f v asked.3)

  -- The first frame of a tab that is not in the background, or of no tab.
  abbrev pub IsInFront : Sender → Type 0
  IsInFront s =
      (s.frame_id ≡ some 0)
      × ((s.tab ≡ none) ⊎ ((tab : Tab) × (s.tab ≡ some tab) × (tab.active ≡ true)))

  in_front-IsInFront : (s : Sender) → in_front r s ≡ true → IsInFront s
  in_front-IsInFront s h = (frame s.frame_id (&&-true _ _ h).0, tab_of s.tab (&&-true _ _ h).1)
    where
      frame : (o : Option ℕ) → (elim o [ none ↦ false | some n ↦ n == 0 ]) ≡ true → o ≡ some 0
      frame none e = cc
      frame (some n) e = let zero_of : n ≡ 0 = ground arith in ap some zero_of

      tab_of :
          (o : Option Tab)
          → (elim o [ none ↦ true | some t ↦ t.active ]) ≡ true
          → (o ≡ none) ⊎ ((tab : Tab) × (o ≡ some tab) × (tab.active ≡ true))
      tab_of none e = inl refl
      tab_of (some t) e = inr (t, refl, e)

  front_of :
      (s : Sender)
      → (from_content_script r s && not (in_front r s)) ≡ false
      → (from_content_script r s ≡ false) ⊎ IsInFront s
  front_of s j = elim (Bool-cases (from_content_script r s)) [
    | inr other ↦ inl other
    | inl script ↦ inr (in_front-IsInFront s (seen script))
  ]
    where
      seen : from_content_script r s ≡ true → in_front r s ≡ true
      seen e = ground arith

  -- When `GET_CREDENTIAL_FOR_AUTOFILL` answers with a credential, filling at loading was switched on
  -- when the setting was read, after the session was found unlocked. The page that the message is
  -- from is allowed, a content script is in the first frame of a tab that is not in the background,
  -- and the credential is the one asked for among the entries that were listed for the site then, as
  -- it was fetched last, allowed on the page as it was listed and as it was fetched.
  pub credential_for_autofill-IsPassed :
      (p : Payload) (s : Sender) (w : World) (f : Filled) (v : World)
      → credential_for_autofill r p s w ≡ (ok (some f), v)
      → IsPassed (r.env 54 (is_unlocked r w).1) p.id (page_of r p s) f v
        × ((from_content_script r s ≡ false) ⊎ IsInFront s)
  unfolding credential_for_autofill
  credential_for_autofill-IsPassed p s w f v h =
      elim (if-eq (from_content_script r s && not (in_front r s)) (return none)
        (autofill_unlocked r p (page_of r p s)) w h) [
          | inl ended ↦ cc ended.1
          | inr went_on ↦
              (unlocked-IsPassed p (page_of r p s) w f v went_on.1, front_of s went_on.0)
        ]
