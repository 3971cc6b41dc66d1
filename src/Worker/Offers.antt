-- ===== src/Worker/Offers.antt =====
-- extension/background/service-worker.js: the handlers that offer a page its credentials and fill one
-- in, and those that offer addresses.
use passwort_manager_yurr.Common.{
  Bool, true, false, not, ◌&&◌, ◌||◌, List, [], map, Option, none, some, Text, is_empty, trim, ◌==◌,
  if◌then◌else◌, filter, take,
}
use passwort_manager_yurr.Site.Scope.{key}
use passwort_manager_yurr.World.{Selected, Item}
use passwort_manager_yurr.Credential.{Metadata, is_page_allowed, is_allowed}
use passwort_manager_yurr.Credential.Save.{Filled, get_credential_by_id}
use passwort_manager_yurr.Credential.Rank.{sort_for_fill}
use passwort_manager_yurr.Pending.{get_username}
use passwort_manager_yurr.Session.Api.{M, ◌>>=◌, return}
use passwort_manager_yurr.Worker.{
  Runtime, Sender, Payload, total, gets, wait, is_unlocked, reset_auto_lock, entries_for, vault,
}
use passwort_manager_yurr.Worker.Pages.{page_of, from_content_script, frame_of}
use passwort_manager_yurr.Worker.Selected.{last_selected}

-- What `CHECK_CREDENTIALS` answers: of each credential its id, its user name and its address.
pub record Offers : Type 0 where
  pub credentials : List Metadata
  pub last_selected_id : Option Text

abbrev pub no_offers : Offers
no_offers = record { credentials = []; last_selected_id = none }

-- The fields that a page is told.
abbrev pub told : Metadata → Metadata
told m = record m { website_domain = [] }

abbrev pub id_of : Option Selected → Option Text
id_of none = none
id_of (some s) = some s.id

-- What the address handler passes on, each field trimmed.
pub record Address : Type 0 where
  pub id : Text
  pub label : Text
  pub full_name : Text
  pub line1 : Text
  pub line2 : Text
  pub city : Text
  pub postal_code : Text
  pub country : Text

-- `normalizeAddressForFill`
unfoldable pub normalize_address : Address → Address
unfolding trim
normalize_address a = record {
  id = a.id;
  label = trim a.label;
  full_name = trim a.full_name;
  line1 = trim a.line1;
  line2 = trim a.line2;
  city = trim a.city;
  postal_code = trim a.postal_code;
  country = trim a.country;
}

abbrev pub has_content : Address → Bool
has_content a =
    not (is_empty a.full_name)
    || not (is_empty a.line1)
    || not (is_empty a.line2)
    || not (is_empty a.city)
    || not (is_empty a.postal_code)
    || not (is_empty a.country)

unfoldable pub addresses_from : List Address → List Address
unfolding normalize_address
addresses_from items = take 50 (filter has_content (map normalize_address items))

module _ (r : Runtime) where
  abbrev pub allowed_on : Text → List Item → List Metadata
  allowed_on page items =
      map told (filter (λ m. is_allowed r.platform m page) (map (λ (i : Item). i.metadata) items))

  abbrev pub offers_of : List Metadata → Text → Option Selected → Offers
  offers_of credentials preferred last = record {
    credentials = sort_for_fill r.platform preferred (id_of last) credentials;
    last_selected_id = id_of last;
  }

  -- `payload?.preferredUsername || await getPendingUsername(domain, sender)`
  abbrev pub preferred_name : Payload → Sender → Text → M Text
  preferred_name p s domain =
      if is_empty p.preferred_username
      then total (get_username r.platform r.env domain (frame_of r s))
      else return p.preferred_username

  abbrev pub normal_name : Text → Text
  normal_name name = r.platform.to_lower_case (trim name)

  abbrev pub offer_named : Text → List Metadata → Text → M Offers
  offer_named domain credentials name = do
    last ← last_selected r domain
    return (offers_of credentials (normal_name name) last)

  abbrev pub offer_listed : Payload → Sender → Text → List Item → M Offers
  offer_listed p s page items = do
    name ← preferred_name p s (key r.platform page)
    offer_named (key r.platform page) (allowed_on page items) name

  abbrev pub offer_on : Payload → Sender → Text → M Offers
  offer_on p s page = do items ← entries_for r (key r.platform page); offer_listed p s page items

  abbrev pub offer_when : Payload → Sender → Text → Bool → M Offers
  offer_when p s page unlocked =
      if not unlocked
      then return no_offers
      else if not (is_page_allowed r.platform page)
      then return no_offers
      else if is_empty (key r.platform page)
      then return no_offers
      else offer_on p s page

  -- `CHECK_CREDENTIALS`
  unfoldable pub check_credentials : Payload → Sender → M Offers
  unfolding is_allowed is_page_allowed sort_for_fill get_username last_selected page_of trim
  check_credentials p s = do unlocked ← is_unlocked r; offer_when p s (page_of r p s) unlocked

  abbrev pub fill_by_id : Text → Text → M (Option Filled)
  fill_by_id id page = get_credential_by_id r.platform (vault r) id page

  abbrev pub fill_when : Payload → Text → Bool → M (Option Filled)
  fill_when p page unlocked =
      if not unlocked
      then return none
      else if not p.user_gesture || not (is_page_allowed r.platform page)
      then return none
      else if is_empty (key r.platform page) || is_empty p.id
      then return none
      else do _ ← reset_auto_lock r; fill_by_id p.id page

  -- `GET_CREDENTIAL_FOR_FILL`
  unfoldable pub credential_for_fill : Payload → Sender → M (Option Filled)
  unfolding is_page_allowed get_credential_by_id page_of
  credential_for_fill p s = do unlocked ← is_unlocked r; fill_when p (page_of r p s) unlocked

  -- The first frame of a tab that is not in the background.
  abbrev pub in_front : Sender → Bool
  in_front s =
      (elim s.frame_id [ none ↦ false | some frame ↦ frame == 0 ])
      && (elim s.tab [ none ↦ true | some tab ↦ tab.active ])

  abbrev pub autofill_enabled : M Bool
  autofill_enabled = do _ ← wait r 54; gets (λ w. w.autofill_enabled)

  abbrev pub autofill_on : Payload → Text → Bool → M (Option Filled)
  autofill_on p page enabled =
      if not enabled
      then return none
      else if not (is_page_allowed r.platform page) || is_empty p.id
      then return none
      else fill_by_id p.id page

  abbrev pub autofill_set : Payload → Text → M (Option Filled)
  autofill_set p page = do enabled ← autofill_enabled; autofill_on p page enabled

  abbrev pub autofill_when : Payload → Text → Bool → M (Option Filled)
  autofill_when p page unlocked = if not unlocked then return none else autofill_set p page

  abbrev pub autofill_unlocked : Payload → Text → M (Option Filled)
  autofill_unlocked p page = do unlocked ← is_unlocked r; autofill_when p page unlocked

  -- `GET_CREDENTIAL_FOR_AUTOFILL`
  unfoldable pub credential_for_autofill : Payload → Sender → M (Option Filled)
  unfolding is_page_allowed get_credential_by_id page_of
  credential_for_autofill p s =
      if from_content_script r s && not (in_front s)
      then return none
      else autofill_unlocked p (page_of r p s)

  abbrev pub addresses_when : M (List Address) → Payload → Text → Bool → M (List Address)
  addresses_when list_addresses p page unlocked =
      if not unlocked
      then return []
      else if not p.user_gesture || not (is_page_allowed r.platform page)
      then return []
      else do _ ← reset_auto_lock r; items ← list_addresses; return (addresses_from items)

  -- `LIST_ADDRESSES_FOR_FILL`, with `api.listVaultItems('address')`
  unfoldable pub addresses_for_fill : M (List Address) → Payload → Sender → M (List Address)
  unfolding is_page_allowed addresses_from page_of
  addresses_for_fill list_addresses p s = do
    unlocked ← is_unlocked r
    addresses_when list_addresses p (page_of r p s) unlocked
