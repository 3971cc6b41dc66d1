-- ===== src/Pending.antt =====
-- extension/background/service-worker.js: the submitted user names and credentials that wait for a
-- prompt. `updatePendingRecords` waits for its turn and for storage; other handlers may run then,
-- which is `env`.
pub mod Owned
mod Tests
use passwort_manager_yurr.Common.{
  ℕ, ◌+◌, ◌*◌, Bool, true, false, not, List, [], ◌∷◌, ◌++◌, map, Option, none, some, Text, codes,
  text_eq, truthy, same_text, ltb, leb, ◌&&◌, ◌==◌, if◌then◌else◌, is_empty, filter, any, find,
  take, sort_by, min, trim, starts_with,
}
use passwort_manager_yurr.Platform.{Platform}
use passwort_manager_yurr.Site.Numbers.{show_number}
use passwort_manager_yurr.Site.Scope.{key}
use passwort_manager_yurr.World.{World, Owner, PendingCredential, PendingUsername}
use passwort_manager_yurr.Credential.{Metadata, is_allowed}

abbrev pub credentials_ttl_ms : ℕ
credentials_ttl_ms = 5 * 60 * 1000

abbrev pub username_ttl_ms : ℕ
username_ttl_ms = 10 * 60 * 1000

abbrev pub max_records : ℕ
max_records = 100

-- A kind of record: where its records are stored, and the alarm that its expiry sets.
pub record Store (A : Type 0) : Type 0 where
  pub key_of : A → Text
  pub expiry : A → ℕ
  pub stored : World → Option (Owner × List A)
  pub write : Option (Owner × List A) → World → World
  pub set_alarm : Option ℕ → World → World

abbrev pub credentials : Store PendingCredential
credentials = record {
  key_of = λ r. r.key;
  expiry = λ r. r.expires_at;
  stored = λ w. w.pending_credentials;
  write = λ slot w. record w { pending_credentials = slot };
  set_alarm = λ alarm w. record w { pending_alarm = alarm };
}

abbrev pub usernames : Store PendingUsername
usernames = record {
  key_of = λ r. r.key;
  expiry = λ r. r.expires_at;
  stored = λ w. w.pending_usernames;
  write = λ slot w. record w { pending_usernames = slot };
  set_alarm = λ alarm w. w;
}

module _ {A : Type 0} (store : Store A) where
  -- The records that are stored for an owner.
  abbrev pub owned : Owner → Option (Owner × List A) → List A
  owned owner none = []
  owned owner (some (o, records)) =
      if same_text o.token owner.token && same_text o.server_url owner.server_url
      then records
      else []

  abbrev pub live : ℕ → List A → List A
  live now records = filter (λ r. ltb now (store.expiry r)) records

  -- The records that are kept: the last to expire, and not too many.
  abbrev pub latest : List A → List A
  latest records = take max_records (sort_by (λ a b. leb (store.expiry b) (store.expiry a)) records)

  abbrev pub first_expiry : A → List A → ℕ
  first_expiry r [] = store.expiry r
  first_expiry r (s ∷ rest) = min (store.expiry r) (first_expiry s rest)

  abbrev pub store_records : Owner → List A → World → World
  store_records owner [] w = store.set_alarm none (store.write none w)
  store_records owner (r ∷ rest) w =
      store.set_alarm (some (first_expiry r rest)) (store.write (some (owner, r ∷ rest)) w)

  abbrev pub get_record : Text → List A → Option A
  get_record k records = find (λ r. text_eq (store.key_of r) k) records

  abbrev pub put_record : A → List A → List A
  put_record r records =
      if any (λ old. text_eq (store.key_of old) (store.key_of r)) records
      then map (λ old. if text_eq (store.key_of old) (store.key_of r) then r else old) records
      else records ++ r ∷ []

  abbrev pub delete_record : Text → List A → List A
  delete_record k records = filter (λ r. not (text_eq (store.key_of r) k)) records

  module _ (env : ℕ → World → World) where
    abbrev pub end_update : {B : Type 0} → ℕ → B → World → Option B × World
    end_update generation value w =
        (if generation == w.token_generation then some value else none, w)

    abbrev pub write_change : {B : Type 0} → ℕ → Owner → B × List A → World → Option B × World
    write_change generation owner (value, records) w =
        end_update generation value (env 1 (store_records owner (latest records) w))

    -- Once storage has been read.
    abbrev pub change_records :
        {B : Type 0} → ℕ → Owner → (ℕ → List A → B × List A) → World → Option B × World
    change_records generation owner change w =
        if generation == w.token_generation
        then write_change generation owner
            (change w.now (live w.now (owned owner (store.stored w)))) w
        else (none, w)

    -- `updatePendingRecords`: no value if the token has changed.
    unfoldable pub update_records :
        {B : Type 0} → (ℕ → List A → B × List A) → World → Option B × World
    update_records change w =
        let owner : Owner = record { token = w.token; server_url = w.server_url } in
        change_records w.token_generation owner change (env 0 w)

-- What a page reports of a submitted form.
pub record Submission : Type 0 where
  pub url : Text
  pub page_url : Text
  pub username : Text
  pub password : Text
  pub submission_id : Text
  pub is_password_change : Bool

abbrev pub flag_of : Option Bool × World → Bool × World
flag_of (none, w) = (false, w)
flag_of (some b, w) = (b, w)

module _ (platform : Platform) (env : ℕ → World → World) where
  -- `normalizeDomain`
  abbrev pub normalize_domain : Text → Text
  normalize_domain domain = platform.to_lower_case (trim domain)

  -- `getSenderFrameKey`, of a sender in a tab
  abbrev pub frame_key : Option (ℕ × ℕ) → Text
  frame_key none = codes "extension"
  frame_key (some (tab, frame)) = show_number tab ++ codes ":" ++ show_number frame

  -- `pendingRecordKey`
  unfoldable pub record_key : Text → Option (ℕ × ℕ) → Text
  unfolding trim show_number
  record_key domain sender = frame_key sender ++ codes ":" ++ normalize_domain domain

  -- `setPendingUsername`
  unfoldable pub set_username : Text → Option Text → Text → Option (ℕ × ℕ) → World → Bool × World
  unfolding update_records record_key
  set_username domain url username sender w =
      let clean = normalize_domain domain in
      if is_empty clean
      then (false, w)
      else if is_empty (trim username)
      then (false, w)
      else flag_of (
          update_records usernames env
            (λ now records. (
              true,
              put_record usernames
                  (record {
                    key = record_key clean sender;
                    username = trim username;
                    url = truthy url;
                    expires_at = now + username_ttl_ms;
                  })
                  records,
            ))
            w)

  abbrev username_of : Option PendingUsername → Text
  username_of none = []
  username_of (some r) = r.username

  abbrev text_or_empty : Option Text × World → Text × World
  text_or_empty (none, w) = ([], w)
  text_or_empty (some t, w) = (t, w)

  -- `getPendingUsername`
  unfoldable pub get_username : Text → Option (ℕ × ℕ) → World → Text × World
  unfolding update_records record_key
  get_username domain sender w = text_or_empty (
      update_records usernames env
        (λ now records.
          (username_of (get_record usernames (record_key domain sender) records), records))
        w)

  -- `clearPendingUsername`
  unfoldable pub clear_username : Text → Option (ℕ × ℕ) → World → World
  unfolding update_records record_key
  clear_username domain sender w =
      (update_records usernames env
        (λ now records. (true, delete_record usernames (record_key domain sender) records)) w).1

  abbrev pub or_url : Text → Text → Text
  or_url [] url = url
  or_url (c ∷ t) url = c ∷ t

  -- `setPendingCredentials`
  unfoldable pub set_credentials : Submission → Option (ℕ × ℕ) → World → Bool × World
  unfolding update_records record_key key
  set_credentials s sender w =
      let domain = key platform s.url in
      if is_empty domain
      then (false, w)
      else if is_empty s.password
      then (false, w)
      else if is_empty s.submission_id
      then (false, w)
      else flag_of (
          update_records credentials env
            (λ now records. (
              true,
              put_record credentials
                  (record {
                    key = record_key domain sender;
                    url = s.url;
                    domain = domain;
                    username = trim s.username;
                    password = s.password;
                    submission_id = s.submission_id;
                    page_url = or_url s.page_url s.url;
                    is_password_change = s.is_password_change;
                    prompt_ready = false;
                    expires_at = now + credentials_ttl_ms;
                  })
                  records,
            ))
            w)

  abbrev pub joined : {A : Type 0} → Option (Option A) × World → Option A × World
  joined (none, w) = (none, w)
  joined (some found, w) = (found, w)

  -- `getPendingCredentials`
  unfoldable pub get_credentials : Text → Option (ℕ × ℕ) → World → Option PendingCredential × World
  unfolding update_records record_key
  get_credentials domain sender w = joined (
      update_records credentials env
        (λ now records. (get_record credentials (record_key domain sender) records, records)) w)

  abbrev pub ready :
      Text → Option PendingCredential → List PendingCredential → Bool × List PendingCredential
  ready submission_id none records = (false, records)
  ready submission_id (some r) records =
      if text_eq r.submission_id submission_id
      then (true, put_record credentials (record r { prompt_ready = true }) records)
      else (false, records)

  -- `markPendingCredentialsReady`
  unfoldable pub mark_ready : Text → Option (ℕ × ℕ) → Text → World → Bool × World
  unfolding update_records record_key
  mark_ready domain sender submission_id w = flag_of (
      update_records credentials env
        (λ now records.
          ready submission_id (get_record credentials (record_key domain sender) records) records)
        w)

  abbrev pub dropped :
      Text → Text → Option PendingCredential → List PendingCredential → List PendingCredential
  dropped k submission_id none records = records
  dropped k submission_id (some r) records =
      if text_eq r.submission_id submission_id then delete_record credentials k records else records

  -- `clearPendingCredentials`
  unfoldable pub clear_credentials : Text → Option (ℕ × ℕ) → Text → World → World
  unfolding update_records record_key
  clear_credentials domain sender submission_id w =
      let k = record_key domain sender in
      (update_records credentials env
        (λ now records. (true, dropped k submission_id (get_record credentials k records) records))
        w).1

  -- `pendingCredentialMatchesSubmission`
  unfoldable pub matches_submission : Option PendingCredential → Text → Text → Bool
  unfolding is_allowed
  matches_submission none page_url password = false
  matches_submission (some r) page_url password =
      let stored : Metadata = record {
        id = [];
        website_url = r.url;
        website_domain = [];
        username = [];
      } in
      if is_empty password
      then false
      else if not (is_allowed platform stored page_url)
      then false
      else text_eq r.password password

  -- The listener of closed tabs, for one kind of record.
  unfoldable pub close_tab : {A : Type 0} → Store A → ℕ → World → World
  unfolding update_records show_number
  close_tab store tab w =
      (update_records store env
        (λ now records. (
          true,
          filter (λ r. not (starts_with (store.key_of r) (show_number tab ++ codes ":"))) records,
        ))
        w).1
