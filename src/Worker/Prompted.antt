-- ===== src/Worker/Prompted.antt =====
-- extension/background/service-worker.js: what a page is asked about a submitted credential.
use passwort_manager_yurr.Common.{
  ◌≡◌, ◌≢◌, ◌⊎◌, refl, true, false, not, List, [], ◌∷◌, map, Option, none, some, Text, is_empty,
  text_eq, text_eq_iff, All, All-filtered, Among, All-Among, inl, inr, arith, if◌then◌else◌,
}
use passwort_manager_yurr.Site.Scope.{key}
use passwort_manager_yurr.World.{World, PendingCredential}
use passwort_manager_yurr.Credential.{Metadata, is_allowed}
use passwort_manager_yurr.Credential.Allowed.{IsAllowed, is_allowed_iff}
use passwort_manager_yurr.Credential.Save.{
  Decision, create, missing_username, ambiguous_username, unchanged, update, candidates,
  save_decision,
}
use passwort_manager_yurr.Credential.Saving.{IsStored, IsJudged, save_decision-IsJudged}
use passwort_manager_yurr.Session.Api.{ok, return, then_run-eq-ok, return-eq, if-eq}
use passwort_manager_yurr.Worker.{Runtime, Sender, Payload, vault, total}
use passwort_manager_yurr.Pending.{get_credentials}
use passwort_manager_yurr.Pending.Owned.{IsOwned, get_credentials-IsOwned}
use passwort_manager_yurr.Worker.Pages.{frame_of}
use passwort_manager_yurr.Worker.Held.{is_submission, username_or_pending, get_pending}
use passwort_manager_yurr.Worker.Prompt.{
  Account, account_of, accounts_on, Prompt, Waiting, no_pending, settled, prompt, entry_at,
  is_unchanged, entry_id_of, accounts_for, prompt_for, settle_pending, prompt_still, prompt_when,
  prompt_decided, prompt_listed, prompt_named, prompt_pending, is_asked, is_early,
}

-- `before` is the state in which the handler reads what waits.
module _ (r : Runtime) (p : Payload) (s : Sender) (page : Text) (before : World) where
  -- The credential is what `getPendingCredentials` finds for the page's site and the sender's frame.
  abbrev pub IsFound : PendingCredential → Type 0
  IsFound c =
      (after : World) × IsOwned r.platform r.env (key r.platform page) (frame_of r s) before c after

  found-IsFound :
      (out : Option PendingCredential × World)
      → get_credentials r.platform r.env (key r.platform page) (frame_of r s) before ≡ out
      → (o : Option PendingCredential) (v : World) (c : PendingCredential)
      → total (λ (w : World). out) before ≡ (ok o, v)
      → o ≡ some c
      → IsFound c
  found-IsFound (none, u) e o v c h k = cc
  found-IsFound (some found, u) e o v c h k =
      let same : found ≡ c = cc in
      (
        u,
        get_credentials-IsOwned r.platform r.env (key r.platform page) (frame_of r s) before c u
            (rw same at e),
      )

  pub get_pending-IsFound :
      (o : Option PendingCredential) (v : World) (c : PendingCredential)
      → get_pending r (key r.platform page) s before ≡ (ok o, v)
      → o ≡ some c
      → IsFound c
  get_pending-IsFound o v c h k =
      found-IsFound (get_credentials r.platform r.env (key r.platform page) (frame_of r s) before)
        refl o v c h k

  -- A credential that waits for a prompt, and about which the page may be asked.
  pub record IsWaiting (c : PendingCredential) : Type 0 where
    pub found : IsFound c
    pub allowed : IsAllowed r.platform (entry_at c.url) page
    pub asked : (p.submission_id ≡ []) ⊎ (p.submission_id ≡ c.submission_id)
    pub is_time : (c.prompt_ready ≡ true) ⊎ (c.page_url ≢ page) ⊎ (p.manual ≡ true)

  -- An account of a listed entry that is allowed on the page.
  pub record IsAccount (existing : List Metadata) (a : Account) : Type 0 where
    pub entry : Metadata
    pub among : Among entry existing
    pub allowed : IsAllowed r.platform entry page
    pub same : a ≡ account_of r entry

  All-account_of :
      (existing ms : List Metadata)
      → All (λ m. Among m existing × (is_allowed r.platform m page ≡ true)) ms
      → All (IsAccount existing) (map (account_of r) ms)
  All-account_of existing [] h = tt
  All-account_of existing (m ∷ ms) h = (
    record {
      entry = m;
      among = h.0.0;
      allowed = (is_allowed_iff r.platform m page).0 h.0.1;
      same = refl;
    },
    All-account_of existing ms h.1,
  )

  accounts_on-IsAccount :
      (existing : List Metadata) → All (IsAccount existing) (accounts_on r existing page)
  accounts_on-IsAccount existing =
      All-account_of existing (candidates r.platform (vault r) existing page) (
        All-filtered (λ m. Among m existing) (λ m. is_allowed r.platform m page) existing
          (All-Among existing))

  -- What a prompt shows.
  pub record IsPrompted (q : Prompt) : Type 0 where
    pub credential : PendingCredential
    pub waiting : IsWaiting credential
    pub password : q.password ≡ credential.password
    pub submission_id : q.submission_id ≡ credential.submission_id
    pub existing : List Metadata
    pub listing : World
    pub listed : World
    pub on_site : r.server.list_entries (key r.platform page) listing ≡ (ok existing, listed)
    pub accounts : All (IsAccount existing) q.accounts
    pub entry :
        (q.entry_id ≡ none)
        ⊎ ((id : Text) × (q.entry_id ≡ some id)
            × IsStored r.platform (vault r) page credential.password id)

  abbrev pub IsAsked : Waiting → Type 0
  IsAsked (prompt q) = IsPrompted q
  IsAsked _ = Unit

  pub returned-IsAsked :
      (a b : Waiting) (w v : World) → return a w ≡ (ok b, v) → IsAsked a → IsAsked b
  returned-IsAsked a b w v h j = rw (return-eq h) at j

  -- What the server has listed for the site of the page.
  abbrev IsListed : List Metadata → Type 0
  IsListed existing =
      (listing : World) × (listed : World) × (r.server.list_entries (key r.platform page) listing
        ≡ (ok existing, listed))

  accounts_for-IsAccount :
      (d : Decision) (existing : List Metadata)
      → All (IsAccount existing) (accounts_for r d existing page)
  accounts_for-IsAccount missing_username existing = accounts_on-IsAccount existing
  accounts_for-IsAccount ambiguous_username existing = accounts_on-IsAccount existing
  accounts_for-IsAccount create existing = tt
  accounts_for-IsAccount (unchanged _ _) existing = tt
  accounts_for-IsAccount (update _ _ _) existing = tt

  abbrev Names : Text → Option Text → Type 0
  Names password e =
      (e ≡ none) ⊎ ((id : Text) × (e ≡ some id) × IsStored r.platform (vault r) page password id)

  entry_id_of-stored :
      (password : Text) (d : Decision)
      → IsJudged r.platform (vault r) page password d
      → Names password (entry_id_of d)
  entry_id_of-stored password (update [] _ _) j = inl refl
  entry_id_of-stored password (update (c ∷ id) _ _) j = inr (c ∷ id, refl, j.0)
  entry_id_of-stored password create j = inl refl
  entry_id_of-stored password (unchanged _ _) j = inl refl
  entry_id_of-stored password missing_username j = inl refl
  entry_id_of-stored password ambiguous_username j = inl refl

  prompt_for-IsPrompted :
      (c : PendingCredential) (name : Text) (existing : List Metadata) (d : Decision)
      → IsWaiting c
      → IsListed existing
      → IsJudged r.platform (vault r) page c.password d
      → IsPrompted (prompt_for r c page name existing d)
  prompt_for-IsPrompted c name existing d j l k = record {
    existing = existing;
    listing = l.0;
    listed = l.1;
    on_site = l.2;
    credential = c;
    waiting = j;
    password = refl;
    submission_id = refl;
    accounts = accounts_for-IsAccount d existing;
    entry = entry_id_of-stored c.password d k;
  }

  prompt_still-IsAsked :
      (c : PendingCredential) (name : Text) (existing : List Metadata) (d : Decision) (b : Waiting)
      (w v : World)
      → IsWaiting c
      → IsListed existing
      → IsJudged r.platform (vault r) page c.password d
      → prompt_still r c s page name existing d w ≡ (ok b, v)
      → IsAsked b
  prompt_still-IsAsked c name existing d b w v j l k h =
      elim (if-eq (is_unchanged d) (settle_pending r (key r.platform page) s c.submission_id)
        (return (prompt (prompt_for r c page name existing d))) w h) [
          | inl same ↦ returned-IsAsked settled b _ v same.1 tt
          | inr other ↦
              returned-IsAsked (prompt (prompt_for r c page name existing d)) b w v other.1
                (prompt_for-IsPrompted c name existing d j l k)
        ]

  prompt_decided-IsAsked :
      (c : PendingCredential) (name : Text) (existing : List Metadata) (d : Decision) (b : Waiting)
      (w v : World)
      → IsWaiting c
      → IsListed existing
      → IsJudged r.platform (vault r) page c.password d
      → prompt_decided r c s page name existing d w ≡ (ok b, v)
      → IsAsked b
  prompt_decided-IsAsked c name existing d b w v j l k h =
      let got =
        then_run-eq-ok (get_pending r (key r.platform page) s w)
          (prompt_when r c s page name existing d) h in
      elim (if-eq (not (is_submission got.0 c.submission_id)) (return no_pending)
        (prompt_still r c s page name existing d) got.1 got.3) [
          | inl gone ↦ returned-IsAsked no_pending b got.1 v gone.1 tt
          | inr still ↦ prompt_still-IsAsked c name existing d b got.1 v j l k still.1
        ]

  prompt_listed-IsAsked :
      (c : PendingCredential) (name : Text) (existing : List Metadata) (b : Waiting) (w v : World)
      → IsWaiting c
      → IsListed existing
      → prompt_listed r c s page name existing w ≡ (ok b, v)
      → IsAsked b
  prompt_listed-IsAsked c name existing b w v j l h =
      let got =
        then_run-eq-ok
          (save_decision r.platform (vault r) c.is_password_change existing page name c.password w)
          (prompt_decided r c s page name existing) h in
      prompt_decided-IsAsked c name existing got.0 b got.1 v j l
        (save_decision-IsJudged r.platform (vault r) page c.password c.is_password_change existing
          name got.0 w got.1 got.2)
        got.3

  prompt_named-IsAsked :
      (c : PendingCredential) (name : Text) (b : Waiting) (w v : World)
      → IsWaiting c
      → prompt_named r c s page name w ≡ (ok b, v)
      → IsAsked b
  prompt_named-IsAsked c name b w v j h =
      let got =
        then_run-eq-ok (r.server.list_entries (key r.platform page) w)
          (prompt_listed r c s page name) h in
      prompt_listed-IsAsked c name got.0 b got.1 v j (w, got.1, got.2) got.3

  pub prompt_pending-IsAsked :
      (c : PendingCredential) (b : Waiting) (w v : World)
      → IsWaiting c
      → prompt_pending r c s page w ≡ (ok b, v)
      → IsAsked b
  prompt_pending-IsAsked c b w v j h =
      let got =
        then_run-eq-ok (username_or_pending r c.username (key r.platform page) s _)
          (prompt_named r c s page) h in
      prompt_named-IsAsked c got.0 b got.1 v j got.3

  pub waiting_of :
      (c : PendingCredential)
      → IsFound c
      → is_allowed r.platform (entry_at c.url) page ≡ true
      → is_asked r p c ≡ true
      → is_early r p c page ≡ false
      → IsWaiting c
  waiting_of c f a i e = record {
    found = f;
    allowed = (is_allowed_iff r.platform (entry_at c.url) page).0 a;
    asked = named p.submission_id i;
    is_time = (let url = text_eq_iff c.page_url page in ground (arith, url));
  }
    where
      named :
          (id : Text)
          → (if is_empty id then true else text_eq id c.submission_id) ≡ true
          → (id ≡ []) ⊎ (id ≡ c.submission_id)
      named [] h = inl refl
      named (x ∷ id) h = inr ((text_eq_iff (x ∷ id) c.submission_id).0 h)
