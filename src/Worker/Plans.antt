-- ===== src/Worker/Plans.antt =====
-- extension/background/service-worker.js: what the plan for a submitted credential has looked at.
use passwort_manager_yurr.Common.{
  ◌≡◌, ◌≢◌, ◌⊎◌, refl, sym, trim, Bool, true, false, not, ◌&&◌, List, [], ◌∷◌, Option, none, some,
  Text, text_eq, text_eq_iff, is_empty, find, Among, find-Among, All, Bool-cases, inl, inr, arith,
  if◌then◌else◌,
}
use passwort_manager_yurr.Site.Scope.{key}
use passwort_manager_yurr.World.{World}
use passwort_manager_yurr.Credential.{Metadata, is_allowed}
use passwort_manager_yurr.Credential.Allowed.{IsAllowed, is_allowed_iff}
use passwort_manager_yurr.Credential.Save.{
  or_else, Decision, create, missing_username, ambiguous_username, unchanged, update,
  compare_existing, save_decision,
}
use passwort_manager_yurr.Credential.Saving.{IsStored, IsJudged, save_decision-IsJudged}
use passwort_manager_yurr.Session.Api.{ok, return, then_run-eq-ok, return-eq, if-eq}
use passwort_manager_yurr.Worker.{Runtime, Sender, Payload, vault}
use passwort_manager_yurr.Worker.Pages.{from_content_script}
use passwort_manager_yurr.Worker.Held.{get_pending_username}
use passwort_manager_yurr.Worker.Submit.{
  missing_pending_credential, entry_not_found, Plan, refuse, settle, update_entry, create_entry,
  Submitted, is_password_change, plan_compared, plan_listed, plan_decided, plan_found, plan_chosen,
  plan_saved, plan_named, plan_remembered, plan_submitted, is_matching, plan_pending,
}

find-All :
    {A : Type 0} (P : A → Type 0) (p : A → Bool) (xs : List A) (x : A)
    → All P xs
    → find p xs ≡ some x
    → P x × (p x ≡ true)
find-All P p [] x j h = cc
find-All P p (y ∷ ys) x j h = elim (Bool-cases (p y)) [
  | inr there ↦ find-All P p ys x j.1 (rw there at h)
  | inl here ↦ found here (rw here at h)
]
  where
    found : p y ≡ true → some y ≡ some x → P x × (p x ≡ true)
    found here e = let same : y ≡ x = cc in (rw same at j.0, rw same at here)

module _ (r : Runtime) where
  -- The entry that the user has chosen to update, which is one of those listed and is allowed on the
  -- page.
  pub record IsChosen (p : Payload) (x : Submitted) (id : Text) : Type 0 where
    pub entry : Metadata
    pub among : Among entry x.existing
    pub same_id : entry.id ≡ id
    pub asked : p.entry_id ≡ id
    pub confirmed : p.confirm_update ≡ true
    pub allowed : IsAllowed r.platform entry x.page

  -- An entry that was fetched, is allowed on the page and has another password.
  pub record IsOther (page password id : Text) : Type 0 where
    pub stored : IsStored r.platform (vault r) page password id
    pub other : stored.detail.password ≢ password

  abbrev pub IsPlanned : Payload → Submitted → Plan → Type 0
  IsPlanned p x (update_entry id) = IsChosen p x id ⊎ IsOther x.page x.password id
  IsPlanned p x _ = Unit

  returned-IsPlanned :
      (p : Payload) (x : Submitted) (a b : Plan) (w v : World)
      → return a w ≡ (ok b, v)
      → IsPlanned p x a
      → IsPlanned p x b
  returned-IsPlanned p x a b w v h j = rw (return-eq h) at j

  plan_compared-IsPlanned :
      (p : Payload) (x : Submitted) (id : Text) (d : Decision)
      → IsChosen p x id
      → IsPlanned p x (plan_compared id d)
  plan_compared-IsPlanned p x id (unchanged _ _) j = tt
  plan_compared-IsPlanned p x id (update _ _ _) j = inl j
  plan_compared-IsPlanned p x id create j = inl j
  plan_compared-IsPlanned p x id missing_username j = inl j
  plan_compared-IsPlanned p x id ambiguous_username j = inl j

  plan_found-IsPlanned :
      (p : Payload) (x : Submitted) (e : Option Metadata) (plan : Plan) (w v : World)
      → ((m : Metadata) → e ≡ some m → IsChosen p x m.id)
      → plan_found r x e w ≡ (ok plan, v)
      → IsPlanned p x plan
  plan_found-IsPlanned p x none plan w v j h =
      returned-IsPlanned p x (refuse entry_not_found) plan w v h tt
  plan_found-IsPlanned p x (some m) plan w v j h =
      let got =
        then_run-eq-ok (compare_existing r.platform (vault r) m x.page x.password w)
          (λ (d : Decision). return (plan_compared m.id d)) h in
      returned-IsPlanned p x (plan_compared m.id got.0) plan got.1 v got.3
        (plan_compared-IsPlanned p x m.id got.0 (j m refl))

  plan_listed-IsPlanned :
      (p : Payload) (x : Submitted) (es : List Metadata) → IsPlanned p x (plan_listed es)
  plan_listed-IsPlanned p x [] = tt
  plan_listed-IsPlanned p x (e ∷ []) = tt
  plan_listed-IsPlanned p x (_ ∷ _ ∷ _) = tt

  unnamed-IsPlanned :
      (p : Payload) (x : Submitted) (es : List Metadata) (name : Text)
      → IsPlanned p x (if is_empty name then plan_listed es else create_entry name)
  unnamed-IsPlanned p x es name = elim (Bool-cases (is_empty name)) [
    | inl empty ↦ rw empty (plan_listed-IsPlanned p x es)
    | inr named ↦ rw named tt
  ]

  plan_decided-IsPlanned :
      (p : Payload) (x : Submitted) (es : List Metadata) (domain name : Text) (c : Bool)
      (d : Decision)
      → IsJudged r.platform (vault r) x.page x.password d
      → IsPlanned p x (plan_decided es domain name c d)
  plan_decided-IsPlanned p x es domain name c ambiguous_username j = tt
  plan_decided-IsPlanned p x es domain name c (unchanged _ _) j = tt
  plan_decided-IsPlanned p x es domain name c create j = unnamed-IsPlanned p x es name
  plan_decided-IsPlanned p x es domain name c missing_username j = unnamed-IsPlanned p x es name
  plan_decided-IsPlanned p x es domain name c (update id user asks) j =
      elim (Bool-cases (is_empty id)) [
        | inl empty ↦ rw empty (unnamed-IsPlanned p x es name)
        | inr present ↦ elim (Bool-cases (is_empty name)) [
          | inl empty ↦ rw (present, empty) tt
          | inr named ↦ elim (Bool-cases (asks && not c)) [
            | inl waits ↦ rw (present, named, waits) tt
            | inr sure ↦ rw (present, named, sure) (inr (record { stored = j.0; other = j.1 }))
          ]
        ]
      ]

  plan_saved-IsPlanned :
      (p : Payload) (x : Submitted) (name : Text) (c : Bool) (plan : Plan) (w v : World)
      → plan_saved r x name c w ≡ (ok plan, v)
      → IsPlanned p x plan
  plan_saved-IsPlanned p x name c plan w v h =
      let domain = key r.platform x.page in
      let prefer = is_password_change x.pending in
      let got =
        then_run-eq-ok
          (save_decision r.platform (vault r) prefer x.existing x.page name x.password w)
          (λ (d : Decision). return (plan_decided x.existing domain name c d)) h in
      returned-IsPlanned p x (plan_decided x.existing domain name c got.0) plan got.1 v got.3 (
        plan_decided-IsPlanned p x x.existing domain name c got.0 (
          save_decision-IsJudged r.platform (vault r) x.page x.password prefer x.existing name got.0
            w got.1 got.2))

  abbrev pub AllAllowed : Submitted → Type 0
  AllAllowed x = All (λ m. is_allowed r.platform m x.page ≡ true) x.existing

  plan_chosen-IsPlanned :
      (p : Payload) (x : Submitted) (plan : Plan) (w v : World)
      → AllAllowed x
      → p.confirm_update ≡ true
      → plan_chosen r x p.entry_id w ≡ (ok plan, v)
      → IsPlanned p x plan
  plan_chosen-IsPlanned p x plan w v j c h =
      plan_found-IsPlanned p x (find (λ e. text_eq e.id p.entry_id) x.existing) plan w v chosen h
    where
      chosen :
          (m : Metadata)
          → find (λ e. text_eq e.id p.entry_id) x.existing ≡ some m
          → IsChosen p x m.id
      chosen m e =
          let found =
            find-All (λ m. is_allowed r.platform m x.page ≡ true) (λ e. text_eq e.id p.entry_id)
              x.existing m j e in
          record {
            entry = m;
            among = find-Among (λ e. text_eq e.id p.entry_id) x.existing m e;
            same_id = refl;
            asked = sym ((text_eq_iff m.id p.entry_id).0 found.1);
            confirmed = c;
            allowed = (is_allowed_iff r.platform m x.page).0 found.0;
          }

  confirmed_of :
      (p : Payload)
      → (p.confirm_update && not (is_empty p.entry_id)) ≡ true
      → p.confirm_update ≡ true
  confirmed_of p h = ground arith

  plan_named-IsPlanned :
      (p : Payload) (x : Submitted) (name : Text) (plan : Plan) (w v : World)
      → AllAllowed x
      → plan_named r p x name w ≡ (ok plan, v)
      → IsPlanned p x plan
  plan_named-IsPlanned p x name plan w v j h =
      elim (if-eq (p.confirm_update && not (is_empty p.entry_id)) (plan_chosen r x p.entry_id)
        (plan_saved r x name p.confirm_update) w h) [
          | inl chosen ↦ plan_chosen-IsPlanned p x plan w v j (confirmed_of p chosen.0) chosen.1
          | inr rest ↦ plan_saved-IsPlanned p x name p.confirm_update plan w v rest.1
        ]

  plan_submitted-IsPlanned :
      (p : Payload) (s : Sender) (x : Submitted) (plan : Plan) (w v : World)
      → AllAllowed x
      → plan_submitted r p s x w ≡ (ok plan, v)
      → IsPlanned p x plan
  plan_submitted-IsPlanned p s x plan w v j h =
      let got =
        then_run-eq-ok (get_pending_username r (key r.platform x.page) s w) (plan_remembered r p x)
          h in
      plan_named-IsPlanned p x (trim (or_else p.username got.0)) plan got.1 v j got.3

  -- What the checks of a page's submission show of a plan that writes.
  abbrev pub IsBacked : Payload → Sender → Submitted → Type 0
  IsBacked p s x = (from_content_script r s ≡ false) ⊎ (is_matching r p x ≡ true)

  matching-IsBacked :
      (p : Payload) (s : Sender) (x : Submitted)
      → (from_content_script r s && not (is_matching r p x)) ≡ false
      → IsBacked p s x
  matching-IsBacked p s x h = ground arith

  abbrev pub IsGrounded : Payload → Sender → Submitted → Plan → Type 0
  IsGrounded p s x (refuse _) = Unit
  IsGrounded p s x plan = IsPlanned p x plan × IsBacked p s x

  grounded :
      (p : Payload) (s : Sender) (x : Submitted) (plan : Plan)
      → IsPlanned p x plan
      → IsBacked p s x
      → IsGrounded p s x plan
  grounded p s x (refuse _) j b = tt
  grounded p s x settle j b = (j, b)
  grounded p s x (update_entry id) j b = (j, b)
  grounded p s x (create_entry name) j b = (j, b)

  returned-IsGrounded :
      (p : Payload) (s : Sender) (x : Submitted) (a b : Plan) (w v : World)
      → return a w ≡ (ok b, v)
      → IsGrounded p s x a
      → IsGrounded p s x b
  returned-IsGrounded p s x a b w v h j = rw (return-eq h) at j

  pub plan_pending-IsGrounded :
      (p : Payload) (s : Sender) (x : Submitted) (plan : Plan) (w v : World)
      → AllAllowed x
      → plan_pending r p s x w ≡ (ok plan, v)
      → IsGrounded p s x plan
  plan_pending-IsGrounded p s x plan w v j h =
      elim (if-eq (from_content_script r s && not (is_matching r p x))
        (return (refuse missing_pending_credential)) (plan_submitted r p s x) w h) [
          | inl refused ↦
              returned-IsGrounded p s x (refuse missing_pending_credential) plan w v refused.1 tt
          | inr passed ↦
              grounded p s x plan (plan_submitted-IsPlanned p s x plan w v j passed.1)
                (matching-IsBacked p s x passed.0)
        ]
