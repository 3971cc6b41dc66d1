-- ===== src/Credential/Saving.antt =====
-- extension/background/service-worker.js: what a decision of `getCredentialSaveDecision` means.
use passwort_manager_yurr.Common.{
  Bool, true, ◌≡◌, ◌≢◌, refl, List, [], ◌∷◌, Option, none, some, Text, text_eq, text_eq_iff, filter,
  is_empty, Bool-cases, inl, inr, arith,
}
use passwort_manager_yurr.Platform.{Platform}
use passwort_manager_yurr.Credential.{Metadata, is_allowed}
use passwort_manager_yurr.Credential.Allowed.{IsAllowed, is_allowed_iff}
use passwort_manager_yurr.World.{World}
use passwort_manager_yurr.Session.Api.{ok, return, then_run-eq-ok, return-eq, if-eq}
use passwort_manager_yurr.Credential.Save.{
  compare_only, Detail, Vault, Decision, create, missing_username, ambiguous_username, unchanged,
  update, normalize_username, compare_detail, compare_existing, confirmed, chosen, candidates,
  same_username, decide_unmatched, decide_named, decide_unnamed, save_decision,
}

module _ (platform : Platform) (vault : Vault) (page_url password : Text) where
  -- The stored entry that a decision names: it was fetched, it may be used on the page, and its
  -- password is as the decision says.
  pub record IsStored (entry_id : Text) : Type 0 where
    pub asked : Text
    pub detail : Detail
    pub before : World
    pub after : World
    pub fetched : vault.get_entry asked before ≡ (ok detail, after)
    pub same_id : detail.id ≡ entry_id
    pub allowed : IsAllowed platform detail.metadata page_url

  abbrev pub IsJudged : Decision → Type 0
  IsJudged (update id name confirm) = (s : IsStored id) × (s.detail.password ≢ password)
  IsJudged (unchanged id name) = (s : IsStored id) × (s.detail.password ≡ password)
  IsJudged _ = Unit

  compare_detail-IsJudged :
      (entry : Metadata) (detail : Detail) (w v : World)
      → vault.get_entry entry.id w ≡ (ok detail, v)
      → IsJudged (compare_detail platform vault entry page_url password detail)
  compare_detail-IsJudged entry detail w v fetched =
      elim (Bool-cases (is_allowed platform detail.metadata page_url)) [
        | inr refused ↦ rw refused tt
        | inl allowed ↦
            let stored : IsStored detail.id = record {
              asked = entry.id;
              detail = detail;
              before = w;
              after = v;
              fetched = fetched;
              same_id = refl;
              allowed = (is_allowed_iff platform detail.metadata page_url).0 allowed;
            } in
            elim (Bool-cases (text_eq detail.password password)) [
              | inl same ↦
                  rw (allowed, same) (stored, (text_eq_iff detail.password password).0 same)
              | inr other ↦
                  rw (allowed, other)
                    (stored, λ e. cc (other, (text_eq_iff detail.password password).1 e))
            ]
      ]

  compare_existing-IsJudged :
      (entry : Metadata) (d : Decision) (w v : World)
      → compare_existing platform vault entry page_url password w ≡ (ok d, v)
      → IsJudged d
  unfolding compare_existing
  compare_existing-IsJudged entry d w v h =
      let got =
        then_run-eq-ok (vault.get_entry entry.id w)
          (λ (detail : Detail).
            return (compare_detail platform vault entry page_url password detail))
          h in
      rw (return-eq got.3) at (compare_detail-IsJudged entry got.0 w got.1 got.2)

  confirmed-IsJudged : (d : Decision) → IsJudged d → IsJudged (confirmed platform vault d)
  confirmed-IsJudged (update id name c) h = h
  confirmed-IsJudged create h = h
  confirmed-IsJudged _ h = h

  returned-IsJudged :
      (x d : Decision) (w v : World) → return x w ≡ (ok d, v) → IsJudged x → IsJudged d
  returned-IsJudged x d w v h j = rw (return-eq h) at j

  compare_only-IsJudged :
      (only : Metadata) (d : Decision) (w v : World)
      → compare_only platform vault only page_url password w ≡ (ok d, v)
      → IsJudged d
  compare_only-IsJudged only d w v h =
      let got =
        then_run-eq-ok (compare_existing platform vault only page_url password w)
          (λ (e : Decision). return (confirmed platform vault e)) h in
      rw (return-eq got.3) at
        (confirmed-IsJudged got.0 (compare_existing-IsJudged only got.0 w got.1 got.2))

  decide_unmatched-IsJudged :
      (prefer : Bool) (matches found : List Metadata) (d : Decision) (w v : World)
      → decide_unmatched platform vault prefer matches found page_url password w ≡ (ok d, v)
      → IsJudged d
  decide_unmatched-IsJudged true [] (only ∷ []) d w v h = compare_only-IsJudged only d w v h
  decide_unmatched-IsJudged true (m ∷ []) (only ∷ []) d w v h = compare_only-IsJudged only d w v h
  decide_unmatched-IsJudged _ (_ ∷ _ ∷ _) found d w v h =
      returned-IsJudged ambiguous_username d w v h tt
  decide_unmatched-IsJudged _ _ _ d w v h = returned-IsJudged create d w v h tt

  decide_named-IsJudged :
      (prefer : Bool) (match : Option Metadata) (matches found : List Metadata) (d : Decision)
      (w v : World)
      → decide_named platform vault prefer match matches found page_url password w ≡ (ok d, v)
      → IsJudged d
  decide_named-IsJudged prefer (some m) matches found d w v h = compare_existing-IsJudged m d w v h
  decide_named-IsJudged prefer none matches found d w v h =
      decide_unmatched-IsJudged prefer matches found d w v h

  decide_unnamed-IsJudged :
      (found : List Metadata) (d : Decision) (w v : World)
      → decide_unnamed platform vault found page_url password w ≡ (ok d, v)
      → IsJudged d
  decide_unnamed-IsJudged (only ∷ []) d w v h = compare_existing-IsJudged only d w v h
  decide_unnamed-IsJudged _ d w v h = returned-IsJudged missing_username d w v h tt

  -- An `update` decision names an entry that was fetched, may be used on the page and has another
  -- password than the submitted one; an `unchanged` decision names one that has the same password.
  pub save_decision-IsJudged :
      (prefer : Bool) (existing : List Metadata) (username : Text) (d : Decision) (w v : World)
      → save_decision platform vault prefer existing page_url username password w ≡ (ok d, v)
      → IsJudged d
  unfolding save_decision
  save_decision-IsJudged prefer existing username d w v h =
      elim (if-eq (is_empty (normalize_username platform vault username)) _ _ w h) [
        | inl unnamed ↦
            decide_unnamed-IsJudged (candidates platform vault existing page_url) d w v unnamed.1
        | inr named ↦
            decide_named-IsJudged prefer _ _ (candidates platform vault existing page_url) d w v
              named.1
      ]

  compare_detail-ne-create :
      (entry : Metadata) (detail : Detail)
      → compare_detail platform vault entry page_url password detail ≢ create
  compare_detail-ne-create entry detail h = ground arith

  confirmed-ne-create : (d : Decision) → d ≢ create → confirmed platform vault d ≢ create
  confirmed-ne-create (update id name c) n h = cc
  confirmed-ne-create (unchanged id name) n h = cc
  confirmed-ne-create create n h = n h
  confirmed-ne-create missing_username n h = cc
  confirmed-ne-create ambiguous_username n h = cc

  compare_existing-ne-create :
      (entry : Metadata) (w v : World)
      → compare_existing platform vault entry page_url password w ≢ (ok create, v)
  unfolding compare_existing
  compare_existing-ne-create entry w v h =
      let got =
        then_run-eq-ok (vault.get_entry entry.id w)
          (λ (detail : Detail).
            return (compare_detail platform vault entry page_url password detail))
          h in
      compare_detail-ne-create entry got.0 (return-eq got.3)

  -- With no exact match, a `create` leaves no match in normal form either.
  decide_named-create :
      (prefer : Bool) (exact : Option Metadata) (matches found : List Metadata) (w v : World)
      → decide_named platform vault prefer
          (chosen platform vault exact matches)
          matches
          found
          page_url
          password
          w
        ≡ (ok create, v)
      → (exact ≡ none) × (matches ≡ [])
  decide_named-create prefer (some m) matches found w v h =
      absurd (compare_existing-ne-create m w v h)
  decide_named-create prefer none (m ∷ []) found w v h = absurd (compare_existing-ne-create m w v h)
  decide_named-create prefer none [] found w v h = (refl, refl)
  decide_named-create prefer none (m ∷ n ∷ r) found w v h = cc

  decide_unnamed-ne-create :
      (found : List Metadata) (w v : World)
      → decide_unnamed platform vault found page_url password w ≢ (ok create, v)
  decide_unnamed-ne-create (only ∷ []) w v h = compare_existing-ne-create only w v h
  decide_unnamed-ne-create [] w v h = cc
  decide_unnamed-ne-create (m ∷ n ∷ r) w v h = cc

  -- A `create` decision is made only for a submission with a user name, when no stored entry that
  -- may be used on the page has that user name, compared without case and outer white space.
  pub save_decision-create :
      (prefer : Bool) (existing : List Metadata) (username : Text) (w v : World)
      → save_decision platform vault prefer existing page_url username password w ≡ (ok create, v)
      → (normalize_username platform vault username ≢ [])
        × (filter
              (same_username platform vault username)
              (candidates platform vault existing page_url)
            ≡ [])
  unfolding save_decision
  save_decision-create prefer existing username w v h =
      elim (if-eq (is_empty (normalize_username platform vault username)) _ _ w h) [
        | inl unnamed ↦ absurd (decide_unnamed-ne-create _ w v unnamed.1)
        | inr named ↦ (ground arith, (decide_named-create prefer _ _ _ w v named.1).1)
      ]
