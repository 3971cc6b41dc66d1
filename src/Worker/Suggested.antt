-- ===== src/Worker/Suggested.antt =====
-- extension/background/service-worker.js: which e-mail addresses are offered.
use passwort_manager_yurr.Common.{
  ℕ, zero, suc, ◌≤◌, ◌≡◌, refl, sym, Bool, true, false, not, ◌||◌, List, [], ◌∷◌, ◌++◌, Text,
  text_eq, text_eq_iff, is_empty, any, take, length, length-take-le, Bool-cases, inl, inr, arith,
}
use passwort_manager_yurr.Platform.{Platform}
use passwort_manager_yurr.World.{World, Suggestions}
use passwort_manager_yurr.Credential.{is_page_allowed}
use passwort_manager_yurr.Session.Api.{ok, then_run-eq-ok, return, return-eq, if-eq}
use passwort_manager_yurr.Worker.{Runtime}
use passwort_manager_yurr.Worker.Emails.{
  max_visible, is_valid_email, add_email, add_emails, parse_suggestions, merge_lists, offered,
  offer_known, known_emails, has_saved, emails_unless, suggestions_for, normalize_email,
}

-- Valid, and each once.
abbrev pub IsClean : List Text → Type 0
IsClean [] = Unit
IsClean (e ∷ es) = (is_valid_email e ≡ true) × (any (text_eq e) es ≡ false) × IsClean es

text_eq-sym : (s t : Text) → text_eq s t ≡ false → text_eq t s ≡ false
text_eq-sym s t h = elim (Bool-cases (text_eq t s)) [
  | inr other ↦ other
  | inl same ↦ cc (h, (text_eq_iff s t).1 (sym ((text_eq_iff t s).0 same)))
]

any-snoc :
    (x e : Text) (es : List Text)
    → any (text_eq x) es ≡ false
    → text_eq x e ≡ false
    → any (text_eq x) (es ++ e ∷ []) ≡ false
any-snoc x e [] h k = ground arith
any-snoc x e (y ∷ es) h k = ground (arith, any-snoc x e es)

IsClean-snoc :
    (e : Text) (es : List Text)
    → IsClean es
    → is_valid_email e ≡ true
    → any (text_eq e) es ≡ false
    → IsClean (es ++ e ∷ [])
IsClean-snoc e [] c valid fresh = (valid, refl, tt)
IsClean-snoc e (x ∷ es) c valid fresh = (
  c.0,
  any-snoc x e es c.1 (text_eq-sym e x (ground arith)),
  IsClean-snoc e es c.2 valid (ground arith),
)

any-take :
    (x : Text) (n : ℕ) (es : List Text)
    → any (text_eq x) es ≡ false
    → any (text_eq x) (take n es) ≡ false
any-take x zero es h = refl
any-take x (suc n) [] h = refl
any-take x (suc n) (y ∷ es) h = ground (arith, any-take x n es)

IsClean-take : (n : ℕ) (es : List Text) → IsClean es → IsClean (take n es)
IsClean-take zero es c = tt
IsClean-take (suc n) [] c = tt
IsClean-take (suc n) (e ∷ es) c = (c.0, any-take e n es c.1, IsClean-take n es c.2)

module _ (platform : Platform) where
  add_email-IsClean :
      (seen : List Text) (item : Text) → IsClean seen → IsClean (add_email platform seen item)
  unfolding add_email
  add_email-IsClean seen item c =
      let email = normalize_email platform item in
      elim (Bool-cases (is_empty email || not (is_valid_email email) || any (text_eq email) seen)) [
        | inl skipped ↦ rw skipped c
        | inr added ↦ rw added (IsClean-snoc email seen c (ground arith) (ground arith))
      ]

  add_emails-IsClean :
      (seen items : List Text) → IsClean seen → IsClean (add_emails platform seen items)
  unfolding add_emails
  add_emails-IsClean seen [] c = c
  add_emails-IsClean seen (item ∷ items) c =
      add_emails-IsClean (add_email platform seen item) items (add_email-IsClean seen item c)

  merge_lists-IsClean : (manual vault : List Text) → IsClean (merge_lists platform manual vault)
  unfolding merge_lists
  merge_lists-IsClean manual vault =
      add_emails-IsClean (add_emails platform [] manual) vault (add_emails-IsClean [] manual tt)

-- What is offered at most: clean, and no more than the menu shows.
abbrev pub IsOffered : List Text → Type 0
IsOffered es = IsClean es × (length es ≤ max_visible)

returned-IsOffered :
    (a es : List Text) (w v : World) → return a w ≡ (ok es, v) → IsOffered a → IsOffered es
returned-IsOffered a es w v h j = rw (return-eq h) at j

none-IsOffered : (es : List Text) (w v : World) → return [] w ≡ (ok es, v) → IsOffered es
none-IsOffered es w v h = returned-IsOffered [] es w v h (tt, omega arith)

module _ (r : Runtime) where
  offered-IsOffered : (manual vault : List Text) → IsOffered (offered r manual vault)
  offered-IsOffered manual vault = (
    IsClean-take max_visible _ (merge_lists-IsClean r.platform manual vault),
    length-take-le max_visible _,
  )

  offer_known-IsOffered :
      (stored : Suggestions) (es : List Text) (w v : World)
      → offer_known r stored w ≡ (ok es, v)
      → IsOffered es
  offer_known-IsOffered stored es w v h =
      let got =
        then_run-eq-ok (known_emails r w)
          (λ (vault : List Text). return (offered r (parse_suggestions r.platform stored) vault))
          h in
      rw (return-eq got.3) at (offered-IsOffered (parse_suggestions r.platform stored) got.0)

  emails_unless-IsOffered :
      (saved : Bool) (es : List Text) (w v : World)
      → emails_unless r saved w ≡ (ok es, v)
      → IsOffered es
  emails_unless-IsOffered true es w v h = none-IsOffered es w v h
  emails_unless-IsOffered false es w v h =
      offer_known-IsOffered (r.env 50 w).email_suggestions es (r.env 50 w) v h

  -- The e-mail addresses that a page is offered, from the options page and from the vault, are valid,
  -- no two of them are the same, and there are no more than eight.
  pub suggestions_for-IsOffered :
      (page_url : Text) (es : List Text) (w v : World)
      → suggestions_for r page_url w ≡ (ok es, v)
      → IsOffered es
  unfolding suggestions_for
  suggestions_for-IsOffered page_url es w v h =
      elim (if-eq (not (is_page_allowed r.platform page_url)) (return []) _ w h) [
        | inl refused ↦ none-IsOffered es w v refused.1
        | inr allowed ↦
            let got = then_run-eq-ok (has_saved r page_url w) (emails_unless r) allowed.1 in
            emails_unless-IsOffered got.0 es got.1 v got.3
      ]
