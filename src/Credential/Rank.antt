-- ===== src/Credential/Rank.antt =====
-- extension/background/service-worker.js: the order in which credentials are offered.
use passwort_manager_yurr.Common.{
  ℕ, ◌+◌, ◌≤◌, ◌≡◌, ◌≢◌, ◌⊎◌, ◌↔◌, ◌==◌, map, text_eq_iff, All-sort_by, refl, ap, ◌∙◌, Bool, true,
  false, ◌&&◌, not, List, [], ◌∷◌, ◌++◌, Option, none, some, Text, text_eq, leb, if◌then◌else◌,
  is_empty, trim, All, All-filter, filter, sort_by, insert_by, Bool-cases, inl, inr, arith,
}
use passwort_manager_yurr.Platform.{Platform}
use passwort_manager_yurr.Credential.{Metadata}

module _ (platform : Platform) (preferred_username : Text) (last_selected : Option Text) where
  abbrev pub is_last_selected : Option Text → Metadata → Bool
  is_last_selected none c = false
  is_last_selected (some id) c = not (is_empty id) && text_eq c.id id

  -- The tests of `rankCredentialForFill`
  unfoldable pub comes_first : Metadata → Bool
  unfolding trim
  comes_first c =
      if is_empty preferred_username
      then is_last_selected last_selected c
      else text_eq (platform.to_lower_case (trim c.username)) preferred_username

  -- `rankCredentialForFill`
  abbrev pub rank : Metadata → ℕ
  rank c = if comes_first c then 0 else 1

  -- The credentials with their places.
  abbrev pub indexed : ℕ → List Metadata → List (Metadata × ℕ)
  indexed i [] = []
  indexed i (c ∷ cs) = (c, i) ∷ indexed (i + 1) cs

  -- `(aRank - bRank) || (a.index - b.index)` is not positive.
  abbrev pub no_later : Metadata × ℕ → Metadata × ℕ → Bool
  no_later (c, i) (d, j) = if rank c == rank d then leb i j else leb (rank c) (rank d)

  abbrev pub credential_of : Metadata × ℕ → Metadata
  credential_of (c, i) = c

  -- `sortCredentialsForFill`
  unfoldable pub sort_for_fill : List Metadata → List Metadata
  unfolding comes_first
  sort_for_fill credentials = map credential_of (sort_by no_later (indexed 0 credentials))

  no_later-eq : (c d : Metadata) (i j : ℕ) → i ≤ j → no_later (c, i) (d, j) ≡ leb (rank c) (rank d)
  no_later-eq c d i j h = ground arith

  insert-credential_of :
      (c : Metadata) (i : ℕ) (es : List (Metadata × ℕ))
      → All (λ (e : Metadata × ℕ). i ≤ e.1) es
      → map credential_of (insert_by no_later (c, i) es)
        ≡ insert_by (λ a b. leb (rank a) (rank b)) c (map credential_of es)
  insert-credential_of c i [] h = refl
  insert-credential_of c i ((d, j) ∷ es) h = elim (Bool-cases (leb (rank c) (rank d))) [
    | inl first ↦ rw (no_later-eq c d i j h.0, first) refl
    | inr after ↦
        rw (no_later-eq c d i j h.0, after)
          (ap (λ rest. d ∷ rest) (insert-credential_of c i es h.1))
  ]

  indexed_bounds :
      (i j : ℕ) (cs : List Metadata) → i ≤ j → All (λ (e : Metadata × ℕ). i ≤ e.1) (indexed j cs)
  indexed_bounds i j [] h = tt
  indexed_bounds i j (c ∷ cs) h = (h, indexed_bounds i (j + 1) cs (omega arith))

  -- The places in the comparison make the order of the ranks stable.
  sort-credential_of :
      (i : ℕ) (cs : List Metadata)
      → map credential_of (sort_by no_later (indexed i cs))
        ≡ sort_by (λ a b. leb (rank a) (rank b)) cs
  sort-credential_of i [] = refl
  sort-credential_of i (c ∷ cs) =
      insert-credential_of c i (sort_by no_later (indexed (i + 1) cs)) (
        All-sort_by (λ (e : Metadata × ℕ). i ≤ e.1) no_later (indexed (i + 1) cs)
          (indexed_bounds i (i + 1) cs (omega arith)))
      ∙ ap (insert_by (λ a b. leb (rank a) (rank b)) c) (sort-credential_of (i + 1) cs)

  insert_first :
      (c : Metadata) (cs : List Metadata)
      → comes_first c ≡ true
      → insert_by (λ a b. leb (rank a) (rank b)) c cs ≡ c ∷ cs
  insert_first c [] h = refl
  insert_first c (d ∷ cs) h = elim (Bool-cases (comes_first d)) [
    | inl first ↦ ground arith
    | inr other ↦ ground arith
  ]

  insert_other :
      (c : Metadata) (front back : List Metadata)
      → comes_first c ≡ false
      → All (λ d. comes_first d ≡ true) front
      → All (λ d. not (comes_first d) ≡ true) back
      → insert_by (λ a b. leb (rank a) (rank b)) c (front ++ back) ≡ front ++ c ∷ back
  insert_other c [] [] h p q = refl
  insert_other c [] (d ∷ back) h p q = ground arith
  insert_other c (d ∷ front) back h (first, p) q = ground (arith, insert_other c front back h p q)

  sort_by-rank :
      (credentials : List Metadata)
      → sort_by (λ a b. leb (rank a) (rank b)) credentials
        ≡ filter comes_first credentials ++ filter (λ c. not (comes_first c)) credentials
  sort_by-rank [] = refl
  sort_by-rank (c ∷ cs) = elim (Bool-cases (comes_first c)) [
    | inl first ↦
        ap (insert_by (λ a b. leb (rank a) (rank b)) c) (sort_by-rank cs)
        ∙ insert_first c _ first
        ∙ rw first refl
    | inr other ↦
        ap (insert_by (λ a b. leb (rank a) (rank b)) c) (sort_by-rank cs)
        ∙ insert_other c _ _ other (All-filter comes_first cs)
            (All-filter (λ d. not (comes_first d)) cs)
        ∙ rw other refl
  ]

  -- What comes first: the credentials of the preferred user name, or without one that which was
  -- selected last.
  abbrev pub IsFirst : Metadata → Type 0
  IsFirst c =
      ((preferred_username ≢ []) × (platform.to_lower_case (trim c.username) ≡ preferred_username))
      ⊎ ((preferred_username ≡ [])
          × ((id : Text) × (last_selected ≡ some id) × (id ≢ []) × (c.id ≡ id)))

  is_last_selected_iff :
      (last : Option Text) (c : Metadata)
      → (is_last_selected last c ≡ true)
        ↔ ((id : Text) × (last ≡ some id) × (id ≢ []) × (c.id ≡ id))
  is_last_selected_iff none c = (λ h. cc, λ h. cc h.1)
  is_last_selected_iff (some []) c = (λ h. cc, λ h. absurd (h.2 (none_of h.0 h.1)))
    where
      none_of : (id : Text) → some [] ≡ some id → id ≡ []
      none_of id e = cc
  is_last_selected_iff (some (x ∷ t)) c = (
    λ h. (x ∷ t, refl, (λ e. cc), (text_eq_iff c.id (x ∷ t)).0 h),
    λ h. (text_eq_iff c.id (x ∷ t)).1 (same h.0 h.1 h.3),
  )
    where
      same : (id : Text) → some (x ∷ t) ≡ some id → c.id ≡ id → c.id ≡ x ∷ t
      same id e k = cc

  comes_first_iff : (c : Metadata) → (comes_first c ≡ true) ↔ IsFirst c
  unfolding comes_first
  comes_first_iff c = go preferred_username
    where
      go :
          (p : Text)
          → ((if is_empty p
                then is_last_selected last_selected c
                else text_eq (platform.to_lower_case (trim c.username)) p)
              ≡ true)
            ↔ (((p ≢ []) × (platform.to_lower_case (trim c.username) ≡ p))
                ⊎ ((p ≡ []) × ((id : Text) × (last_selected ≡ some id) × (id ≢ []) × (c.id ≡ id))))
      go [] = (
        λ h. inr (refl, (is_last_selected_iff last_selected c).0 h),
        λ h. elim h [
          | inl named ↦ absurd (named.0 refl)
          | inr chosen ↦ (is_last_selected_iff last_selected c).1 chosen.1
        ],
      )
      go (x ∷ p) = (
        λ h. inl ((λ e. cc), (text_eq_iff _ (x ∷ p)).0 h),
        λ h. elim h [ inl named ↦ (text_eq_iff _ (x ∷ p)).1 named.1 | inr chosen ↦ cc chosen.0 ],
      )

  -- The order puts first the credentials that pass a test and then the others, each in the order in
  -- which they were. Those that pass have the preferred user name, apart from case and outer space,
  -- if there is one, and otherwise the id that was selected last, and all those pass.
  pub sort_for_fill-lem :
      (credentials : List Metadata)
      → (sort_for_fill credentials
          ≡ filter comes_first credentials ++ filter (λ c. not (comes_first c)) credentials)
        × ((c : Metadata) → (comes_first c ≡ true) ↔ IsFirst c)
  unfolding sort_for_fill
  sort_for_fill-lem credentials =
      (sort-credential_of 0 credentials ∙ sort_by-rank credentials, comes_first_iff)
