-- ===== src/Pending/Owned.antt =====
-- extension/background/service-worker.js: whose pending records are returned and stored.
use passwort_manager_yurr.Common.{
  ℕ, ◌≤◌, ◌<◌, ◌≡◌, ◌⊎◌, inl, inr, refl, sym, ap, ◌∙◌, Bool, true, List, [], ◌∷◌, Option, none,
  some, Text, text_eq, text_eq_iff, ◌==◌, length, length-take-le, min, find, filter, ltb, leb, ◌&&◌,
  &&-true, same_text, same_text-eq, All, All-take, All-sort_by, All-filtered, Among, find-Among,
  Bool-cases, arith,
}
use passwort_manager_yurr.Platform.{Platform}
use passwort_manager_yurr.World.{World, Owner, PendingCredential}
use passwort_manager_yurr.Pending.{
  credentials, max_records, owned, live, latest, first_expiry, store_records, get_record,
  update_records, change_records, end_update, joined, record_key, get_credentials,
}
use passwort_manager_yurr.Session.Stored.{quiet}

find-holds : {A : Type 0} (p : A → Bool) (xs : List A) (x : A) → find p xs ≡ some x → p x ≡ true
find-holds p [] x h = cc
find-holds p (y ∷ ys) x h = elim (Bool-cases (p y)) [
  | inl hit ↦ ground arith
  | inr skip ↦ find-holds p ys x (rw skip at h)
]

find-filter :
    {A : Type 0} (p q : A → Bool) (xs : List A) (x : A) → find p (filter q xs) ≡ some x → q x ≡ true
find-filter p q [] x h = cc
find-filter p q (y ∷ ys) x h = elim (Bool-cases (q y)) [
  | inr skip ↦ find-filter p q ys x (rw skip at h)
  | inl hit ↦ elim (Bool-cases (p y)) [
    | inr other ↦ find-filter p q ys x (rw (hit, other) at h)
    | inl this ↦ ground arith
  ]
]

filter-Among :
    {A : Type 0} (p : A → Bool) (xs : List A) (x : A) → Among x (filter p xs) → Among x xs
filter-Among p [] x h = h
filter-Among p (y ∷ ys) x h = elim (Bool-cases (p y)) [
  | inl kept ↦ elim (rw kept at h) [
    | inl here ↦ inl here
    | inr there ↦ inr (filter-Among p ys x there)
  ]
  | inr gone ↦ inr (filter-Among p ys x (rw gone at h))
]

-- Where the records of an owner are from.
owned-Among :
    (owner : Owner) (slot : Option (Owner × List PendingCredential)) (r : PendingCredential)
    → Among r (owned credentials owner slot)
    → (o : Owner) × (rs : List PendingCredential) × (slot ≡ some (o, rs))
      × (o.token ≡ owner.token)
      × (o.server_url ≡ owner.server_url)
      × Among r rs
owned-Among owner none r h = elim h [ ]
owned-Among owner (some (o, rs)) r h =
    elim (Bool-cases (same_text o.token owner.token && same_text o.server_url owner.server_url)) [
      | inr other ↦ elim (rw other at h) [ ]
      | inl same ↦ (
        o,
        rs,
        refl,
        same_text-eq o.token owner.token (&&-true _ _ same).0,
        same_text-eq o.server_url owner.server_url (&&-true _ _ same).1,
        rw same at h,
      )
    ]

min-le-left : (m n : ℕ) → min m n ≤ m
min-le-left m n = ground arith

min-le-right : (m n : ℕ) → min m n ≤ n
min-le-right m n = ground arith

eq_of_test : {m n : ℕ} → (m == n) ≡ true → m ≡ n
eq_of_test h = ground arith

lt_of_test : {m n : ℕ} → ltb m n ≡ true → m < n
lt_of_test h = ground arith

module _ (platform : Platform) (env : ℕ → World → World) where
  -- A pending credential that is returned: one of those that are stored, for an owner with the token
  -- and the server of the caller, under the key that is asked for, not expired when it was read, and
  -- the token is still the same.
  pub record IsOwned (domain : Text) (sender : Option (ℕ × ℕ)) (w : World) (r : PendingCredential)
      (v : World) : Type 0 where
    pub owner : Owner
    pub records : List PendingCredential
    pub kept : (env 0 w).pending_credentials ≡ some (owner, records)
    pub among : Among r records
    pub same_token : owner.token ≡ w.token
    pub same_server : owner.server_url ≡ w.server_url
    pub keyed : r.key ≡ record_key platform env domain sender
    pub unexpired : (env 0 w).now < r.expires_at
    pub current : v.token_generation ≡ w.token_generation
    pub stored :
        get_record credentials (record_key platform env domain sender) (
          live credentials (env 0 w).now (
            owned credentials
              (record { token = w.token; server_url = w.server_url })
              (env 0 w).pending_credentials))
        ≡ some r

  end_update-some :
      (generation : ℕ) (value : Option PendingCredential) (u v : World) (r : PendingCredential)
      → joined platform env (end_update credentials env generation value u) ≡ (some r, v)
      → (value ≡ some r) × (v.token_generation ≡ generation)
  end_update-some generation value u v r h = elim (Bool-cases (generation == u.token_generation)) [
    | inl same ↦
        let e : joined platform env (some value, u) ≡ (some r, v) = rw same at h in
        let there : u ≡ v = cc in
        (cc, ap (λ (x : World). x.token_generation) (sym there) ∙ sym (eq_of_test same))
    | inr other ↦ cc (rw other at h)
  ]

  -- A pending credential, whose password a prompt would save, is returned only to the frame that has
  -- submitted it, before it expires, and to the session that stored it, while the token stays the
  -- same, whatever other handlers do.
  pub get_credentials-IsOwned :
      (domain : Text) (sender : Option (ℕ × ℕ)) (w : World) (r : PendingCredential) (v : World)
      → get_credentials platform env domain sender w ≡ (some r, v)
      → IsOwned domain sender w r v
  unfolding get_credentials
  get_credentials-IsOwned domain sender w r v h =
      elim (Bool-cases (w.token_generation == (env 0 w).token_generation)) [
        | inr other ↦ cc (rw (other, update_records) at h)
        | inl same ↦
            let owner : Owner = record { token = w.token; server_url = w.server_url } in
            let k = record_key platform env domain sender in
            let records =
              live credentials (env 0 w).now
                (owned credentials owner (env 0 w).pending_credentials) in
            let (found, current) =
              end_update-some w.token_generation (get_record credentials k records)
                (env 1 (store_records credentials owner (latest credentials records) (env 0 w))) v r
                (rw (same, update_records) at h) in
            let from = owned-Among owner (env 0 w).pending_credentials r (
              filter-Among (λ (x : PendingCredential). ltb (env 0 w).now x.expires_at)
                (owned credentials owner (env 0 w).pending_credentials) r
                (find-Among (λ (x : PendingCredential). text_eq x.key k) records r found)) in
            record {
              owner = from.0;
              records = from.1;
              kept = from.2;
              same_token = from.3;
              same_server = from.4;
              among = from.5;
              keyed = (text_eq_iff r.key k).0 (find-holds (λ x. text_eq x.key k) records r found);
              unexpired = lt_of_test (
                  find-filter (λ x. text_eq x.key k) (λ x. ltb (env 0 w).now x.expires_at)
                    (owned credentials owner (env 0 w).pending_credentials) r found);
              current = current;
              stored = found;
            }
      ]

All-le :
    (m n : ℕ) (rs : List PendingCredential)
    → m ≤ n
    → All (λ (x : PendingCredential). n ≤ x.expires_at) rs
    → All (λ (x : PendingCredential). m ≤ x.expires_at) rs
All-le m n [] le h = tt
All-le m n (r ∷ rs) le (e, h) = (omega arith, All-le m n rs le h)

first_expiry-le :
    (r : PendingCredential) (rest : List PendingCredential)
    → All (λ (x : PendingCredential). first_expiry credentials r rest ≤ x.expires_at) (r ∷ rest)
first_expiry-le r [] = (omega arith, tt)
first_expiry-le r (s ∷ rest) = (
  min-le-left r.expires_at (first_expiry credentials s rest),
  All-le _ (first_expiry credentials s rest) (s ∷ rest)
      (min-le-right r.expires_at (first_expiry credentials s rest)) (first_expiry-le s rest),
)

module _ (P : PendingCredential → Type 0) where
  -- What is stored for an owner: nothing, and no alarm, or at most a hundred records, with the
  -- property, and an alarm no later than the first of them expires.
  abbrev pub IsStored : Owner → World → Type 0
  IsStored owner v =
      (v.pending_credentials ≡ none) × (v.pending_alarm ≡ none)
      ⊎ ((records : List PendingCredential) × (at : ℕ) × (v.pending_credentials
            ≡ some (owner, records))
          × (length records ≤ max_records)
          × (v.pending_alarm ≡ some at)
          × All (λ (x : PendingCredential). at ≤ x.expires_at) records
          × All P records)

  store_records-IsStored :
      (owner : Owner) (entries : List PendingCredential) (w : World)
      → length entries ≤ max_records
      → All P entries
      → IsStored owner (store_records credentials owner entries w)
  store_records-IsStored owner [] w few h = inl (refl, refl)
  store_records-IsStored owner (r ∷ rest) w few h =
      inr (r ∷ rest, first_expiry credentials r rest, refl, few, refl, first_expiry-le r rest, h)

  owned-All :
      (owner : Owner) (slot : Option (Owner × List PendingCredential))
      → ((o : Owner) (rs : List PendingCredential)
          → slot ≡ some (o, rs)
          → o.token ≡ owner.token
          → o.server_url ≡ owner.server_url
          → All P rs)
      → All P (owned credentials owner slot)
  owned-All owner none h = tt
  owned-All owner (some (o, rs)) h =
      elim (Bool-cases (same_text o.token owner.token && same_text o.server_url owner.server_url)) [
        | inr other ↦ rw other tt
        | inl same ↦ rw same (
            h o rs refl (same_text-eq o.token owner.token (&&-true _ _ same).0)
              (same_text-eq o.server_url owner.server_url (&&-true _ _ same).1))
      ]

  All-before :
      (now : ℕ) (rs : List PendingCredential)
      → All (λ x. P x × (ltb now x.expires_at ≡ true)) rs
      → All (λ x. P x × (now < x.expires_at)) rs
  All-before now [] h = tt
  All-before now (r ∷ rs) h = ((h.0.0, lt_of_test h.0.1), All-before now rs h.1)

  -- What a change is given.
  live-All :
      (now : ℕ) (owner : Owner) (slot : Option (Owner × List PendingCredential))
      → All P (owned credentials owner slot)
      → All (λ x. P x × (now < x.expires_at)) (live credentials now (owned credentials owner slot))
  live-All now owner slot h = All-before now _ (
      All-filtered P (λ (x : PendingCredential). ltb now x.expires_at)
        (owned credentials owner slot) h)

  eq_refl : (n : ℕ) → (n == n) ≡ true
  eq_refl n = ground arith

  -- An update that no other handler interrupts takes up only records that are stored for the token
  -- and the server of its caller and have not expired: whatever holds of the records that are stored
  -- for them and is kept by the change of those that have not expired holds of the records that it
  -- leaves, which it stores for them. It leaves at most a hundred, and an alarm no later than the
  -- first expires; with none left there is no alarm.
  pub update_records-IsStored :
      {B : Type 0} (change : ℕ → List PendingCredential → B × List PendingCredential) (w : World)
      → ((o : Owner) (rs : List PendingCredential)
          → w.pending_credentials ≡ some (o, rs)
          → o.token ≡ w.token
          → o.server_url ≡ w.server_url
          → All P rs)
      → ((rs : List PendingCredential)
          → All (λ x. P x × (w.now < x.expires_at)) rs
          → All P (change w.now rs).1)
      → IsStored
          (record { token = w.token; server_url = w.server_url })
          (update_records credentials quiet change w).1
  unfolding update_records
  update_records-IsStored change w stored keeps =
      let owner : Owner = record { token = w.token; server_url = w.server_url } in
      let records = live credentials w.now (owned credentials owner w.pending_credentials) in
      let changed = (change w.now records).1 in
      let kept = keeps records (
        live-All w.now owner w.pending_credentials
          (owned-All owner w.pending_credentials stored)) in
      rw (eq_refl w.token_generation, change_records, update_records)
        (store_records-IsStored owner (latest credentials changed) w (length-take-le max_records _)
          (All-take P max_records _ (
            All-sort_by P (λ (a b : PendingCredential). leb b.expires_at a.expires_at) changed
              kept)))
