-- ===== src/Popup/Pruning.antt =====
-- extension/background/popup-cache.js: what `prune` keeps.
use passwort_manager_yurr.Common.{
  ℕ, ◌+◌, ◌≤◌, ◌<◌, ◌≡◌, ◌↔◌, refl, ap, ◌&&◌, Bool, true, false, not, List, [], ◌∷◌, ◌++◌, reverse,
  reverse_aux, text_eq_refl, leb, filter, any, take, length, length-take-le, take-append-drop,
  length-append, length-filter-le, sort_by, insert_by, All, All-filter, Bool-cases, inl, inr, arith,
}
use passwort_manager_yurr.World.{Kept}
use passwort_manager_yurr.Popup.{
  ttl_ms, max_details, fresh, is_detail, has_key, by_use, surplus, without, prune,
}

module _ {A : Type 0} (p : A → Bool) where
  filter-append : (xs ys : List A) → filter p (xs ++ ys) ≡ filter p xs ++ filter p ys
  filter-append [] ys = refl
  filter-append (x ∷ xs) ys = ground (arith, filter-append xs ys)

  filter-none : (xs : List A) → All (λ x. p x ≡ false) xs → filter p xs ≡ []
  filter-none [] h = refl
  filter-none (x ∷ xs) (e, h) = rw e (filter-none xs h)

  length-filter-insert_by :
      (before : A → A → Bool) (x : A) (xs : List A)
      → length (filter p (insert_by before x xs)) ≡ length (filter p (x ∷ xs))
  length-filter-insert_by before x [] = refl
  length-filter-insert_by before x (y ∷ ys) = ground (arith, length-filter-insert_by before x ys)

  length-filter-sort_by :
      (before : A → A → Bool) (xs : List A)
      → length (filter p (sort_by before xs)) ≡ length (filter p xs)
  length-filter-sort_by before [] = refl
  length-filter-sort_by before (x ∷ xs) =
      ground (
        arith,
        length-filter-insert_by before x (sort_by before xs),
        length-filter-sort_by before xs,
      )

  length-filter-reverse_aux :
      (xs ys : List A)
      → length (filter p (reverse_aux xs ys)) ≡ length (filter p xs) + length (filter p ys)
  length-filter-reverse_aux [] ys = omega arith
  length-filter-reverse_aux (x ∷ xs) ys = ground (arith, length-filter-reverse_aux xs (x ∷ ys))

-- What a list without its surplus still holds of a list that ends in that surplus.
without-surplus :
    (gone front : List Kept)
    → All (λ r. any (has_key r.key) gone ≡ true) gone
    → length (filter (λ r. not (any (has_key r.key) gone)) (front ++ gone)) ≤ length front
without-surplus gone front h =
    let q = λ (r : Kept). not (any (has_key r.key) gone) in
    omega (
      arith,
      ap length (filter-append q front gone),
      length-append (filter q front) (filter q gone),
      ap length (filter-none q gone (All-not gone gone h)),
      length-filter-le q front,
    )
  where
    All-not :
        (g l : List Kept)
        → All (λ r. any (has_key r.key) g ≡ true) l
        → All (λ r. not (any (has_key r.key) g) ≡ false) l
    All-not g [] k = tt
    All-not g (x ∷ xs) (e, k) = (rw e, All-not g xs k)

weaken :
    (x : Kept) (gone l : List Kept)
    → All (λ r. any (has_key r.key) gone ≡ true) l
    → All (λ r. any (has_key r.key) (x ∷ gone) ≡ true) l
weaken x gone [] h = tt
weaken x gone (r ∷ l) (e, h) = (ground arith, weaken x gone l h)

any-has_key_self : (gone : List Kept) → All (λ r. any (has_key r.key) gone ≡ true) gone
any-has_key_self [] = tt
any-has_key_self (r ∷ rest) =
    (ground (arith, text_eq_refl r.key), weaken r rest rest (any-has_key_self rest))

filter-filter :
    (d q : Kept → Bool) (xs : List Kept)
    → (filter d (filter q xs) ≡ filter (λ r. d r && q r) xs)
      × (filter q (filter d xs) ≡ filter (λ r. d r && q r) xs)
filter-filter d q [] = (refl, refl)
filter-filter d q (x ∷ xs) = let (a, b) = filter-filter d q xs in (ground arith, ground arith)

length-details :
    (records : List Kept)
    → length (filter is_detail (without (surplus records) records)) ≤ max_details
length-details records =
    let gone = surplus records in
    let q = λ (r : Kept). not (any (has_key r.key) gone) in
    let both = λ (r : Kept). is_detail r && q r in
    let details = filter is_detail (reverse records) in
    omega (
      arith,
      ap length (filter-filter is_detail q records).0,
      length-filter-reverse_aux both records [],
      ap length (filter-filter is_detail q (reverse records)).1,
      length-filter-sort_by q (λ a b. leb b.last_used_at a.last_used_at) details,
      ap (λ l. length (filter q l)) (take-append-drop max_details (by_use records)),
      without-surplus gone (take max_details (by_use records)) (any-has_key_self gone),
      length-take-le max_details (by_use records),
    )

abbrev pub IsFresh : ℕ → Kept → Type 0
IsFresh now r = (r.cached_at ≤ now) × (now < r.cached_at + ttl_ms)

pub fresh_iff : (now : ℕ) (r : Kept) → (fresh now r ≡ true) ↔ IsFresh now r
unfolding fresh
fresh_iff now r = ground arith

All-fresh :
    (now : ℕ) (gone xs : List Kept)
    → All (λ r. fresh now r ≡ true) xs
    → All (IsFresh now) (without gone xs)
All-fresh now gone [] h = tt
All-fresh now gone (r ∷ xs) (e, h) = elim (Bool-cases (any (has_key r.key) gone)) [
  | inl out ↦ rw out (All-fresh now gone xs h)
  | inr kept ↦ rw kept ((fresh_iff now r).0 e, All-fresh now gone xs h)
]

-- After pruning no record is older than five minutes or from the future, and at most twenty
-- decrypted entries are left.
pub prune_bounds :
    (now : ℕ) (records : List Kept)
    → All (IsFresh now) (prune now records)
      × (length (filter is_detail (prune now records)) ≤ max_details)
unfolding prune
prune_bounds now records = (
  All-fresh now _ _ (All-filter (fresh now) records),
  length-details (filter (fresh now) records),
)
