-- ===== src/Popup/Mutation.antt =====
-- extension/background/popup-cache.js: what `mutate` leaves when no other handler runs.
use passwort_manager_yurr.Common.{
  ℕ, ◌+◌, ◌≡◌, refl, ◌∙◌, if◌then◌else◌, Bool, true, false, ◌&&◌, ◌==◌, ap, [], ◌∷◌, Option, none,
  some, Text, truthy, same_text, text_eq_refl, arith,
}
use passwort_manager_yurr.Platform.{Platform, Url}
use passwort_manager_yurr.World.{World, Kept}
use passwort_manager_yurr.Popup.{clear}
use passwort_manager_yurr.Popup.Sanitize.{Answer}
use passwort_manager_yurr.Popup.Fetch.{Context, context_of, same_session}
use passwort_manager_yurr.Popup.Read.{mutate, end_mutation, cleared, wait_for, clear_first}
use passwort_manager_yurr.Session.Api.{Result, M}
use passwort_manager_yurr.Session.Stored.{quiet}

abbrev holds : Option Text → Bool
holds a = elim (truthy a) [ none ↦ false | some t ↦ true ]

same_text_refl : (a : Option Text) → same_text a a ≡ true
same_text_refl none = refl
same_text_refl (some t) = text_eq_refl t

all_true : {a b c d : Bool} → a ≡ true → b ≡ true → c ≡ true → d ≡ true → (a && b && c && d) ≡ true
all_true ha hb hc hd = rw (ha, hb, hc, hd) refl

eq_refl : (n : ℕ) → (n == n) ≡ true
eq_refl n = ground arith

same_session_refl :
    (w : World) (c : ℕ) (t : Text) → w.token ≡ some (c ∷ t) → same_session (context_of w) w ≡ true
unfolding same_session
same_session_refl w c t held =
    all_true (ap holds held) (same_text_refl w.token) (same_text_refl w.server_url)
      (eq_refl w.token_generation)

module _ (platform : Platform) (bare_href : Url → Text) (origin : Text → Option Text)
    (ask : Text → M Answer) (join_load : M (Unit {0})) (join_fetch : Text → M Kept) where
  -- The state in which the operation runs: the cache is empty and the mutation under way.
  abbrev pub opened : World → World
  opened w = clear (record w {
    popup = record (w.popup) {
      mutation = some (w.popup.mutations + 1);
      mutations = w.popup.mutations + 1;
    };
  })

  pub record IsEnded {A : Type 0} (out v : Result A × World) : Type 0 where
    pub result : v.0 ≡ out.0
    pub records : v.1.popup.records ≡ out.1.popup.records
    pub stored : v.1.popup.stored ≡ out.1.popup.stored
    pub generation : v.1.popup.generation ≡ out.1.popup.generation

  end_mutation-IsEnded :
      {A : Type 0} (ticket : ℕ) (out : Result A × World)
      → IsEnded out
          (end_mutation platform bare_href origin ask join_load join_fetch quiet ticket out)
  end_mutation-IsEnded ticket (r, w) = go w.popup.mutation
    where
      dropped : World
      dropped = record w { popup = record (w.popup) { mutation = none } }

      pick : (b : Bool) → IsEnded (r, w) (r, if b then dropped else w)
      pick true = record { result = refl; records = refl; stored = refl; generation = refl }
      pick false = record { result = refl; records = refl; stored = refl; generation = refl }

      go :
          (m : Option ℕ)
          → IsEnded
              (r, w)
              (elim m [
                | none ↦ (r, w)
                | some latest ↦ (r, if latest == ticket then dropped else w)
              ])
      go none = record { result = refl; records = refl; stored = refl; generation = refl }
      go (some latest) = pick (latest == ticket)

  wait_for-quiet :
      (i : ℕ) (m : Option ℕ) (w : World)
      → wait_for platform bare_href origin ask join_load join_fetch quiet i m w ≡ w
  wait_for-quiet i none w = refl
  wait_for-quiet i (some ticket) w = refl

  clear_first-lem :
      {A : Type 0} (context : Context) (operation : M A) (w : World)
      → same_session context w ≡ true
      → same_session context (clear w) ≡ true
      → clear_first platform bare_href origin ask join_load join_fetch quiet context operation w
        ≡ cleared platform bare_href origin ask join_load join_fetch quiet (operation (clear w))
  clear_first-lem context operation w before after = rw (before, after) refl

  -- A change of the vault, with a token held and no other handler at its waits, runs its operation
  -- on an empty cache, returns what the operation returns and leaves no record behind, in memory or
  -- in session storage, whatever the operation has put there, under a newer generation.
  pub mutate-lem :
      {A : Type 0} (operation : M A) (w : World) (c : ℕ) (t : Text)
      → w.token ≡ some (c ∷ t)
      → ((mutate platform bare_href origin ask join_load join_fetch quiet operation w).0
          ≡ (operation (opened w)).0)
        × ((mutate platform bare_href origin ask join_load join_fetch quiet operation
              w).1.popup.records
            ≡ [])
        × ((mutate platform bare_href origin ask join_load join_fetch quiet operation
              w).1.popup.stored
            ≡ none)
        × ((mutate platform bare_href origin ask join_load join_fetch quiet operation
              w).1.popup.generation
            ≡ (operation (opened w)).1.popup.generation + 1)
  unfolding mutate same_session clear
  mutate-lem operation w c t held =
      let same = same_session_refl w c t held in
      let begun : World = record w {
        popup = record (w.popup) {
          mutation = some (w.popup.mutations + 1);
          mutations = w.popup.mutations + 1;
        };
      } in
      let first = clear_first-lem (context_of w) operation begun same same in
      let ticket = w.popup.mutations + 1 in
      let out =
        cleared platform bare_href origin ask join_load join_fetch quiet
          (operation (clear begun)) in
      let ended = end_mutation-IsEnded ticket out in
      let whole : mutate platform bare_href origin ask join_load join_fetch quiet operation w
          ≡ end_mutation platform bare_href origin ask join_load join_fetch quiet ticket out =
        ap
          (λ u. end_mutation platform bare_href origin ask join_load join_fetch quiet ticket (
            clear_first platform bare_href origin ask join_load join_fetch quiet (context_of w)
              operation u))
          (wait_for-quiet 14 w.popup.mutation begun)
        ∙ ap (end_mutation platform bare_href origin ask join_load join_fetch quiet ticket) first in
      (
        ap (λ o. o.0) whole ∙ ended.result,
        ap (λ o. o.1.popup.records) whole ∙ ended.records,
        ap (λ o. o.1.popup.stored) whole ∙ ended.stored,
        ap (λ o. o.1.popup.generation) whole ∙ ended.generation,
      )
