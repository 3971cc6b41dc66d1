-- ===== src/Views/Favicons.antt =====
-- extension/popup/favicon-loader.js: the queue of icons to load, four at a time.
use passwort_manager_yurr.Common.{
  ℕ, ◌+◌, ◌-◌, ◌≤◌, ◌≡◌, ◌⊎◌, refl, Bool, not, List, [], ◌∷◌, ◌++◌, ltb, if◌then◌else◌, Bool-cases,
  inl, inr, arith,
}

-- `active`, the queue, the jobs whose search has begun, and those that were dropped, as numbers.
pub record Loader : Type 0 where
  pub active : ℕ
  pub queue : List ℕ
  pub begun : List ℕ
  pub dropped : List ℕ

abbrev pub begin_job : ℕ → Loader → Loader
begin_job job l = record l { active = l.active + 1; begun = l.begun ++ job ∷ [] }

abbrev pub drop_job : ℕ → Loader → Loader
drop_job job l = record l { dropped = l.dropped ++ job ∷ [] }

abbrev pub with_queue : List ℕ → Loader → Loader
with_queue jobs l = record l { queue = jobs }

module _ (is_current : ℕ → Bool) where
  -- The loop of `drain`, over the queue
  unfoldable pub drain_from : List ℕ → Loader → Loader
  drain_from [] l = with_queue [] l
  drain_from (job ∷ jobs) l =
      let begun = drain_from jobs (begin_job job l) in
      let dropped = drain_from jobs (drop_job job l) in
      if not (ltb l.active 4)
      then with_queue (job ∷ jobs) l
      else if is_current job
      then begun
      else dropped

  -- `drain`
  unfoldable pub drain : Loader → Loader
  unfolding drain_from
  drain l = drain_from l.queue l

  -- `load`, of a job with a number
  unfoldable pub load : ℕ → Loader → Loader
  unfolding drain
  load job l = drain (record l { queue = l.queue ++ job ∷ [] })

  -- The end of a search
  unfoldable pub finish : Loader → Loader
  unfolding drain
  finish l = drain (record l { active = l.active - 1 })

  -- No more than four searches, and no job waits while there are less.
  pub record IsSteady (l : Loader) : Type 0 where
    pub bound : l.active ≤ 4
    pub busy : (l.queue ≡ []) ⊎ (l.active ≡ 4)

  drain_from-IsSteady : (jobs : List ℕ) (l : Loader) → l.active ≤ 4 → IsSteady (drain_from jobs l)
  unfolding drain_from
  drain_from-IsSteady [] l h = record { bound = h; busy = inl refl }
  drain_from-IsSteady (job ∷ jobs) l h = elim (Bool-cases (ltb l.active 4)) [
    | inr full ↦ rw full (record { bound = h; busy = inr (ground arith) })
    | inl free ↦ elim (Bool-cases (is_current job)) [
      | inl current ↦ rw (free, current) (drain_from-IsSteady jobs (begin_job job l) (ground arith))
      | inr stale ↦ rw (free, stale) (drain_from-IsSteady jobs (drop_job job l) h)
    ]
  ]

  -- Each operation leaves no more than four searches, and no job that waits while there are less.
  load-IsSteady : (job : ℕ) (l : Loader) → l.active ≤ 4 → IsSteady (load job l)
  unfolding load drain
  load-IsSteady job l h =
      drain_from-IsSteady (l.queue ++ job ∷ []) (record l { queue = l.queue ++ job ∷ [] }) h

  finish-IsSteady : (l : Loader) → l.active ≤ 4 → IsSteady (finish l)
  unfolding finish drain
  finish-IsSteady l h =
      drain_from-IsSteady l.queue (record l { active = l.active - 1 }) (omega arith)
