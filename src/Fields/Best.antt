-- ===== src/Fields/Best.antt =====
-- extension/content/heuristics.js: no other candidate scores more than the input that is found.
use passwort_manager_yurr.Common.{◌≡◌, true, List, [], ◌∷◌, All}
use passwort_manager_yurr.Platform.{Platform}
use passwort_manager_yurr.Fields.Inputs.{Field, Score, Candidate, no_less}
use passwort_manager_yurr.Fields.Found.{candidates_for, placed, IsUsername}

abbrev Least : Score → Candidate → Type 0
Least s d = no_less s d.score ≡ true

-- A candidate that comes first in its order scores no less than those of a list.
abbrev Leads : List Candidate → List Candidate → Type 0
Leads [] ds = ds ≡ []
Leads (c ∷ cs) ds = All (Least c.score) ds

module _ (platform : Platform) (password : Field) (fs : List Field) where
  -- An input that may take the user name, and scores no less than any that might.
  pub record IsBest (f : Field) : Type 0 where
    pub username : IsUsername platform password fs f
    pub best :
        All
          (λ d. no_less (placed platform password fs f).score d.score ≡ true)
          (candidates_for platform password fs)
