-- ===== src/Fields.antt =====
-- extension/content/heuristics.js: the regular expressions that it searches texts with. Each is a term
-- of Regex, and `test` looks for a match at every place of the text.
pub mod Words
pub mod Inputs
pub mod Found
pub mod Best
pub mod Forms
pub mod Registration
pub mod Addresses
mod Tests
use passwort_manager_yurr.Common.{
  ℕ, ◌+◌, Bool, true, false, not, ◌&&◌, ◌||◌, List, [], ◌∷◌, ◌++◌, Option, none, some, Text, leb,
  ◌==◌, if◌then◌else◌, is_space,
}

pub data Regex : Type 0 where
  char : (ℕ → Bool) → Regex
  many : (ℕ → Bool) → Regex
  empty beginning ending boundary : Regex
  seq alt : Regex → Regex → Regex

-- A place in a text: the character before it, and what follows.
abbrev pub Place : Type 0
Place = Option ℕ × Text

-- Letters in both cases are the same, as with the flag `i`.
abbrev pub fold : ℕ → ℕ
fold c =
    if leb b'A' c && leb c b'Z' || leb 0xc0 c && leb c 0xde && not (c == 0xd7) then c + 32 else c

abbrev pub is_word : ℕ → Bool
is_word c =
    leb b'a' c && leb c b'z' || leb b'A' c && leb c b'Z' || leb b'0' c && leb c b'9' || c == b'_'

abbrev pub is_word_at : Option ℕ → Bool
is_word_at none = false
is_word_at (some c) = is_word c

abbrev pub first_of : Text → Option ℕ
first_of [] = none
first_of (c ∷ t) = some c

abbrev pub is_boundary : Place → Bool
is_boundary (before, rest) =
    if is_word_at before then not (is_word_at (first_of rest)) else is_word_at (first_of rest)

unfoldable pub run_many : (ℕ → Bool) → Option ℕ → Text → List Place
run_many p before [] = (before, []) ∷ []
run_many p before (c ∷ t) =
    let longer = run_many p (some c) t in (before, c ∷ t) ∷ (if p c then longer else [])

abbrev pub one : (ℕ → Bool) → Place → List Place
one p (before, []) = []
one p (before, c ∷ t) = if p c then (some c, t) ∷ [] else []

abbrev pub at_all : (Place → List Place) → List Place → List Place
at_all f [] = []
at_all f (p ∷ ps) = f p ++ at_all f ps

abbrev pub keep_if : Bool → Place → List Place
keep_if b p = if b then p ∷ [] else []

-- The places at which a match may end.
unfoldable pub ends : Regex → Place → List Place
unfolding run_many
ends (char p) place = one p place
ends (many p) (before, rest) = run_many p before rest
ends empty place = place ∷ []
ends beginning (none, rest) = (none, rest) ∷ []
ends beginning (some c, rest) = []
ends ending (before, []) = (before, []) ∷ []
ends ending (before, c ∷ t) = []
ends boundary place = keep_if (is_boundary place) place
ends (seq r s) place = at_all (ends s) (ends r place)
ends (alt r s) place = ends r place ++ ends s place

abbrev pub is_match : List Place → Bool
is_match [] = false
is_match (_ ∷ _) = true

-- `pattern.test(text)`
unfoldable pub test_from : Regex → Option ℕ → Text → Bool
unfolding ends
test_from r before [] = is_match (ends r (before, []))
test_from r before (c ∷ t) = is_match (ends r (before, c ∷ t)) || test_from r (some c) t

unfoldable pub test : Regex → Text → Bool
unfolding test_from
test r t = test_from r none t

-- A literal, alternatives, and the classes that the patterns use.
abbrev pub literal : Text → Regex
literal [] = empty
literal (c ∷ t) = seq (char (λ d. fold d == fold c)) (literal t)

abbrev pub any_of : List Text → Regex
any_of [] = char (λ d. false)
any_of (w ∷ []) = literal w
any_of (w ∷ v ∷ ws) = alt (literal w) (any_of (v ∷ ws))

-- `[\s_-]`, and `-`, a space or nothing
abbrev pub is_gap : ℕ → Bool
is_gap c = is_space c || c == b'_' || c == b'-'

abbrev pub maybe : Regex → Regex
maybe r = alt r empty
