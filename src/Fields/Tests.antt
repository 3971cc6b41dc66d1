-- ===== src/Fields/Tests.antt =====
-- Tests of the patterns and of the search for the input of a user name.
use passwort_manager_yurr.Common.{◌≡◌, refl, true, false, [], ◌∷◌, none, some, codes}
use passwort_manager_yurr.Samples.{sample_platform}
use passwort_manager_yurr.Fields.{test}
use passwort_manager_yurr.Fields.Words.{username_keywords, search_keywords}
use passwort_manager_yurr.Fields.Inputs.{Field}
use passwort_manager_yurr.Fields.Forms.{Form, is_change_form, is_registration_form}

patterns :
    (test username_keywords (codes "Your E-Mail") ≡ true)
    × (test username_keywords (codes "Log in here") ≡ true)
    × (test search_keywords (codes "site search!") ≡ true)
    × (test search_keywords (codes "research") ≡ false)
unfolding test
patterns = (refl, refl, refl, refl)

abbrev blank : Field
blank = record {
  number = 0;
  tag = codes "INPUT";
  type_attribute = none;
  type = codes "text";
  autocomplete = [];
  autocomplete_attribute = [];
  input_mode = [];
  input_mode_attribute = [];
  name = [];
  id = [];
  placeholder = [];
  aria_label = [];
  role = [];
  labels = [];
  parent_label = none;
  disabled = false;
  read_only = false;
  hidden = false;
  known = false;
  in_search = false;
  form = some 1;
  form_role = [];
}

abbrev user : Field
user = record blank { number = 1; name = codes "userName" }

abbrev other : Field
other = record blank { number = 2; name = codes "note" }

abbrev password : Field
password = record blank {
  number = 3;
  type_attribute = some (codes "password");
  type = codes "password";
  name = codes "oldPassword";
}

abbrev again : Field
again = record password { number = 4; name = codes "new_password" }

abbrev change : Form
change = record { action = codes "/account"; buttons = []; inputs = password ∷ again ∷ [] }

abbrev join : Form
join = record { action = codes "/signup"; buttons = []; inputs = password ∷ [] }

forms :
    (is_change_form sample_platform change ≡ true)
    × (is_registration_form sample_platform change ≡ false)
    × (is_registration_form sample_platform join ≡ true)
unfolding is_registration_form
forms = (refl, refl, refl)
