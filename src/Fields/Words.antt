-- ===== src/Fields/Words.antt =====
-- extension/content/heuristics.js: the patterns.
use passwort_manager_yurr.Common.{[], ◌∷◌, codes, ◌||◌, ◌==◌}
use passwort_manager_yurr.Fields.{Regex, char, boundary, seq, alt, literal, any_of, maybe}

abbrev pub dash_or_space : Regex
dash_or_space = maybe (char (λ c. c == b'-' || c == b' '))

-- `usernameKeywordPattern`
abbrev pub username_keywords : Regex
username_keywords = alt (seq (literal (codes "user")) (maybe (literal (codes "name")))) (
    alt (any_of (codes "email" ∷ [])) (
      alt (seq (literal (codes "e")) (seq (maybe (literal (codes "-"))) (literal (codes "mail")))) (
        alt (any_of (codes "login" ∷ [])) (
          alt (seq (literal (codes "log")) (seq dash_or_space (literal (codes "in")))) (
            alt
              (any_of (
                codes "account"
                ∷ codes "acct"
                ∷ codes "identifier"
                ∷ codes "member"
                ∷ codes "signin"
                ∷ []))
              (alt (seq (literal (codes "sign")) (seq dash_or_space (literal (codes "in"))))
                (literal (codes "mail"))))))))

-- `negativeKeywordPattern`
abbrev pub negative_keywords : Regex
negative_keywords = any_of (
    codes "search"
    ∷ codes "query"
    ∷ codes "suche"
    ∷ codes "suchen"
    ∷ codes "durchsuchen"
    ∷ codes "coupon"
    ∷ codes "promo"
    ∷ codes "captcha"
    ∷ codes "otp"
    ∷ codes "2fa"
    ∷ codes "token"
    ∷ codes "code"
    ∷ codes "postal"
    ∷ codes "zip"
    ∷ codes "city"
    ∷ codes "country"
    ∷ codes "address"
    ∷ [])

-- `searchKeywordPattern`
abbrev pub search_keywords : Regex
search_keywords = seq boundary (
    seq
      (any_of (
        codes "search"
        ∷ codes "query"
        ∷ codes "lookup"
        ∷ codes "find"
        ∷ codes "suche"
        ∷ codes "suchen"
        ∷ codes "durchsuchen"
        ∷ []))
      boundary)

abbrev pub phone_words : Regex
phone_words = any_of (codes "phone" ∷ codes "tel" ∷ codes "mobile" ∷ [])

-- `/(email|e-?mail|mail)/i`
abbrev pub email_words : Regex
email_words = alt (literal (codes "email")) (
    alt (seq (literal (codes "e")) (seq (maybe (literal (codes "-"))) (literal (codes "mail"))))
      (literal (codes "mail")))
