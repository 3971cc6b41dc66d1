-- ===== src/Session/Paths.antt =====
-- extension/background/api.js: where the calls of the endpoints go, and what `login` keeps.
use passwort_manager_yurr.Common.{
  ℕ, ◌+◌, ◌/◌, ◌%◌, ◌<◌, ◌≡◌, ◌≢◌, refl, sym, true, List, [], ◌∷◌, ◌++◌, append-nil, Text, codes,
  text_eq, any, ltb, All, All-append, Bool-cases, inl, inr, arith,
}
use passwort_manager_yurr.Session.Endpoints.{
  is_unreserved, hex_digit, escape, escape_point, encode, Endpoint, call_of, entries_path,
  items_path, get_status, logout, validate_session, setup, list_entries, get_entry, delete_entry,
  delete_vault_item, create_entry, update_entry, list_vault_items, create_vault_item,
  update_vault_item, export_vault, generate_password, bulk_import, change_password,
}

-- Neither the end of a segment nor of a path, nor of a value in a query.
abbrev pub IsPlain : ℕ → Type 0
IsPlain c = (c ≢ b'/') × (c ≢ b'?') × (c ≢ b'#') × (c ≢ b'&')

unreserved-IsPlain : (c : ℕ) → is_unreserved c ≡ true → IsPlain c
unreserved-IsPlain c h = ground arith

hex_digit-IsPlain : (n : ℕ) → n < 16 → IsPlain (hex_digit n)
hex_digit-IsPlain n h = ground arith

escape-IsPlain : (b : ℕ) → All IsPlain (escape b)
escape-IsPlain b = (
  ground arith,
  (hex_digit-IsPlain (b / 16 % 16) (omega arith), (hex_digit-IsPlain (b % 16) (omega arith), tt)),
)

escapes-IsPlain : (a b : ℕ) → All IsPlain (escape a ++ escape b)
escapes-IsPlain a b = All-append IsPlain (escape a) (escape b) (escape-IsPlain a) (escape-IsPlain b)

escape_point-IsPlain : (c : ℕ) → All IsPlain (escape_point c)
escape_point-IsPlain c = elim (Bool-cases (ltb c 128)) [
  | inl one ↦ rw one (escape-IsPlain c)
  | inr more ↦ elim (Bool-cases (ltb c 2048)) [
    | inl two ↦ rw (more, two) (escapes-IsPlain (192 + c / 64) (128 + c % 64))
    | inr longer ↦ elim (Bool-cases (ltb c 65536)) [
      | inl three ↦
          rw (more, longer, three)
            (All-append IsPlain (escape (224 + c / 4096))
              (escape (128 + c / 64 % 64) ++ escape (128 + c % 64))
              (escape-IsPlain (224 + c / 4096))
              (escapes-IsPlain (128 + c / 64 % 64) (128 + c % 64)))
      | inr four ↦
          rw (more, longer, four)
            (All-append IsPlain (escape (240 + c / 262144))
              (escape (128 + c / 4096 % 64)
                ++ (escape (128 + c / 64 % 64) ++ escape (128 + c % 64)))
              (escape-IsPlain (240 + c / 262144))
              (All-append IsPlain (escape (128 + c / 4096 % 64))
                (escape (128 + c / 64 % 64) ++ escape (128 + c % 64))
                (escape-IsPlain (128 + c / 4096 % 64))
                (escapes-IsPlain (128 + c / 64 % 64) (128 + c % 64))))
    ]
  ]
]

encode-IsPlain : (t : Text) → All IsPlain (encode t)
unfolding encode
encode-IsPlain [] = tt
encode-IsPlain (c ∷ t) = elim (Bool-cases (is_unreserved c)) [
  | inl kept ↦ rw kept (unreserved-IsPlain c kept, encode-IsPlain t)
  | inr other ↦
      rw other
        (All-append IsPlain (escape_point c) (encode t) (escape_point-IsPlain c) (encode-IsPlain t))
]

-- The paths of the server, each a whole path or one that ends where an argument follows.
abbrev pub prefixes : List Text
prefixes =
    codes "/auth/status"
    ∷ codes "/auth/setup"
    ∷ codes "/auth/logout"
    ∷ codes "/auth/session"
    ∷ codes "/auth/change-password"
    ∷ codes "/entries"
    ∷ codes "/entries/"
    ∷ codes "/entries/import"
    ∷ codes "/entries?domain="
    ∷ codes "/vault-items"
    ∷ codes "/vault-items/"
    ∷ codes "/vault-items?type="
    ∷ codes "/vault/export"
    ∷ codes "/generate"
    ∷ []

pub record IsPath (path : Text) : Type 0 where
  pub prefix : Text
  pub rest : Text
  pub known : any (text_eq prefix) prefixes ≡ true
  pub same : path ≡ prefix ++ rest
  pub plain : All IsPlain rest

fixed-IsPath : (t : Text) → any (text_eq t) prefixes ≡ true → IsPath t
fixed-IsPath t h = record {
  prefix = t;
  rest = [];
  known = h;
  same = sym (append-nil t);
  plain = tt;
}

encoded-IsPath : (t id : Text) → any (text_eq t) prefixes ≡ true → IsPath (t ++ encode id)
encoded-IsPath t id h = record {
  prefix = t;
  rest = encode id;
  known = h;
  same = refl;
  plain = encode-IsPlain id;
}

entries_path-IsPath : (domain : Text) → IsPath (entries_path domain)
entries_path-IsPath [] = fixed-IsPath (codes "/entries") refl
entries_path-IsPath (c ∷ t) = encoded-IsPath (codes "/entries?domain=") (c ∷ t) refl

items_path-IsPath : (item_type : Text) → IsPath (items_path item_type)
items_path-IsPath [] = fixed-IsPath (codes "/vault-items") refl
items_path-IsPath (c ∷ t) = encoded-IsPath (codes "/vault-items?type=") (c ∷ t) refl

module _ {D : Type 0} where
  -- Every endpoint asks for one of the server's paths, followed by an argument at most that has no
  -- slash, question mark, number sign or ampersand, whatever the id, the domain or the type is.
  pub call_of-IsPath : (e : Endpoint D) → IsPath (call_of e).path
  unfolding call_of
  call_of-IsPath get_status = fixed-IsPath (codes "/auth/status") refl
  call_of-IsPath logout = fixed-IsPath (codes "/auth/logout") refl
  call_of-IsPath validate_session = fixed-IsPath (codes "/auth/session") refl
  call_of-IsPath (setup master) = fixed-IsPath (codes "/auth/setup") refl
  call_of-IsPath (list_entries domain) = entries_path-IsPath domain
  call_of-IsPath (get_entry id) = encoded-IsPath (codes "/entries/") id refl
  call_of-IsPath (delete_entry id) = encoded-IsPath (codes "/entries/") id refl
  call_of-IsPath (delete_vault_item id) = encoded-IsPath (codes "/vault-items/") id refl
  call_of-IsPath (create_entry entry) = fixed-IsPath (codes "/entries") refl
  call_of-IsPath (update_entry id entry) = encoded-IsPath (codes "/entries/") id refl
  call_of-IsPath (list_vault_items item_type) = items_path-IsPath item_type
  call_of-IsPath (create_vault_item item_type payload) = fixed-IsPath (codes "/vault-items") refl
  call_of-IsPath (update_vault_item id payload) = encoded-IsPath (codes "/vault-items/") id refl
  call_of-IsPath (export_vault master) = fixed-IsPath (codes "/vault/export") refl
  call_of-IsPath (generate_password options) = fixed-IsPath (codes "/generate") refl
  call_of-IsPath (bulk_import entries skip) = fixed-IsPath (codes "/entries/import") refl
  call_of-IsPath (change_password current new) = fixed-IsPath (codes "/auth/change-password") refl
