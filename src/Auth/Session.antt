-- ===== src/Auth/Session.antt =====
-- src/auth.rs: session tokens. Strings are their bytes; `hmac` is HMAC-SHA256 under the process's key and
-- `sha256` the digest, `show_hex` and `read_hex` are std's `{:x}` and `from_str_radix(_, 16)`.
use open_proxy.Common.{
  ℕ, zero, suc, ◌+◌, ◌-◌, ◌*◌, ◌/◌, ◌%◌, Bool, not, ◌&&◌, Option, none, some, List, [], ◌∷◌, ◌++◌,
  take, length, ltb, leb, if◌then◌else◌, ◌==◌, nat_eq, list_eq,
}

-- What a session reads of a `User`.
pub record Account : Type 0 where
  pub username : List ℕ
  pub password_hash : List ℕ

abbrev pub dot : ℕ
dot = 46

abbrev pub hex_digit : ℕ → ℕ
hex_digit n = if ltb n 10 then 48 + n else 87 + n

unfoldable pub hex : List ℕ → List ℕ
hex [] = []
hex (b ∷ bs) = hex_digit (b / 16) ∷ hex_digit (b % 16) ∷ hex bs

unfoldable pub hex_val : ℕ → Option ℕ
hex_val b =
    if leb 48 b && leb b 57
    then some (b - 48)
    else if leb 97 b && leb b 102
    then some (b - 97 + 10)
    else if leb 65 b && leb b 70
    then some (b - 65 + 10)
    else none

-- `hex_val(c[0])? << 4 | hex_val(c[1])?`, of values below 16.
abbrev pub join_digits : Option ℕ → Option ℕ → Option ℕ
join_digits (some high) (some low) = some (high * 16 + low)
join_digits (some high) none = none
join_digits none low = none

abbrev pub cons_byte : Option ℕ → Option (List ℕ) → Option (List ℕ)
cons_byte (some b) (some bs) = some (b ∷ bs)
cons_byte (some b) none = none
cons_byte none bs = none

unfoldable pub unhex : List ℕ → Option (List ℕ)
unhex [] = some []
unhex (c ∷ []) = none
unhex (c ∷ d ∷ rest) = cons_byte (join_digits (hex_val c) (hex_val d)) (unhex rest)

-- `to_be_bytes`, of so many bytes.
unfoldable pub be_bytes : ℕ → ℕ → List ℕ
be_bytes zero n = []
be_bytes (suc k) n = be_bytes k (n / 256) ++ n % 256 ∷ []

-- What `mac` feeds to the HMAC: each part behind its length.
unfoldable pub framed : List (List ℕ) → List ℕ
framed [] = []
framed (p ∷ ps) = be_bytes 8 (length p) ++ (p ++ framed ps)

abbrev pub cons_first : ℕ → List (List ℕ) → List (List ℕ)
cons_first b [] = (b ∷ []) ∷ []
cons_first b (part ∷ parts) = (b ∷ part) ∷ parts

-- `token.split('.')`
unfoldable pub split_dots : List ℕ → List (List ℕ)
split_dots [] = [] ∷ []
split_dots (b ∷ bs) = let rest = split_dots bs in if b == dot then [] ∷ rest else cons_first b rest

-- `StoredConfig::user`
unfoldable pub find_user : List ℕ → List Account → Option Account
find_user name [] = none
find_user name (u ∷ us) =
    let rest = find_user name us in if u.username == name then some u else rest

module _ (hmac sha256 : List ℕ → List ℕ) (show_hex : ℕ → List ℕ) where
  abbrev pub pw_fragment : List ℕ → List ℕ
  pw_fragment password_hash = take 8 (hex (sha256 password_hash))

  abbrev pub mac : List (List ℕ) → List ℕ
  mac parts = hmac (framed parts)

  -- The tag of a session, in hexadecimal.
  abbrev pub tag_of : ℕ → List ℕ → List ℕ → List ℕ
  tag_of expiry username frag = hex (mac (be_bytes 8 expiry ∷ username ∷ frag ∷ []))

  unfoldable pub sign_session : ℕ → List ℕ → List ℕ → List ℕ
  sign_session expiry username password_hash =
      let frag = pw_fragment password_hash in
      show_hex expiry ++ dot ∷ (hex username ++ dot ∷ (frag ++ dot ∷ tag_of expiry username frag))

  module _ (read_hex : List ℕ → Option ℕ) (is_utf8 : List ℕ → Bool) where
    -- The user's part, once the signature is checked.
    abbrev pub check_user : List ℕ → List ℕ → Option Account → Option (List ℕ)
    check_user name frag none = none
    check_user name frag (some user) =
        if frag == pw_fragment user.password_hash then some name else none

    abbrev pub check_name : ℕ → List ℕ → List ℕ → List Account → Option (List ℕ) → Option (List ℕ)
    check_name expiry frag tag users none = none
    check_name expiry frag tag users (some name) =
        if not (is_utf8 name)
        then none
        else if not (tag == tag_of expiry name frag)
        then none
        else check_user name frag (find_user name users)

    abbrev pub check_expiry :
        ℕ → List ℕ → List ℕ → List ℕ → List Account → Option ℕ → Option (List ℕ)
    check_expiry now name frag tag users none = none
    check_expiry now name frag tag users (some expiry) =
        if ltb expiry now then none else check_name expiry frag tag users (unhex name)

    abbrev pub check_parts : ℕ → List Account → List (List ℕ) → Option (List ℕ)
    check_parts now users (expiry ∷ name ∷ frag ∷ tag ∷ []) =
        check_expiry now name frag tag users (read_hex expiry)
    check_parts now users _ = none

    unfoldable pub verify_session : ℕ → List ℕ → List Account → Option (List ℕ)
    verify_session now token users = check_parts now users (split_dots token)
