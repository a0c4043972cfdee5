-- ===== src/Examples/Tokens.antt =====
-- The theorems on the session tokens of src/auth.rs at a concrete input.
use open_proxy.Common.{
  ℕ, ◌+◌, ◌-◌, ◌%◌, ◌≤◌, ◌≡◌, refl, Bool, true, Option, none, some, List, [], ◌∷◌, ◌++◌, length,
  arith, list_eq, nat_eq,
}
use open_proxy.Auth.Session.{
  Account, split_dots, unhex, find_user, pw_fragment, tag_of, sign_session, verify_session,
}
use open_proxy.Auth.Token.{verify_session-sign_session, verify_session-accepted}

abbrev hmac : List ℕ → List ℕ
hmac bytes = (length bytes % 256) ∷ []

abbrev sha256 : List ℕ → List ℕ
sha256 bytes = bytes ++ 1 ∷ 2 ∷ 3 ∷ 4 ∷ []

abbrev show_hex : ℕ → List ℕ
show_hex n = (n + 100) ∷ []

abbrev read_hex : List ℕ → Option ℕ
read_hex (b ∷ []) = some (b - 100)
read_hex _ = none

abbrev is_utf8 : List ℕ → Bool
is_utf8 bytes = true

abbrev alice : Account
alice = record { username = 97 ∷ 108 ∷ []; password_hash = 5 ∷ 6 ∷ [] }

abbrev bob : Account
bob = record { username = 98 ∷ []; password_hash = 7 ∷ [] }

abbrev token : List ℕ
token = sign_session hmac sha256 show_hex 9 alice.username alice.password_hash

alice_known : find_user alice.username (bob ∷ alice ∷ []) ≡ some alice
unfolding find_user
alice_known = refl

verify_session-sign_session_example :
    verify_session hmac sha256 show_hex read_hex is_utf8 8 token (bob ∷ alice ∷ [])
    ≡ some alice.username
verify_session-sign_session_example =
    verify_session-sign_session hmac sha256 show_hex read_hex is_utf8 8 9 alice (bob ∷ alice ∷ [])
      ((λ h. absurd (omega arith)), tt) refl (omega arith, (omega arith, tt)) refl (omega arith)
      alice_known

alice_verified :
    verify_session hmac sha256 show_hex read_hex is_utf8 8 token (bob ∷ alice ∷ [])
    ≡ some alice.username
alice_verified =
    verify_session-sign_session hmac sha256 show_hex read_hex is_utf8 8 9 alice (bob ∷ alice ∷ [])
      ((λ h. absurd (omega arith)), tt) refl (omega arith, (omega arith, tt)) refl (omega arith)
      alice_known

verify_session-accepted_example :
    (time : List ℕ) × (written : List ℕ) × (expiry : ℕ) × (user : Account) × (split_dots token
      ≡ time
        ∷ written
        ∷ pw_fragment hmac sha256 show_hex user.password_hash
        ∷ tag_of hmac sha256 show_hex expiry alice.username
            (pw_fragment hmac sha256 show_hex user.password_hash)
        ∷ [])
    × (read_hex time ≡ some expiry)
    × (8 ≤ expiry)
    × (unhex written ≡ some alice.username)
    × (find_user alice.username (bob ∷ alice ∷ []) ≡ some user)
verify_session-accepted_example =
    verify_session-accepted hmac sha256 show_hex read_hex is_utf8 8 token alice.username
      (bob ∷ alice ∷ []) alice_verified
