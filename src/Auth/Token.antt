-- ===== src/Auth/Token.antt =====
-- src/auth.rs: what `verify_session` accepts.
use open_proxy.Common.{
  ℕ, zero, suc, ◌+◌, ◌*◌, ◌/◌, ◌%◌, ◌<◌, ◌≤◌, ◌≡◌, ◌≢◌, refl, ap, ◌∙◌, Bool, true, false, Option,
  none, some, List, [], ◌∷◌, ◌++◌, take, ltb, ◌==◌, nat_eq, list_eq, list_beq_iff, All, subst,
  arith, Bool-cases, inl, inr,
}
use open_proxy.Auth.Session.{
  Account, dot, hex_digit, hex, hex_val, unhex, split_dots, find_user, pw_fragment, tag_of,
  sign_session, check_user, check_name, check_expiry, check_parts, verify_session,
}

abbrev pub NoDot : List ℕ → Type 0
NoDot = All (λ b. b ≢ dot)

abbrev pub Bytes : List ℕ → Type 0
Bytes = All (λ b. b < 256)

split_dots-dot : (xs ys : List ℕ) → NoDot xs → split_dots (xs ++ dot ∷ ys) ≡ xs ∷ split_dots ys
unfolding split_dots
split_dots-dot [] ys h = refl
split_dots-dot (x ∷ xs) ys h =
    let other : (x == dot) ≡ false = ground (arith, nat_eq.beq_iff x dot) in
    rw (other, split_dots-dot xs ys h.1) refl

split_dots-NoDot : (xs : List ℕ) → NoDot xs → split_dots xs ≡ xs ∷ []
unfolding split_dots
split_dots-NoDot [] h = refl
split_dots-NoDot (x ∷ xs) h =
    let other : (x == dot) ≡ false = ground (arith, nat_eq.beq_iff x dot) in
    rw (other, split_dots-NoDot xs h.1) refl

hex_digit-dot : (n : ℕ) → hex_digit n ≢ dot
hex_digit-dot n h = ground arith

hex-NoDot : (bs : List ℕ) → NoDot (hex bs)
unfolding hex
hex-NoDot [] = tt
hex-NoDot (b ∷ bs) = (hex_digit-dot (b / 16), (hex_digit-dot (b % 16), hex-NoDot bs))

take-NoDot : (n : ℕ) (bs : List ℕ) → NoDot bs → NoDot (take n bs)
take-NoDot zero bs h = tt
take-NoDot (suc n) [] h = tt
take-NoDot (suc n) (b ∷ bs) h = (h.0, take-NoDot n bs h.1)

hex_val-hex_digit : (n : ℕ) → n < 16 → hex_val (hex_digit n) ≡ some n
unfolding hex_val
hex_val-hex_digit n h = ground arith

unhex-hex : (bs : List ℕ) → Bytes bs → unhex (hex bs) ≡ some bs
unfolding hex unhex
unhex-hex [] h = refl
unhex-hex (b ∷ bs) h =
    let whole : (b / 16) * 16 + b % 16 ≡ b = omega arith in
    rw
      (
        hex_val-hex_digit (b / 16) (omega arith),
        hex_val-hex_digit (b % 16) (omega arith),
        unhex-hex bs h.1,
        whole,
      )
      refl

module _ (hmac sha256 : List ℕ → List ℕ) (show_hex : ℕ → List ℕ) (read_hex : List ℕ → Option ℕ)
    (is_utf8 : List ℕ → Bool) where
  split_dots-sign_session :
      (expiry : ℕ) (name hash : List ℕ)
      → NoDot (show_hex expiry)
      → let frag = pw_fragment hmac sha256 show_hex hash in
        split_dots (sign_session hmac sha256 show_hex expiry name hash)
        ≡ show_hex expiry ∷ hex name ∷ frag ∷ tag_of hmac sha256 show_hex expiry name frag ∷ []
  unfolding sign_session
  split_dots-sign_session expiry name hash h =
      let frag = pw_fragment hmac sha256 show_hex hash in
      let tag = tag_of hmac sha256 show_hex expiry name frag in
      rw
        (
          split_dots-dot (show_hex expiry) (hex name ++ dot ∷ (frag ++ dot ∷ tag)) h,
          split_dots-dot (hex name) (frag ++ dot ∷ tag) (hex-NoDot name),
          split_dots-dot frag tag (take-NoDot 8 (hex (sha256 hash)) (hex-NoDot (sha256 hash))),
          split_dots-NoDot tag (hex-NoDot _),
        )
        refl

  -- A token that `sign_session` mints for a user of the store is accepted, as that user, until it
  -- expires and as long as the password's hash is the one it was minted for. Assumed is that the
  -- expiry's hexadecimal has no dot and reads back.
  pub verify_session-sign_session :
      (now expiry : ℕ) (user : Account) (users : List Account)
      → NoDot (show_hex expiry)
      → read_hex (show_hex expiry) ≡ some expiry
      → Bytes user.username
      → is_utf8 user.username ≡ true
      → now ≤ expiry
      → find_user user.username users ≡ some user
      → verify_session hmac sha256 show_hex read_hex is_utf8 now
          (sign_session hmac sha256 show_hex expiry user.username user.password_hash)
          users
        ≡ some user.username
  unfolding verify_session
  verify_session-sign_session now expiry user users plain reads bytes valid fresh known =
      let frag = pw_fragment hmac sha256 show_hex user.password_hash in
      let tag = tag_of hmac sha256 show_hex expiry user.username frag in
      let live : ltb expiry now ≡ false = ground arith in
      rw
        (
          split_dots-sign_session expiry user.username user.password_hash plain,
          reads,
          live,
          unhex-hex user.username bytes,
          valid,
          (list_beq_iff tag tag).1 refl,
          known,
          (list_beq_iff frag frag).1 refl,
        )
        refl

  accepted_user :
      (name frag found : List ℕ) (o : Option Account)
      → check_user hmac sha256 show_hex read_hex is_utf8 name frag o ≡ some found
      → (user : Account) × (o ≡ some user)
        × (frag ≡ pw_fragment hmac sha256 show_hex user.password_hash)
        × (name ≡ found)
  accepted_user name frag found none h = absurd (ground arith)
  accepted_user name frag found (some user) h =
      let held = pw_fragment hmac sha256 show_hex user.password_hash in
      elim (Bool-cases (frag == held)) [
        | inr e ↦ absurd (ground arith)
        | inl e ↦ (user, refl, (list_beq_iff frag held).0 e, ground arith)
      ]

  accepted_name :
      (expiry : ℕ) (frag tag found : List ℕ) (users : List Account) (o : Option (List ℕ))
      → check_name hmac sha256 show_hex read_hex is_utf8 expiry frag tag users o ≡ some found
      → (user : Account) × (frag ≡ pw_fragment hmac sha256 show_hex user.password_hash)
        × (tag ≡ tag_of hmac sha256 show_hex expiry found frag)
        × (o ≡ some found)
        × (find_user found users ≡ some user)
  accepted_name expiry frag tag found users none h = absurd (ground arith)
  accepted_name expiry frag tag found users (some name) h =
      let signed = tag_of hmac sha256 show_hex expiry name frag in
      elim (Bool-cases (is_utf8 name)) [
        | inr e ↦ absurd (ground arith)
        | inl e ↦ elim (Bool-cases (tag == signed)) [
          | inr f ↦ absurd (ground arith)
          | inl f ↦
              let (user, known, held, same) =
                accepted_user name frag found (find_user name users) (ground arith) in
              (
                user,
                held,
                subst (λ n. tag ≡ tag_of hmac sha256 show_hex expiry n frag) same
                    ((list_beq_iff tag signed).0 f),
                ap (λ n. some n) same,
                subst (λ n. find_user n users ≡ some user) same known,
              )
        ]
      ]

  accepted_expiry :
      (now : ℕ) (name frag tag found : List ℕ) (users : List Account) (o : Option ℕ)
      → check_expiry hmac sha256 show_hex read_hex is_utf8 now name frag tag users o ≡ some found
      → (expiry : ℕ) × (user : Account) × (frag
          ≡ pw_fragment hmac sha256 show_hex user.password_hash)
        × (tag ≡ tag_of hmac sha256 show_hex expiry found frag)
        × (o ≡ some expiry)
        × (now ≤ expiry)
        × (unhex name ≡ some found)
        × (find_user found users ≡ some user)
  accepted_expiry now name frag tag found users none h = absurd (ground arith)
  accepted_expiry now name frag tag found users (some expiry) h =
      elim (Bool-cases (ltb expiry now)) [
        | inl e ↦ absurd (ground arith)
        | inr e ↦
            let (user, held, signed, read, known) =
              accepted_name expiry frag tag found users (unhex name) (ground arith) in
            (expiry, user, held, signed, refl, ground arith, read, known)
      ]

  -- What a list of parts has to be.
  abbrev Accepted : ℕ → List Account → List (List ℕ) → List ℕ → Type 0
  Accepted now users parts name =
      (time : List ℕ) × (written : List ℕ) × (expiry : ℕ) × (user : Account) × (parts
        ≡ time
          ∷ written
          ∷ pw_fragment hmac sha256 show_hex user.password_hash
          ∷ tag_of hmac sha256 show_hex expiry name
              (pw_fragment hmac sha256 show_hex user.password_hash)
          ∷ [])
      × (read_hex time ≡ some expiry)
      × (now ≤ expiry)
      × (unhex written ≡ some name)
      × (find_user name users ≡ some user)

  Accepted-parts :
      (now : ℕ) (users : List Account) (parts : List (List ℕ)) (found : List ℕ)
      → check_parts hmac sha256 show_hex read_hex is_utf8 now users parts ≡ some found
      → Accepted now users parts found
  Accepted-parts now users (time ∷ name ∷ frag ∷ tag ∷ []) found h =
      let (expiry, user, held, signed, read, live, decoded, known) =
        accepted_expiry now name frag tag found users (read_hex time) h in
      (
        time,
        name,
        expiry,
        user,
        ap (λ t. time ∷ name ∷ frag ∷ t ∷ []) signed
            ∙ ap (λ f. time ∷ name ∷ f ∷ tag_of hmac sha256 show_hex expiry found f ∷ []) held,
        read,
        live,
        decoded,
        known,
      )
  Accepted-parts now users [] found h = absurd (ground arith)
  Accepted-parts now users (a ∷ []) found h = absurd (ground arith)
  Accepted-parts now users (a ∷ b ∷ []) found h = absurd (ground arith)
  Accepted-parts now users (a ∷ b ∷ c ∷ []) found h = absurd (ground arith)
  Accepted-parts now users (a ∷ b ∷ c ∷ d ∷ e ∷ more) found h = absurd (ground arith)

  -- What `verify_session` accepts as a user is a token of four parts: an expiry that has not passed, the
  -- user's name, the fragment of the password hash that the store has for that user now, and the tag
  -- of exactly these three.
  pub verify_session-accepted :
      (now : ℕ) (token name : List ℕ) (users : List Account)
      → verify_session hmac sha256 show_hex read_hex is_utf8 now token users ≡ some name
      → (time : List ℕ) × (written : List ℕ) × (expiry : ℕ) × (user : Account) × (split_dots token
          ≡ time
            ∷ written
            ∷ pw_fragment hmac sha256 show_hex user.password_hash
            ∷ tag_of hmac sha256 show_hex expiry name
                (pw_fragment hmac sha256 show_hex user.password_hash)
            ∷ [])
        × (read_hex time ≡ some expiry)
        × (now ≤ expiry)
        × (unhex written ≡ some name)
        × (find_user name users ≡ some user)
  unfolding verify_session
  verify_session-accepted now token name users h =
      Accepted-parts now users (split_dots token) name h
