-- ===== src/Config/Text.antt =====
-- The text operations of src/config.rs, on strings as sequences of characters.
use Prim.Native.Char.{Char, code}
use Prim.Native.String.{String, [], ◌∷◌, len}
use open_proxy.Common.{
  Option, none, some, ℕ, Bool, true, false, ◌&&◌, ◌||◌, if◌then◌else◌, nat_beq, leb,
}

-- One step of `trim_end_matches('/')`: `c` before the trimmed rest.
slash_before : Char → String → String
slash_before c [] = if nat_beq (code c) b'/' then [] else c ∷ []
slash_before c (d ∷ s) = c ∷ (d ∷ s)

-- `trim_end_matches('/')`
unfoldable pub trim_end_slashes : String → String
unfolding slash_before
trim_end_slashes [] = []
trim_end_slashes (c ∷ s) = slash_before c (trim_end_slashes s)

abbrev pub within : ℕ → ℕ → ℕ → Bool
within low high n = leb low n && leb n high

-- `is_ascii_alphanumeric`
abbrev pub is_ascii_alphanumeric : Char → Bool
is_ascii_alphanumeric c =
    within b'0' b'9' (code c) || (within b'A' b'Z' (code c) || within b'a' b'z' (code c))

abbrev pub is_label_char : Char → Bool
is_label_char c =
    is_ascii_alphanumeric c
    || (nat_beq (code c) b'.' || (nat_beq (code c) b'_' || nat_beq (code c) b'-'))

abbrev pub is_model_char : Char → Bool
is_model_char c = is_label_char c || (nat_beq (code c) b'/' || nat_beq (code c) b':')

unfoldable pub all_chars : (Char → Bool) → String → Bool
all_chars p [] = true
all_chars p (c ∷ s) = p c && all_chars p s

abbrev pub is_nonempty : String → Bool
is_nonempty [] = false
is_nonempty (c ∷ s) = true

-- `label_ok`
unfoldable pub label_ok : String → ℕ → Bool
label_ok s longest = is_nonempty s && (leb (len s) longest && all_chars is_label_char s)

-- `valid_model_id`
unfoldable pub valid_model_id : String → Bool
valid_model_id s = is_nonempty s && (leb (len s) 128 && all_chars is_model_char s)

-- `strip_prefix`
unfoldable pub strip_text : String → String → Option String
strip_text [] s = some s
strip_text (p ∷ ps) [] = none
strip_text (p ∷ ps) (c ∷ s) =
    let rest = strip_text ps s in if nat_beq (code p) (code c) then rest else none
