-- ===== src/Config/Chars.antt =====
-- The operations of Rust's `str` that src/config.rs, src/presentation.rs and src/settings.rs use.
use Prim.Native.Char.{Char, char, code, IsScalar}
use Prim.Native.String.{String, [], ◌∷◌}
use mathlib.Core.List.{List, [] as nil, ◌∷◌ as ◌cons◌}
use open_proxy.Common.{ℕ, ◌+◌, ◌-◌, ◌%◌, ◌<◌, Bool, ◌||◌, if◌then◌else◌, nat_beq, ltb, arith}
use open_proxy.Config.Text.{within}

-- `char::is_whitespace`
abbrev pub is_whitespace : Char → Bool
is_whitespace c =
    let n = code c in
    within 9 13 n
    || nat_beq n 32
    || nat_beq n 0x85
    || nat_beq n 0xA0
    || nat_beq n 0x1680
    || within 0x2000 0x200A n
    || within 0x2028 0x2029 n
    || nat_beq n 0x202F
    || nat_beq n 0x205F
    || nat_beq n 0x3000

-- `trim_start`
unfoldable pub trim_start : String → String
trim_start [] = []
trim_start (c ∷ s) = let rest = trim_start s in if is_whitespace c then rest else c ∷ s

-- One step of `trim_end`: `c` before the trimmed rest.
space_before : Char → String → String
space_before c [] = if is_whitespace c then [] else c ∷ []
space_before c (d ∷ s) = c ∷ (d ∷ s)

-- `trim_end`
unfoldable pub trim_end : String → String
unfolding space_before
trim_end [] = []
trim_end (c ∷ s) = space_before c (trim_end s)

-- `trim`
unfoldable pub trim : String → String
trim s = trim_end (trim_start s)

-- `is_ascii`
abbrev pub is_ascii : Char → Bool
is_ascii c = ltb (code c) 128

-- `is_ascii_alphabetic`
abbrev pub is_alphabetic : Char → Bool
is_alphabetic c = within b'A' b'Z' (code c) || within b'a' b'z' (code c)

-- `is_ascii_digit`
abbrev pub is_digit : Char → Bool
is_digit c = within b'0' b'9' (code c)

-- `is_ascii_hexdigit`
abbrev pub is_hexdigit : Char → Bool
is_hexdigit c = is_digit c || within b'A' b'F' (code c) || within b'a' b'f' (code c)

scalar_of_lt : (n : ℕ) → n < 128 → IsScalar n
scalar_of_lt n h = ground arith

-- The character of an ASCII code.
unfoldable pub ascii : ℕ → Char
unfolding scalar_of_lt
ascii n = char (n % 128) (scalar_of_lt (n % 128) (omega arith))

-- `to_ascii_lowercase`
abbrev pub lower : Char → Char
lower c = if within b'A' b'Z' (code c) then ascii (code c + 32) else c

-- `to_ascii_uppercase`
abbrev pub upper : Char → Char
upper c = if within b'a' b'z' (code c) then ascii (code c - 32) else c

unfoldable pub map_chars : (Char → Char) → String → String
map_chars f [] = []
map_chars f (c ∷ s) = f c ∷ map_chars f s

-- `c` joins the first part.
onto_first : Char → List String → List String
onto_first c nil = (c ∷ []) cons nil
onto_first c (w cons ws) = (c ∷ w) cons ws

-- `split`
unfoldable pub split : ℕ → String → List String
unfolding onto_first
split sep [] = [] cons nil
split sep (c ∷ s) =
    let rest = split sep s in if nat_beq (code c) sep then [] cons rest else onto_first c rest

-- `split(sep).next().unwrap_or("")`
unfoldable pub before : ℕ → String → String
before sep [] = []
before sep (c ∷ s) = let rest = before sep s in if nat_beq (code c) sep then [] else c ∷ rest

-- The first character in upper case.
unfoldable pub upper_first : String → String
upper_first [] = []
upper_first (c ∷ s) = upper c ∷ s
