-- ===== src/Config/Urls.antt =====
-- The base URLs of src/config.rs: `normalize_base_url` and `check_base_url`.
use Prim.Native.Char.{Char, code}
use Prim.Native.String.{String, [], ◌∷◌}
use open_proxy.Common.{
  Bool, not, ◌||◌, Option, none, some, if◌then◌else◌, nat_beq, ◌==◌, string_eq, is_some, err,
}
use open_proxy.Config.Text.{strip_text, trim_end_slashes}
use open_proxy.Config.Chars.{before, map_chars, lower}
use open_proxy.Config.Verdict.{Rejection, Verdict, require}

-- One step of `trim_end_matches("/v1")`: `c` before the trimmed rest.
v1_before : Char → String → String
v1_before c s = if (c ∷ s) == "/v1" then [] else c ∷ s

-- `trim_end_matches("/v1")`
unfoldable pub trim_end_v1 : String → String
unfolding v1_before
trim_end_v1 [] = []
trim_end_v1 (c ∷ s) = v1_before c (trim_end_v1 s)

-- `Upstream::normalize_base_url`
unfoldable pub normalize_base_url : String → String
normalize_base_url url = trim_end_slashes (trim_end_v1 url)

strip_scheme : String → Option String
strip_scheme base = elim (strip_text "http://" base) [
  | none ↦ strip_text "https://" base
  | some rest ↦ some rest
]

-- The host of an authority; an IPv6 literal in brackets keeps its colons.
unfoldable pub host_of : String → String
host_of [] = []
host_of (c ∷ s) = if nat_beq (code c) b'[' then before b']' s else before b':' (c ∷ s)

unfoldable pub is_link_local : String → Bool
is_link_local host = is_some (strip_text "169.254." host) || is_some (strip_text "fe80:" host)

-- `check_base_url`
unfoldable pub check_base_url : String → Verdict
unfolding strip_scheme
check_base_url base = elim (strip_scheme base) [
  | none ↦ err Rejection.no_scheme
  | some rest ↦
      require (not (is_link_local (map_chars lower (host_of (before b'/' rest)))))
        Rejection.link_local
]
