-- ===== src/Config/Locale.antt =====
-- The locale grammar of src/presentation.rs.
use Prim.Native.String.{len, ◌++◌ as ◌then◌}
use open_proxy.Common.{
  String, Bool, true, false, not, ◌&&◌, ◌||◌, List, [], ◌∷◌, if◌then◌else◌, nat_beq, Result, err,
  ok, ◌>>=◌, contains, ◌==◌, string_eq,
}
use open_proxy.Config.Text.{is_nonempty, all_chars}
use open_proxy.Config.Chars.{
  trim, is_ascii, is_alphabetic, is_digit, lower, upper, upper_first, map_chars, split,
}

pub data LocaleError : Type 0 where
  invalid : LocaleError
  not_installed : String → LocaleError

-- The ids of `INSTALLED_LOCALES`
abbrev pub installed_locales : List String
installed_locales = "en-US" ∷ []

abbrev is_empty : List String → Bool
is_empty [] = true
is_empty (p ∷ ps) = false

-- What is left once the region, where there is one, is taken: nothing may follow it.
unfoldable pub canonical_region : String → List String → Result LocaleError String
canonical_region canonical [] = ok canonical
canonical_region canonical (region ∷ rest) =
    let alpha = nat_beq (len region) 2 && all_chars is_alphabetic region in
    let numeric = nat_beq (len region) 3 && all_chars is_digit region in
    let spelled = if alpha then map_chars upper region else region in
    if not alpha && not numeric
    then err LocaleError.invalid
    else if is_empty rest
    then ok (canonical then "-" then spelled)
    else err LocaleError.invalid

unfoldable pub canonical_script : String → List String → Result LocaleError String
canonical_script canonical [] = ok canonical
canonical_script canonical (script ∷ rest) =
    if nat_beq (len script) 4 && all_chars is_alphabetic script
    then canonical_region (canonical then "-" then upper_first (map_chars lower script)) rest
    else canonical_region canonical (script ∷ rest)

unfoldable pub canonical_language : List String → Result LocaleError String
canonical_language [] = err LocaleError.invalid
canonical_language (language ∷ rest) =
    if (nat_beq (len language) 2 || nat_beq (len language) 3) && all_chars is_alphabetic language
    then canonical_script (map_chars lower language) rest
    else err LocaleError.invalid

-- `canonical_locale`
unfoldable pub canonical_locale : String → Result LocaleError String
canonical_locale locale =
    if not (is_nonempty locale) || not (trim locale == locale) || not (all_chars is_ascii locale)
    then err LocaleError.invalid
    else canonical_language (split b'-' locale)

-- `installed_locale`
unfoldable pub installed_locale : String → Result LocaleError String
installed_locale locale = canonical_locale locale >>= λ canonical.
    if contains installed_locales canonical
    then ok canonical
    else err (LocaleError.not_installed canonical)
