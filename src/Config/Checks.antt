-- ===== src/Config/Checks.antt =====
-- When the single checks of `validate` pass, that of a stored locale among them.
use open_proxy.Common.{
  ℕ, ◌≤◌, ◌<◌, String, ◌≡◌, refl, sym, ◌∙◌, ap, subst, ◌↔◌, ◌⊎◌, inl, inr, Bool, true, false, ◌&&◌,
  ◌||◌, leb, nat_eq, ◌==◌, string_eq, ok, contains, arith, ltb, ltb→lt, lt→ltb, leb→le,
  Result-cases,
}
use open_proxy.Config.Text.{within, all_chars}
use open_proxy.Config.Chars.{trim, trim_start, trim_end, split, map_chars, ascii}
use open_proxy.Config.Locale.{
  installed_locale, canonical_locale, canonical_language, canonical_script, canonical_region,
}
use open_proxy.Config.Verdict.{Rejection, Passes, require, require-Passes, then_iff, ◌and◌, ◌>>◌}
use open_proxy.Config.Validate.{validate_stored_locale, installed, stored}

pub both : {A B C D : Type 0} → (A ↔ B) → (C ↔ D) → (A and C) ↔ (B and D)
both p q = (λ h. (p.0 h.0, q.0 h.1), λ h. (p.1 h.0, q.1 h.1))

pub same : {P : Type 0} → P ↔ P
same = (λ h. h, λ h. h)

pub require_iff :
    {A : Type 0} (t : Bool) (e : Rejection) → ((t ≡ true) ↔ A) → Passes (require t e) ↔ A
require_iff t e h =
    let passes = require-Passes t e in (λ p. h.0 (passes.0 p), λ a. passes.1 (h.1 a))

pub at_least : (a b : ℕ) (e : Rejection) → Passes (require (ltb a b) e) ↔ (a < b)
at_least a b e = require_iff (ltb a b) e (ltb→lt a b, lt→ltb a b)

english : Passes (validate_stored_locale "en-US")
unfolding validate_stored_locale stored installed installed_locale canonical_locale
    canonical_language canonical_script canonical_region all_chars trim trim_start trim_end split
    map_chars ascii contains require ◌>>◌
english = refl

installed_here :
    (canonical : String)
    → canonical_locale canonical ≡ ok canonical
    → Passes (installed (installed_locale canonical))
    → canonical ≡ "en-US"
unfolding installed installed_locale contains
installed_here canonical q = rw q λ h. ground (arith, string_eq.beq_iff "en-US" canonical)

accepted : (locale : String) → Passes (validate_stored_locale locale) → locale ≡ "en-US"
unfolding validate_stored_locale stored ◌>>◌
accepted locale = elim (Result-cases (canonical_locale locale)) [
  | inl (e, q) ↦ rw q λ h. absurd (cc)
  | inr (canonical, q) ↦ rw q λ h.
      let (spelled, here) =
        (then_iff _ _ (require-Passes (canonical == locale) _) (λ p. p, λ p. p)).0 h in
      let same : canonical ≡ locale = (string_eq.beq_iff canonical locale).0 spelled in
      sym same ∙ installed_here canonical (ap canonical_locale same ∙ q) here
]

pub at_most : (a b : ℕ) (e : Rejection) → Passes (require (leb a b) e) ↔ (a ≤ b)
at_most a b e = require_iff (leb a b) e (leb→le a b, λ h. ground arith)

pub between :
    (a b n : ℕ) (e : Rejection) → Passes (require (within a b n) e) ↔ ((a ≤ n) and (n ≤ b))
between a b n e = require_iff (within a b n) e (ground arith)

-- A stored locale is the spelling of the one that is installed.
pub validate_stored_locale_lem :
    (locale : String) → Passes (validate_stored_locale locale) ↔ (locale ≡ "en-US")
validate_stored_locale_lem locale =
    (accepted locale, λ q. subst (λ l. Passes (validate_stored_locale l)) (sym q) english)

pub and_true :
    {P Q : Type 0} (a b : Bool)
    → ((a ≡ true) ↔ P)
    → ((b ≡ true) ↔ Q)
    → ((a && b) ≡ true) ↔ (P and Q)
and_true true true p q = (λ h. (p.0 refl, q.0 refl), λ h. refl)
and_true true false p q = (λ h. cc, λ h. q.1 h.1)
and_true false b p q = (λ h. cc, λ h. p.1 h.0)

pub or_true :
    {P Q : Type 0} (a b : Bool) → ((a ≡ true) ↔ P) → ((b ≡ true) ↔ Q) → ((a || b) ≡ true) ↔ (P ⊎ Q)
or_true true b p q = (λ h. inl (p.0 refl), λ h. refl)
or_true false b p q =
    (λ h. inr (q.0 h), λ h. elim h [ inl x ↦ (let y = p.1 x in absurd (cc)) | inr y ↦ q.1 y ])
