-- ===== src/Api/Regex.antt =====
-- The regular expressions of vmray-cluster-operator/api/v1alpha1/vmraycluster_webhook.go, matched
-- by derivatives. A text is its code points; `^` and `$` say that all of it has to match.
pub mod Language
pub mod Names
use Prim.Native.Char.{code}
use ray_on_vcf.Prelude.{ℕ, String, Bool, true, false, ◌&&◌, ◌||◌, List, [], ◌∷◌, leb, if◌then◌else◌}

-- A class of characters is a list of ranges.
abbrev pub Class : Type 0
Class = List (ℕ × ℕ)

pub in_class : ℕ → Class → Bool
in_class c [] = false
in_class c ((lo, hi) ∷ ranges) = (leb lo c && leb c hi) || in_class c ranges

pub data Regex : Type 0 where
  never empty : Regex
  class : Class → Regex
  seq alt : Regex → Regex → Regex
  star : Regex → Regex

-- `e?`
abbrev pub optional : Regex → Regex
optional r = alt empty r

-- Does the expression match the empty text?
pub nullable : Regex → Bool
nullable never = false
nullable empty = true
nullable (class k) = false
nullable (seq a b) = nullable a && nullable b
nullable (alt a b) = nullable a || nullable b
nullable (star a) = true

-- What has to match behind a first character `c`.
pub deriv : ℕ → Regex → Regex
unfolding nullable in_class
deriv c never = never
deriv c empty = never
deriv c (class k) = if in_class c k then empty else never
deriv c (seq a b) =
    let first = seq (deriv c a) b in
    let second = deriv c b in if nullable a then alt first second else first
deriv c (alt a b) = alt (deriv c a) (deriv c b)
deriv c (star a) = seq (deriv c a) (star a)

pub accepts : Regex → List ℕ → Bool
unfolding deriv
accepts r [] = nullable r
accepts r (c ∷ s) = accepts (deriv c r) s

pub codes : String → List ℕ
codes String.[] = []
codes (String.◌∷◌ c s) = code c ∷ codes s

-- `MatchString`
unfoldable pub match_string : Regex → String → Bool
unfolding accepts codes
match_string r s = accepts r (codes s)

abbrev pub lower : Class
lower = (b'a', b'z') ∷ []

abbrev pub lower_digit : Class
lower_digit = (b'a', b'z') ∷ (b'0', b'9') ∷ []

abbrev pub dash_lower_digit : Class
dash_lower_digit = (b'-', b'-') ∷ (b'a', b'z') ∷ (b'0', b'9') ∷ []

-- `^[a-z]([-a-z0-9]*[a-z0-9])?$`
abbrev pub name_tail : Regex
name_tail = seq (star (class dash_lower_digit)) (class lower_digit)

abbrev pub name_regex : Regex
name_regex = seq (class lower) (optional name_tail)

abbrev pub letter_digit : Class
letter_digit = (b'a', b'z') ∷ (b'A', b'Z') ∷ (b'0', b'9') ∷ []

abbrev pub letter_digit_dash : Class
letter_digit_dash = (b'a', b'z') ∷ (b'A', b'Z') ∷ (b'0', b'9') ∷ (b'-', b'-') ∷ []

-- `[a-zA-Z0-9]|[a-zA-Z0-9][a-zA-Z0-9\-]*[a-zA-Z0-9]`
abbrev pub dns_label : Regex
dns_label =
    alt (class letter_digit)
      (seq (class letter_digit) (seq (star (class letter_digit_dash)) (class letter_digit)))

-- `^((label)\.)*(label)$`
abbrev pub dns_compliant_regex : Regex
dns_compliant_regex = seq (star (seq dns_label (class ((b'.', b'.') ∷ [])))) dns_label
