-- ===== src/Api/Regex/Names.antt =====
-- The language of `nameRegex`, character by character.
use ray_on_vcf.Prelude.{
  ℕ, ◌≡◌, ◌↔◌, refl, ap, ◌∙◌, Bool, true, false, ◌&&◌, List, [], ◌∷◌, ◌++◌, arith, inl, inr,
}
use ray_on_vcf.Api.Regex.{
  class, in_class, accepts, name_regex, name_tail, lower, lower_digit, dash_lower_digit,
}
use ray_on_vcf.Api.Regex.Language.{Parts, Matches, accepts_iff}

-- Behind the first character: letters, digits and dashes, with no dash at the end.
abbrev pub is_name_tail : List ℕ → Bool
is_name_tail [] = true
is_name_tail (c ∷ []) = in_class c lower_digit
is_name_tail (c ∷ d ∷ s) = in_class c dash_lower_digit && is_name_tail (d ∷ s)

-- A lower-case letter, and then such a tail.
abbrev pub is_name : List ℕ → Bool
is_name [] = false
is_name (c ∷ s) = in_class c lower && is_name_tail s

is_name_tail-cons :
    (d c : ℕ) (v : List ℕ)
    → in_class d dash_lower_digit ≡ true
    → is_name_tail (v ++ c ∷ []) ≡ true
    → is_name_tail (d ∷ (v ++ c ∷ [])) ≡ true
is_name_tail-cons d c [] k h = ground arith
is_name_tail-cons d c (x ∷ v) k h = ground arith

is_name_tail-append :
    (c : ℕ) {u : List ℕ} (t : List ℕ)
    → Parts (Matches (class dash_lower_digit)) u
    → in_class c lower_digit ≡ true
    → t ≡ u ++ c ∷ []
    → is_name_tail t ≡ true
is_name_tail-append c t (Parts.none_left e) h p = rw (p, e) h
is_name_tail-append c t (Parts.part u v (d, k, q) m e) h p =
    rw (p, e, q) (is_name_tail-cons d c v k (is_name_tail-append c (v ++ c ∷ []) m h refl))

Matches-name_tail : (c : ℕ) (s : List ℕ) → is_name_tail (c ∷ s) ≡ true → Matches name_tail (c ∷ s)
Matches-name_tail c [] h = ([], c ∷ [], Parts.none_left refl, (c, h, refl), refl)
Matches-name_tail c (d ∷ s) h =
    let (u, v, parts, last, e) = Matches-name_tail d s (ground arith) in
    (c ∷ u, v, Parts.part (c ∷ []) u (c, ground arith, refl) parts refl, last, ap (λ t. c ∷ t) e)

Matches-is_name : (s : List ℕ) → Matches name_regex s → is_name s ≡ true
Matches-is_name s (u, v, (c, low, p), inl q, e) = rw (e, p, q) (ground arith)
Matches-is_name s (u, v, (c, low, p), inr (x, y, parts, (d, ld, q), f), e) =
    let tail = is_name_tail-append d v parts ld (f ∙ ap (λ t. x ++ t) q) in rw (e, p) (ground arith)

is_name-Matches : (s : List ℕ) → is_name s ≡ true → Matches name_regex s
is_name-Matches [] h = cc
is_name-Matches (c ∷ []) h = (c ∷ [], [], (c, ground arith, refl), inl refl, refl)
is_name-Matches (c ∷ d ∷ s) h =
    (c ∷ [], d ∷ s, (c, ground arith, refl), inr (Matches-name_tail d s (ground arith)), refl)

-- `nameRegex` accepts exactly the texts of lower-case letters, digits and dashes that begin with a
-- letter and do not end with a dash.
pub name_regex_iff : (s : List ℕ) → (accepts name_regex s ≡ true) ↔ (is_name s ≡ true)
name_regex_iff s =
    let (sound, complete) = accepts_iff name_regex s in
    (λ h. Matches-is_name s (sound h), λ h. complete (is_name-Matches s h))
