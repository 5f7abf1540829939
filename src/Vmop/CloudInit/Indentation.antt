-- ===== src/Vmop/CloudInit/Indentation.antt =====
-- `addIndentation`: the lines of a text that is put into a YAML block.
use Prim.Native.Char.{Char}
use Prim.Native.String.{◌++◌}
use text.Mathlib.TextLemmas.{nil-append, cons-append, append_assoc}
use ray_on_vcf.Prelude.{
  ℕ, zero, suc, ◌≡◌, refl, sym, ◌∙◌, ap, inl, inr, false, String, List, [], ◌∷◌, arith, map,
  Bool-cases,
}
use ray_on_vcf.Go.Format.{concat, spaces, split_after, prepend, is_newline}
use ray_on_vcf.Vmop.CloudInit.{add_indentation}

abbrev pub indent : ℕ → String → String
indent n piece = spaces n ++ piece

single : (c : Char) (t : String) → String.◌∷◌ c "" ++ t ≡ String.◌∷◌ c t
single c t = cons-append c "" t ∙ ap (λ u. String.◌∷◌ c u) (nil-append t)

indent_none : (xs : List String) → map (indent 0) xs ≡ xs
unfolding spaces
indent_none [] = refl
indent_none (x ∷ xs) = rw (nil-append x, indent_none xs) refl

concat-prepend : (c : Char) (xs : List String) → concat (prepend c xs) ≡ String.◌∷◌ c (concat xs)
unfolding concat prepend
concat-prepend c [] = single c ""
concat-prepend c (x ∷ xs) = cons-append c x (concat xs)

-- The pieces of a text make up the text.
concat-split_after : (s : String) → concat (split_after s) ≡ s
unfolding split_after concat
concat-split_after String.[] = nil-append ""
concat-split_after (String.◌∷◌ c s) =
    let rest = ap (λ t. String.◌∷◌ c t) (concat-split_after s) in
    elim (Bool-cases (is_newline c)) [
      | inl h ↦ rw h (single c (concat (split_after s)) ∙ rest)
      | inr h ↦ rw h (concat-prepend c (split_after s) ∙ rest)
    ]

not_empty : (s : String) → (x : String) × (xs : List String) × (split_after s ≡ x ∷ xs)
unfolding split_after prepend
not_empty String.[] = ("", [], refl)
not_empty (String.◌∷◌ c s) = elim (Bool-cases (is_newline c)) [
  | inl h ↦ rw h (String.◌∷◌ c "", split_after s, refl)
  | inr h ↦ let (x, xs, e) = not_empty s in rw h (String.◌∷◌ c x, xs, rw e refl)
]

split_after-spaces :
    (n : ℕ) (t x : String) (xs : List String)
    → split_after t ≡ x ∷ xs
    → split_after (indent n t) ≡ indent n x ∷ xs
unfolding spaces split_after prepend
split_after-spaces zero t x xs h = rw (nil-append t, nil-append x) h
split_after-spaces (suc n) t x xs h =
    rw (cons-append " " (spaces n) t, cons-append " " (spaces n) x, split_after-spaces n t x xs h)
      refl

-- The first piece and then the indented others, split again.
abbrev IsSplit : ℕ → List String → Type 0
IsSplit n [] = Unit
IsSplit n (x ∷ xs) = split_after (x ++ concat (map (indent n) xs)) ≡ x ∷ map (indent n) xs

all_indented :
    (n : ℕ) (xs : List String) (x : String) (ys : List String)
    → xs ≡ x ∷ ys
    → IsSplit n xs
    → split_after (concat (map (indent n) xs)) ≡ map (indent n) xs
unfolding concat
all_indented n [] x ys h p = cc h
all_indented n (x ∷ xs) _ _ h p =
    rw (append_assoc (spaces n) x (concat (map (indent n) xs)))
      (split_after-spaces n (x ++ concat (map (indent n) xs)) x (map (indent n) xs) p)

prepend-IsSplit :
    (n : ℕ) (c : Char) (xs : List String) (x : String) (ys : List String)
    → xs ≡ x ∷ ys
    → is_newline c ≡ false
    → IsSplit n xs
    → IsSplit n (prepend c xs)
unfolding split_after prepend concat
prepend-IsSplit n c [] x ys h q p = cc h
prepend-IsSplit n c (x ∷ xs) _ _ h q p =
    rw (cons-append c x (concat (map (indent n) xs)), q, p) refl

split_after-IsSplit : (n : ℕ) (s : String) → IsSplit n (split_after s)
unfolding split_after concat
split_after-IsSplit n String.[] = rw (nil-append "") refl
split_after-IsSplit n (String.◌∷◌ c s) =
    let (y, ys, e) = not_empty s in
    let again = split_after-IsSplit n s in
    elim (Bool-cases (is_newline c)) [
      | inl p ↦
          rw
            (
              p,
              single c (concat (map (indent n) (split_after s))),
              p,
              all_indented n (split_after s) y ys e again,
            )
            refl
      | inr p ↦ rw p (prepend-IsSplit n c (split_after s) y ys e p again)
    ]

indents : (s : String) (n : ℕ) → add_indentation s n ≡ concat (map (indent n) (split_after s))
unfolding add_indentation spaces
indents s zero = sym (concat-split_after s) ∙ ap concat (sym (indent_none (split_after s)))
indents s (suc n) = ground arith

-- The lines of an indented text are those of the text, each with the spaces in front of it; and
-- the lines of a text make up the text.
pub split_after-add_indentation :
    (s : String) (n : ℕ)
    → (split_after (add_indentation s n) ≡ map (indent n) (split_after s))
      × (concat (split_after s) ≡ s)
split_after-add_indentation s n =
    let (y, ys, e) = not_empty s in
    (
      ap split_after (indents s n)
          ∙ all_indented n (split_after s) y ys e (split_after-IsSplit n s),
      concat-split_after s,
    )
