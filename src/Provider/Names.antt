-- ===== src/Provider/Names.antt =====
-- `GetHeadNodeName`: the nonce tells the head nodes of a cluster apart.
use Prim.Native.String.{◌++◌}
use text.Mathlib.TextLemmas.{append_cancel_left, append-nil, cons≢nil, cons-append}
use ray_on_vcf.Prelude.{
  ◌≡◌, sym, ◌∙◌, String, true, false, inl, inr, ◌==◌, Bool-cases, eq_iff, arith,
}
use ray_on_vcf.Provider.{get_head_node_name}

with_nounce :
    (c n : String) → (n == "") ≡ false → get_head_node_name c n ≡ (c ++ "-h") ++ ("-" ++ n)
unfolding get_head_node_name
with_nounce c n h = ground arith

without_nounce : (c n : String) → (n == "") ≡ true → get_head_node_name c n ≡ c ++ "-h"
unfolding get_head_node_name
without_nounce c n h = ground arith

head_of_empty : (c n m : String) → c ++ "-h" ≡ (c ++ "-h") ++ ("-" ++ m) → n ≡ m
head_of_empty c n m h =
    let e = append_cancel_left (c ++ "-h") "" ("-" ++ m) (append-nil (c ++ "-h") ∙ h) in
    absurd (cons≢nil (sym (cons-append "-" "" m) ∙ sym e))

-- Two nonces give the head node of a cluster the same name only if they are the same.
pub get_head_node_name_injective :
    (c n m : String) → get_head_node_name c n ≡ get_head_node_name c m → n ≡ m
get_head_node_name_injective c n m h = elim (Bool-cases (n == "")) [
  | inl p ↦ elim (Bool-cases (m == "")) [
    | inl q ↦ (eq_iff n "").0 p ∙ sym ((eq_iff m "").0 q)
    | inr q ↦ head_of_empty c n m (sym (without_nounce c n p) ∙ h ∙ with_nounce c m q)
  ]
  | inr p ↦ elim (Bool-cases (m == "")) [
    | inl q ↦ sym (head_of_empty c m n (sym (without_nounce c m q) ∙ sym h ∙ with_nounce c n p))
    | inr q ↦ append_cancel_left "-" n m (
        append_cancel_left (c ++ "-h") ("-" ++ n) ("-" ++ m)
          (sym (with_nounce c n p) ∙ h ∙ with_nounce c m q))
  ]
]
