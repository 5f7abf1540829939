-- ===== src/Go/Format/Digits.antt =====
-- `%d` of an `int32`: ten digits are enough.
use Prim.Native.String.{◌++◌}
use ray_on_vcf.Prelude.{
  ℕ, zero, suc, ◌+◌, ◌/◌, ◌%◌, if◌then◌else◌, ◌-◌, ◌^◌, ◌<◌, ◌≡◌, refl, sym, ◌∙◌, ap, subst, String,
  ltb, arith, inl, inr, Bool-cases,
}
use ray_on_vcf.Go.Format.{ℤ, int32, show_int32, show_digits, letter_at}

-- One more step shows the front of a number first.
step :
    (fuel n : ℕ)
    → show_digits (suc fuel) n ≡ (
        if ltb n 10
        then letter_at "0123456789" (n % 10)
        else show_digits fuel (n / 10) ++ letter_at "0123456789" (n % 10))
unfolding show_digits
step fuel n = refl

small : (fuel n : ℕ) → n < 10 → show_digits (suc fuel) n ≡ letter_at "0123456789" (n % 10)
small fuel n h = ground (arith, step fuel n)

front_bound : (fuel n : ℕ) → n < 10 ^ suc (suc fuel) → n / 10 < 10 ^ suc fuel
front_bound fuel n h = omega arith

-- One digit more of fuel changes nothing once a number has no more digits than the fuel.
show_digits-suc :
    (fuel n : ℕ) → n < 10 ^ suc fuel → show_digits (suc (suc fuel)) n ≡ show_digits (suc fuel) n
show_digits-suc zero n h = small 1 n h ∙ sym (small 0 n h)
show_digits-suc (suc fuel) n h =
    step (suc (suc fuel)) n
    ∙ ap
        (λ front.
          if ltb n 10
          then letter_at "0123456789" (n % 10)
          else front ++ letter_at "0123456789" (n % 10))
        (show_digits-suc fuel (n / 10) (front_bound fuel n h))
    ∙ sym (step (suc fuel) n)

next_bound : (fuel n : ℕ) → n < 10 ^ suc fuel → n < 10 ^ suc (suc fuel)
next_bound fuel n h = omega arith

bound_more : (fuel n : ℕ) → n < 10 ^ suc fuel → (k : ℕ) → n < 10 ^ suc (k + fuel)
bound_more fuel n h zero = subst (λ (f : ℕ). n < 10 ^ suc f) (omega arith) h
bound_more fuel n h (suc k) =
    subst (λ (f : ℕ). n < 10 ^ suc f) (omega arith)
      (next_bound (k + fuel) n (bound_more fuel n h k))

show_digits-more :
    (fuel n : ℕ)
    → n < 10 ^ suc fuel
    → (k : ℕ) → show_digits (suc (k + fuel)) n ≡ show_digits (suc fuel) n
show_digits-more fuel n h zero = ap (λ (f : ℕ). show_digits (suc f) n) (omega arith)
show_digits-more fuel n h (suc k) =
    ap (λ (f : ℕ). show_digits (suc f) n) (omega arith)
    ∙ show_digits-suc (k + fuel) n (bound_more fuel n h k)
    ∙ show_digits-more fuel n h k

-- Ten digits are enough below 10^10.
pub ten_digits : (n k : ℕ) → n < 10 ^ 10 → show_digits (k + 10) n ≡ show_digits 10 n
ten_digits n k h = ap (λ (f : ℕ). show_digits f n) (omega arith) ∙ show_digits-more 9 n h k

-- `%d` with some number of digits.
abbrev pub show_with : ℕ → ℤ → String
show_with fuel (ℤ.pos n) = show_digits fuel n
show_with fuel (ℤ.negsuc n) = "-" ++ show_digits fuel (suc n)

-- The ten digits that are allowed for show every `int32` of a `uint` in full: any greater number
-- of digits gives the same text.
pub show_int32_has_fuel : (n k : ℕ) → show_with (k + 10) (int32 n) ≡ show_int32 (int32 n)
unfolding show_int32 int32
show_int32_has_fuel n k = elim (Bool-cases (ltb (n % 2 ^ 32) (2 ^ 31))) [
  | inl e ↦ rw e (ten_digits (n % 2 ^ 32) k (omega arith))
  | inr e ↦ rw e (ap (λ t. "-" ++ t) (ten_digits (suc (2 ^ 32 - 1 - n % 2 ^ 32)) k (omega arith)))
]
