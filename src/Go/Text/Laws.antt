-- ===== src/Go/Text/Laws.antt =====
-- Slices of a text that was put together.
use Prim.Native.String.{count, ◌++◌}
use text.Mathlib.TextLemmas.{nil-append, cons-append, length-cons, length-append}
use text.Mathlib.TextPositions.{eq_refl}
use ray_on_vcf.Prelude.{ℕ, ◌-◌, ◌≡◌, refl, ap, ◌∙◌, String, true, some, arith, ◌==◌}
use ray_on_vcf.Go.Text.{drop, take, drop_end, has_suffix}

pub take-append : (b t : String) → take (count b) (b ++ t) ≡ b
unfolding take
take-append String.[] t = refl
take-append (String.◌∷◌ c b) t =
    rw (cons-append c b t) (rw (length-cons c b) (ap (String.◌∷◌ c) (take-append b t)))

pub drop-append : (b t : String) → drop (count b) (b ++ t) ≡ t
unfolding drop
drop-append String.[] t = nil-append t
drop-append (String.◌∷◌ c b) t = rw (cons-append c b t) (rw (length-cons c b) (drop-append b t))

-- What was appended can be cut off again.
pub drop_end-append : (b t : String) → drop_end (count t) (b ++ t) ≡ some b
unfolding drop_end
drop_end-append b t =
    let n : count (b ++ t) - count t ≡ count b = omega (arith, length-append b t) in
    let e : take (count (b ++ t) - count t) (b ++ t) ≡ b =
      ap (λ (k : ℕ). take k (b ++ t)) n ∙ take-append b t in
    ground (arith, length-append b t)

pub has_suffix-append : (b t : String) → has_suffix (b ++ t) t ≡ true
unfolding has_suffix
has_suffix-append b t =
    let n : count (b ++ t) - count t ≡ count b = omega (arith, length-append b t) in
    let e : drop (count (b ++ t) - count t) (b ++ t) ≡ t =
      ap (λ (k : ℕ). drop k (b ++ t)) n ∙ drop-append b t in
    ground (arith, length-append b t, eq_refl t, ap (λ s. s == t) e)
