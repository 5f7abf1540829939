-- ===== src/Hook/Outcome.antt =====
-- A run of the commit hook: it returns, or ends in `log.Fatalf`, or panics.
use ray_on_vcf.Prelude.{◌≡◌, refl, String, Option, none, some}

pub data Run {ℓ} (A : Type ℓ) : Type ℓ where
  returns : A → Run A
  fatal : String → Run A
  panics : Run A

infixl 10 ◌>>=◌
abbrev pub ◌>>=◌ {ℓ κ} : {A : Type ℓ} {B : Type κ} → Run A → (A → Run B) → Run B
returns a >>= f = f a
fatal m >>= f = fatal m
panics >>= f = panics

-- A slice or an index out of range panics.
abbrev pub or_panic {ℓ} : {A : Type ℓ} → Option A → Run A
or_panic none = panics
or_panic (some a) = returns a

-- A chain that returns got a value from its first call.
pub returns_inv {ℓ κ} :
    {A : Type ℓ} {B : Type κ} (m : Run A) (f : A → Run B) {b : B}
    → (m >>= f) ≡ returns b
    → (a : A) × (m ≡ returns a) × (f a ≡ returns b)
returns_inv (returns a) f h = (a, refl, h)
returns_inv (fatal m) f h = cc
returns_inv panics f h = cc
