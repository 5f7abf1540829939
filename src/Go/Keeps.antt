-- ===== src/Go/Keeps.antt =====
-- Calls that keep a property of the state, whether they succeed or fail.
use ray_on_vcf.Prelude.{sym, subst, inl, inr, Bool, true, false}
use ray_on_vcf.Go.{
  Error, Exec, pure, fail, attempt, on_error, ◌>>=◌, when◌then◌else◌, Result-cases, bind-ok,
  bind-err,
}

pub record Keeps {ℓ} {S A : Type ℓ} (P : S → Type ℓ) (m : Exec S A) : Type ℓ where
  pub kept : (s : S) → P s → P (m s).1

module _ {ℓ} {S A : Type ℓ} (P : S → Type ℓ) where
  pub pure-Keeps : (a : A) → Keeps P (pure a)
  pure-Keeps a = record { kept = λ s p. p }

  pub fail-Keeps : (e : Error) → Keeps P (fail {A = A} e)
  fail-Keeps e = record { kept = λ s p. p }

  pub when-Keeps :
      (b : Bool) (m n : Exec S A) → Keeps P m → Keeps P n → Keeps P (when b then m else n)
  when-Keeps true m n km kn = record { kept = km.kept }
  when-Keeps false m n km kn = record { kept = kn.kept }

  pub attempt-Keeps : (m : Exec S A) → Keeps P m → Keeps P (attempt m)
  attempt-Keeps m km = record { kept = km.kept }

module _ {ℓ} {S A B : Type ℓ} (P : S → Type ℓ) where
  pub bind-Keeps :
      (m : Exec S A) (f : A → Exec S B) → Keeps P m → ((a : A) → Keeps P (f a)) → Keeps P (m >>= f)
  bind-Keeps m f km kf = record {
    kept = λ s p. elim (Result-cases (m s).0) [
      | inl (a, h) ↦
          subst (λ out. P out.1) (sym (bind-ok m f s a h)) ((kf a).kept (m s).1 (km.kept s p))
      | inr (e, h) ↦ subst (λ out. P out.1) (sym (bind-err m f s e h)) (km.kept s p)
    ];
  }

-- With a handler that keeps the property too.
pub on_error-Keeps {ℓ} :
    {S A : Type ℓ} (P : S → Type ℓ) (m : Exec S A) (h : Error → Exec S Unit)
    → Keeps P m
    → ((e : Error) → Keeps P (h e))
    → Keeps P (on_error m h)
on_error-Keeps P m h km kh = record {
  kept = λ s p. elim (Result-cases (m s).0) [
    | inl (a, q) ↦ rw (q, on_error) (km.kept s p)
    | inr (e, q) ↦ rw (q, on_error) ((kh e).kept (m s).1 (km.kept s p))
  ];
}
