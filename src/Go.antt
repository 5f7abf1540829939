-- ===== src/Go.antt =====
-- Go's conventions as the operator uses them: an `error` result, early return on it, and calls
-- that change what a pointer leads to. Errors of the API server carry the reason that
-- k8s.io/apimachinery/pkg/api/errors tests; `errorMissingKey` is that of
-- vmray-cluster-operator/pkg/provider/vmop/utils/docker_auth.go.
pub mod Keeps
pub mod Format
pub mod Text
use Prim.Native.String.{◌++◌}
use ray_on_vcf.Prelude.{
  String, ◌≡◌, refl, ◌⊎◌, inl, inr, Bool, true, false, Option, none, some, if◌then◌else◌,
}

-- The `metav1.StatusReason`s that the code tells apart.
pub data Reason : Type 0 where
  not_found already_exists unspecified : Reason

-- An `error` that is not nil: one of the API server, one made by `errors.New` or `fmt.Errorf`, or
-- an `errorMissingKey` (secret name, key).
pub data Error : Type 0 where
  status : Reason → String → Error
  plain : String → Error
  missing_key : String → String → Error

-- `err.Error()`
unfoldable pub message : Error → String
message (status r m) = m
message (plain m) = m
message (missing_key secret_name key) =
    "Failure to authenticate with registry: secret `" ++ secret_name ++ "` is missing `" ++ key
    ++ "` key"

-- `errors.IsNotFound`
abbrev pub is_not_found : Error → Bool
is_not_found (status Reason.not_found m) = true
is_not_found _ = false

-- `errors.IsAlreadyExists`
abbrev pub is_already_exists : Error → Bool
is_already_exists (status Reason.already_exists m) = true
is_already_exists _ = false

-- `client.IgnoreNotFound(err)` and `client.IgnoreAlreadyExists(err)`; `none` is nil.
abbrev pub ignore_not_found : Error → Option Error
ignore_not_found e = if is_not_found e then none else some e

abbrev pub ignore_already_exists : Error → Option Error
ignore_already_exists e = if is_already_exists e then none else some e

-- What a function with a result `(A, error)` returns: the value if the error is nil.
pub data Result {ℓ} (A : Type ℓ) : Type ℓ where
  ok : A → Result A
  err : Error → Result A

-- `err != nil`
abbrev pub is_err {ℓ} : {A : Type ℓ} → Result A → Bool
is_err (ok a) = false
is_err (err e) = true

pub Result-cases {ℓ} :
    {A : Type ℓ} (r : Result A) → ((a : A) × (r ≡ ok a)) ⊎ ((e : Error) × (r ≡ err e))
Result-cases (ok a) = inl (a, refl)
Result-cases (err e) = inr (e, refl)

-- A call that may fail and that changes a state `S`. What was written before an error stays.
abbrev pub Exec {ℓ} : Type ℓ → Type ℓ → Type ℓ
Exec S A = S → Result A × S

module _ {ℓ} {S A : Type ℓ} where
  -- `return a, nil`
  abbrev pub pure : A → Exec S A
  pure a s = (ok a, s)

  -- `return err`
  abbrev pub fail : Error → Exec S A
  fail e s = (err e, s)

  abbrev pub gets : (S → A) → Exec S A
  gets f s = (ok (f s), s)

-- An assignment.
abbrev pub modify {ℓ} : {S : Type ℓ} → (S → S) → Exec S Unit
modify f s = (ok tt, f s)

-- `err := m()` with the error inspected by what follows.
abbrev pub attempt {ℓ} : {S A : Type ℓ} → Exec S A → Exec S (Result A)
attempt m s = let (r, s') = m s in (ok r, s')

-- `a, err := m(); if err != nil { return err }` and then `f a`.
infixl 10 ◌>>=◌ ◌>>◌
abbrev pub ◌>>=◌ {ℓ} : {S A B : Type ℓ} → Exec S A → (A → Exec S B) → Exec S B
◌>>=◌ m f s = let (r, s') = m s in elim r [ ok a ↦ f a s' | err e ↦ (err e, s') ]

abbrev pub ◌>>◌ {ℓ} : {S A B : Type ℓ} → Exec S A → Exec S B → Exec S B
m >> n = m >>= λ _. n

-- A call that sees a part of the state: `get` reads the part, `put` writes it back.
abbrev pub zoom {ℓ} : {S T A : Type ℓ} → (S → T) → (T → S → S) → Exec T A → Exec S A
zoom get put m s = let (r, t) = m (get s) in (r, put t s)

-- `if b { m } else { n }` between statements.
infix 1 when◌then◌else◌
abbrev pub when◌then◌else◌ {ℓ} : {S A : Type ℓ} → Bool → Exec S A → Exec S A → Exec S A
when◌then◌else◌ b m n s = elim b [ true ↦ m s | false ↦ n s ]

-- `if err := m(); err != nil { h(err); return err }`
abbrev pub on_error {ℓ} : {S A : Type ℓ} → Exec S A → (Error → Exec S Unit) → Exec S A
on_error m h s = let (r, s') = m s in elim r [ ok a ↦ (ok a, s') | err e ↦ (err e, (h e s').1) ]

-- `if err := m(); client.IgnoreNotFound(err) != nil { return err }`
unfoldable pub ignoring_not_found {ℓ} : {S : Type ℓ} → Exec S Unit → Exec S Unit
ignoring_not_found m s =
    let (r, s') = m s in
    elim r [
      | ok _ ↦ (ok tt, s')
      | err e ↦ elim (ignore_not_found e) [ some _ ↦ (err e, s') | none ↦ (ok tt, s') ]
    ]

module _ {ℓ} {S A B : Type ℓ} (m : Exec S A) (f : A → Exec S B) (s : S) where
  -- After a call that returns a value the rest runs, in the state that the call left.
  pub bind-ok : (a : A) → (m s).0 ≡ ok a → (m >>= f) s ≡ f a (m s).1
  bind-ok a h = rw (h, ◌>>=◌)

  -- After a call that fails the rest does not run.
  pub bind-err : (e : Error) → (m s).0 ≡ err e → (m >>= f) s ≡ (err e, (m s).1)
  bind-err e h = rw (h, ◌>>=◌)

  -- A chain that returns a value got one from its first call.
  pub bind_inv :
      {b : B} → ((m >>= f) s).0 ≡ ok b → (a : A) × ((m s).0 ≡ ok a) × ((m >>= f) s ≡ f a (m s).1)
  bind_inv h = elim (Result-cases (m s).0) [
    | inl (a, p) ↦ (a, p, bind-ok a p)
    | inr (e, p) ↦ cc (bind-err e p)
  ]
