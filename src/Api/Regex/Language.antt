-- ===== src/Api/Regex/Language.antt =====
-- The matcher decides the language of an expression.
use ray_on_vcf.Prelude.{
  ℕ, ◌≡◌, ◌↔◌, ◌⊎◌, refl, sym, ap, ◌∙◌, subst, true, List, [], ◌∷◌, ◌++◌, arith, inl, inr,
  Bool-cases,
}
use ray_on_vcf.Api.Regex.{
  Regex, never, empty, class, seq, alt, star, in_class, nullable, deriv, accepts,
}

-- A text in parts that each satisfy `P`.
pub data Parts (P : List ℕ → Type 0) : List ℕ → Type 0 where
  none_left : {s : List ℕ} → s ≡ [] → Parts P s
  part : {s : List ℕ} (u v : List ℕ) → P u → Parts P v → s ≡ u ++ v → Parts P s

-- The language of an expression.
abbrev pub Matches : Regex → List ℕ → Type 0
Matches never s = ⊥
Matches empty s = s ≡ []
Matches (class k) s = (c : ℕ) × (in_class c k ≡ true) × (s ≡ c ∷ [])
Matches (seq a b) s = (u : List ℕ) × (v : List ℕ) × Matches a u × Matches b v × (s ≡ u ++ v)
Matches (alt a b) s = Matches a s ⊎ Matches b s
Matches (star a) s = Parts (Matches a) s

nullable_sound : (r : Regex) → nullable r ≡ true → Matches r []
unfolding nullable
nullable_sound never h = cc
nullable_sound empty h = refl
nullable_sound (class k) h = cc
nullable_sound (seq a b) h =
    ([], [], nullable_sound a (ground arith), nullable_sound b (ground arith), refl)
nullable_sound (alt a b) h = elim (Bool-cases (nullable a)) [
  | inl l ↦ inl (nullable_sound a l)
  | inr l ↦ inr (nullable_sound b (ground arith))
]
nullable_sound (star a) h = Parts.none_left refl

nullable_complete : (r : Regex) (s : List ℕ) → s ≡ [] → Matches r s → nullable r ≡ true
unfolding nullable
nullable_complete never s e m = absurd m
nullable_complete empty s e m = refl
nullable_complete (class k) s e (c, h, p) = cc
nullable_complete (seq a b) s e ([], v, m, n, p) =
    ground (arith, nullable_complete a [] refl m, nullable_complete b v (sym p ∙ e) n)
nullable_complete (seq a b) s e (x ∷ u, v, m, n, p) = cc
nullable_complete (alt a b) s e (inl m) = ground (arith, nullable_complete a s e m)
nullable_complete (alt a b) s e (inr m) = ground (arith, nullable_complete b s e m)
nullable_complete (star a) s e m = refl

-- What the derivative matches is what the expression matches behind the character.
deriv_sound : (c : ℕ) (r : Regex) (s : List ℕ) → Matches (deriv c r) s → Matches r (c ∷ s)
unfolding deriv
deriv_sound c never s m = m
deriv_sound c empty s m = absurd m
deriv_sound c (class k) s m = elim (Bool-cases (in_class c k)) [
  | inl h ↦ (c, h, ap (λ t. c ∷ t) (rw h at m))
  | inr h ↦ absurd (rw h at m)
]
deriv_sound c (seq a b) s m = elim (Bool-cases (nullable a)) [
  | inl h ↦ elim (rw h at m) [
    | inl (u, v, x, y, e) ↦ (c ∷ u, v, deriv_sound c a u x, y, ap (λ t. c ∷ t) e)
    | inr y ↦ ([], c ∷ s, nullable_sound a h, deriv_sound c b s y, refl)
  ]
  | inr h ↦ let (u, v, x, y, e) = rw h at m in (c ∷ u, v, deriv_sound c a u x, y, ap (λ t. c ∷ t) e)
]
deriv_sound c (alt a b) s (inl m) = inl (deriv_sound c a s m)
deriv_sound c (alt a b) s (inr m) = inr (deriv_sound c b s m)
deriv_sound c (star a) s (u, v, m, n, e) =
    Parts.part (c ∷ u) v (deriv_sound c a u m) n (ap (λ t. c ∷ t) e)

first_eq : {d c : ℕ} {u s : List ℕ} → d ∷ u ≡ c ∷ s → d ≡ c
first_eq p = cc

rest_eq : {d c : ℕ} {u s : List ℕ} → d ∷ u ≡ c ∷ s → s ≡ u
rest_eq p = cc

deriv_complete :
    (c : ℕ) (r : Regex) (s t : List ℕ) → t ≡ c ∷ s → Matches r t → Matches (deriv c r) s
unfolding deriv
deriv_complete c never s t p m = m
deriv_complete c empty s t p m = cc
deriv_complete c (class k) s t p (d, h, e) =
    let q : d ∷ [] ≡ c ∷ s = sym e ∙ p in
    rw (subst (λ x. in_class x k ≡ true) (first_eq q) h) (rest_eq q)
deriv_complete c (seq a b) s t p ([], v, x, y, e) =
    rw (nullable_complete a [] refl x) (inr (deriv_complete c b s v (sym e ∙ p) y))
deriv_complete c (seq a b) s t p (d ∷ u, v, x, y, e) =
    let q : d ∷ (u ++ v) ≡ c ∷ s = sym e ∙ p in
    let x' = deriv_complete c a u (d ∷ u) (ap (λ z. z ∷ u) (first_eq q)) x in
    elim (Bool-cases (nullable a)) [
      | inl h ↦ rw h (inl (u, v, x', y, rest_eq q))
      | inr h ↦ rw h (u, v, x', y, rest_eq q)
    ]
deriv_complete c (alt a b) s t p (inl m) = inl (deriv_complete c a s t p m)
deriv_complete c (alt a b) s t p (inr m) = inr (deriv_complete c b s t p m)
deriv_complete c (star a) s t p (Parts.none_left e) = cc
deriv_complete c (star a) s t p (Parts.part [] v x y e) =
    deriv_complete c (star a) s v (sym e ∙ p) y
deriv_complete c (star a) s t p (Parts.part (d ∷ u) v x y e) =
    let q : d ∷ (u ++ v) ≡ c ∷ s = sym e ∙ p in
    (u, v, deriv_complete c a u (d ∷ u) (ap (λ z. z ∷ u) (first_eq q)) x, y, rest_eq q)

-- The matcher accepts exactly the texts of the expression's language.
pub accepts_iff : (r : Regex) (s : List ℕ) → (accepts r s ≡ true) ↔ Matches r s
unfolding accepts
accepts_iff r [] = (nullable_sound r, nullable_complete r [] refl)
accepts_iff r (c ∷ s) =
    let (sound, complete) = accepts_iff (deriv c r) s in
    (λ h. deriv_sound c r s (sound h), λ m. complete (deriv_complete c r s (c ∷ s) refl m))
