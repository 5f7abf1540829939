-- ===== src/Vmop/Deletion.antt =====
-- The deletion of one object that may be missing.
use ray_on_vcf.Prelude.{◌≡◌, sym, ◌∙◌, ap, inl, inr, true, false, [], ◌∷◌, arith}
use ray_on_vcf.Prelude.{Bool-cases}
use ray_on_vcf.Go.{ignoring_not_found, Error, ok, err, Result-cases, is_not_found}
use ray_on_vcf.Kube.{ObjectKey, Resource, Client}
use ray_on_vcf.Vmop.Rbac.{delete_if_found}
use ray_on_vcf.Vmop.Server.{Thing, Missing, IsMissing, IsGone, Deletes, Achieves}

module _ {W O : Type 0} (client : Client W) (settle : W → W) (resource : Resource W O)
    (law : Deletes client settle resource) where
  -- The three outcomes of a deletion.
  deletes_found :
      (k : ObjectKey) (w : W) (o : O)
      → (resource.get k w).0 ≡ ok o
      → delete_if_found resource k w ≡ resource.delete o w
  unfolding delete_if_found
  deletes_found k w o e = ground (arith, law.reads k w)

  deletes_nothing :
      (k : ObjectKey) (w : W) (x : Error)
      → (resource.get k w).0 ≡ err x
      → is_not_found x ≡ true
      → delete_if_found resource k w ≡ (ok tt, w)
  unfolding delete_if_found
  deletes_nothing k w x e p = ground (arith, law.reads k w)

  deletes_fails :
      (k : ObjectKey) (w : W) (x : Error)
      → (resource.get k w).0 ≡ err x
      → is_not_found x ≡ false
      → delete_if_found resource k w ≡ (err x, w)
  unfolding delete_if_found
  deletes_fails k w x e p = ground (arith, law.reads k w)

  -- The object is missing after a deletion that succeeded.
  delete_if_found-Missing :
      (k : ObjectKey) (w : W)
      → (delete_if_found resource k w).0 ≡ ok tt
      → Missing resource k (settle (delete_if_found resource k w).1)
  delete_if_found-Missing k w h = elim (Result-cases (resource.get k w).0) [
    | inl (o, e) ↦
        let q = deletes_found k w o e in rw q (law.deleted k o w e (sym (ap (λ r. r.0) q) ∙ h))
    | inr (x, e) ↦ elim (Bool-cases (is_not_found x)) [
      | inl p ↦
          let q = deletes_nothing k w x e p in rw q (law.missing k w (x, cc (e, law.reads k w), p))
      | inr p ↦ cc (deletes_fails k w x e p, h)
    ]
  ]

  delete_if_found-kept :
      (k : ObjectKey) (t : Thing) (w : W)
      → IsGone client settle t w
      → IsGone client settle t (delete_if_found resource k w).1
  delete_if_found-kept k t w m = elim (Result-cases (resource.get k w).0) [
    | inl (o, e) ↦ rw (deletes_found k w o e) ((law.keeps t o).kept w m)
    | inr (x, e) ↦ elim (Bool-cases (is_not_found x)) [
      | inl p ↦ rw (deletes_nothing k w x e p) m
      | inr p ↦ rw (deletes_fails k w x e p) m
    ]
  ]

  -- A deletion achieves that its object is missing.
  pub delete_if_found-Achieves :
      (k : ObjectKey) (t : Thing)
      → ((w : W) → Missing resource k w → IsMissing client t w)
      → Achieves (IsGone client settle) (t ∷ []) (delete_if_found resource k)
  delete_if_found-Achieves k t f = record {
    achieved = λ w h. (f _ (delete_if_found-Missing k w h), tt);
    kept = λ u. record { kept = delete_if_found-kept k u };
  }

  ignoring-Missing :
      (k : ObjectKey) (w : W)
      → (ignoring_not_found (delete_if_found resource k) w).0 ≡ ok tt
      → Missing resource k (settle (delete_if_found resource k w).1)
  unfolding ignoring_not_found
  ignoring-Missing k w h = elim (Result-cases (delete_if_found resource k w).0) [
    | inl (_, e) ↦ delete_if_found-Missing k w e
    | inr (x, e) ↦ elim (Bool-cases (is_not_found x)) [
      | inl p ↦ elim (Result-cases (resource.get k w).0) [
        | inl (o, g) ↦
            let q = deletes_found k w o g in
            rw q (law.not_found k o w x g (sym (ap (λ r. r.0) q) ∙ e) p)
        | inr (y, g) ↦ elim (Bool-cases (is_not_found y)) [
          | inl r ↦ cc (deletes_nothing k w y g r, e)
          | inr r ↦ cc (deletes_fails k w y g r, e, p, r)
        ]
      ]
      | inr p ↦ ground arith
    ]
  ]

  ignoring_state :
      (k : ObjectKey) (w : W)
      → (ignoring_not_found (delete_if_found resource k) w).1 ≡ (delete_if_found resource k w).1
  unfolding ignoring_not_found
  ignoring_state k w = ground arith

  pub ignoring-Achieves :
      (k : ObjectKey) (t : Thing)
      → ((w : W) → Missing resource k w → IsMissing client t w)
      → Achieves (IsGone client settle) (t ∷ []) (ignoring_not_found (delete_if_found resource k))
  ignoring-Achieves k t f = record {
    achieved = λ w h. rw (ignoring_state k w) (f _ (ignoring-Missing k w h), tt);
    kept = λ u. record { kept = λ w m. rw (ignoring_state k w) (delete_if_found-kept k u w m) };
  }

-- Nothing is done about a missing object.
pub missing_stays :
    {W O : Type 0} (resource : Resource W O) (k : ObjectKey) (w : W)
    → Missing resource k w
    → delete_if_found resource k w ≡ (ok tt, w)
unfolding delete_if_found
missing_stays resource k w (e, g, p) = ground arith
