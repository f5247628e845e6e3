-- ===== src/Prelude/Parts.antt =====
-- Parts of a list (`Part` of Prelude/Sort) and what they keep.
use electrum_sv_mc.Prelude.{ℕ, ◌≤◌, List, [], ◌∷◌, ◌++◌, sum_of, length, arith}
use electrum_sv_mc.Prelude.Sort.{Part, done, keep, skip}

module _ {ℓ} {A : Type ℓ} where
  pub sum_of-Part : (f : A → ℕ) {ys xs : List A} → Part ys xs → sum_of f ys ≤ sum_of f xs
  sum_of-Part f done = omega arith
  sum_of-Part f (keep p) = omega (arith, sum_of-Part f p)
  sum_of-Part f (skip p) = omega (arith, sum_of-Part f p)

  pub length-Part : {ys xs : List A} → Part ys xs → length ys ≤ length xs
  length-Part done = omega arith
  length-Part (keep p) = omega (arith, length-Part p)
  length-Part (skip p) = omega (arith, length-Part p)

  Part-nil : (xs : List A) → Part [] xs
  Part-nil [] = done
  Part-nil (x ∷ xs) = skip (Part-nil xs)

  pub Part-refl : (xs : List A) → Part xs xs
  Part-refl [] = done
  Part-refl (x ∷ xs) = keep (Part-refl xs)

  pub Part-append : {ys xs : List A} (zs : List A) → Part ys xs → Part ys (xs ++ zs)
  Part-append zs done = Part-nil zs
  Part-append zs (keep p) = keep (Part-append zs p)
  Part-append zs (skip p) = skip (Part-append zs p)

  pub Part-snoc : {ys xs : List A} (z : A) → Part ys xs → Part (ys ++ (z ∷ [])) (xs ++ (z ∷ []))
  Part-snoc z done = keep done
  Part-snoc z (keep p) = keep (Part-snoc z p)
  Part-snoc z (skip p) = skip (Part-snoc z p)
