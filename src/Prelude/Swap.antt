-- ===== src/Prelude/Swap.antt =====
-- `slice::swap` and that it permutes.
use electrum_sv_mc.Prelude.{ℕ, zero, suc, ◌<◌, ◌≡◌, refl, ap, Option, none, some, List, [], ◌∷◌}
use electrum_sv_mc.Prelude.{get_elem?, set, length, arith}
use mathlib.Core.List.{Perm, perm-cons}
use mathlib.Core.List.Perm

module _ {ℓ} {A : Type ℓ} where
  pub get_elem?-some : (l : List A) (i : ℕ) → i < length l → (a : A) × (get_elem? l i ≡ some a)
  get_elem?-some [] i h = elim h [ ]
  get_elem?-some (x ∷ l) zero h = (x, refl)
  get_elem?-some (x ∷ l) (suc i) h = get_elem?-some l i (omega arith)

  pub length-set : (l : List A) (i : ℕ) (v : A) → length (set l i v) ≡ length l
  length-set [] i v = refl
  length-set (x ∷ l) zero v = refl
  length-set (x ∷ l) (suc i) v = ap suc (length-set l i v)

  -- `slice.swap(i, j)`; `none` is the panic of an index out of bounds.
  unfoldable pub swap_elems : List A → ℕ → ℕ → Option (List A)
  swap_elems l i j = elim (get_elem? l i) [
    | none ↦ none
    | some x ↦ elim (get_elem? l j) [ none ↦ none | some y ↦ some (set (set l i y) j x) ]
  ]

module _ {ℓ} {A : Type ℓ} where
  set-perm : (l : List A) (i : ℕ) (x y : A) → get_elem? l i ≡ some x → Perm (x ∷ set l i y) (y ∷ l)
  set-perm [] i x y h = absurd (cc)
  set-perm (z ∷ l) zero x y h = let same : z ≡ x = cc in rw same (Perm.swap y x l)
  set-perm (z ∷ l) (suc i) x y h =
      Perm.trans (Perm.swap z x (set l i y))
        (Perm.trans (Perm.cons z (set-perm l i x y h)) (Perm.swap y z l))

  get_elem?-set :
      (l : List A) (i j : ℕ) (x y : A)
      → get_elem? l i ≡ some x
      → get_elem? l j ≡ some y
      → get_elem? (set l i y) j ≡ some y
  get_elem?-set [] i j x y h k = cc
  get_elem?-set (z ∷ l) zero zero x y h k = refl
  get_elem?-set (z ∷ l) zero (suc j) x y h k = k
  get_elem?-set (z ∷ l) (suc i) zero x y h k = k
  get_elem?-set (z ∷ l) (suc i) (suc j) x y h k = get_elem?-set l i j x y h k

  pub swap_elems-perm :
      (l : List A) (i j : ℕ)
      → i < length l
      → j < length l
      → (l' : List A) × (swap_elems l i j ≡ some l') × Perm l' l × (length l' ≡ length l)
  unfolding swap_elems
  swap_elems-perm l i j hi hj =
      let (x, ex) = get_elem?-some l i hi in
      let (y, ey) = get_elem?-some l j hj in
      (
        set (set l i y) j x,
        ground arith,
        (perm-cons y).0 (
            Perm.trans (set-perm (set l i y) j y x (get_elem?-set l i j x y ex ey))
              (set-perm l i x y ex)),
        ground (arith, length-set (set l i y) j x, length-set l i y),
      )
