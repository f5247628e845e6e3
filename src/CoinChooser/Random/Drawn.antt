-- ===== src/CoinChooser/Random/Drawn.antt =====
-- Buckets drawn from the buckets of core/coinchooser.rs, none of them twice.
use electrum_sv_mc.Prelude.{ℕ, zero, suc, ◌≡◌, refl, ap, ◌∙◌}
use electrum_sv_mc.Prelude.{Bool, some}
use electrum_sv_mc.Prelude.{List, [], ◌∷◌, ◌++◌, map}
use electrum_sv_mc.Prelude.{if-elim, length, get_elem?}
use mathlib.Core.List.{Perm, append-nil, perm_middle}
use mathlib.Core.List.Perm
use native.Mathlib.Numerals.{add-one}
use electrum_sv_mc.Prelude.Sort.{sort_by, insert_by}
use electrum_sv_mc.CoinChooser.Random.{Bucket, range_from, strip_from}

module _ {ℓ} {A : Type ℓ} where
  -- Together with what is left over, the chosen elements are those of the list, each as often.
  pub record IsDrawn (whole chosen : List A) : Type ℓ where
    pub left : List A
    pub same : Perm (chosen ++ left) whole

  pub IsDrawn-whole : (l : List A) → IsDrawn l l
  IsDrawn-whole l = record { left = []; same = rw (append-nil l) Perm.rfl }

  pub IsDrawn-perm : {whole a b : List A} → Perm a b → IsDrawn whole b → IsDrawn whole a
  IsDrawn-perm p d = record { left = d.left; same = Perm.trans (Perm.append_right d.left p) d.same }

  pub IsDrawn-tail : {whole : List A} {x : A} {l : List A} → IsDrawn whole (x ∷ l) → IsDrawn whole l
  IsDrawn-tail {whole} {x} {l} d = record {
    left = x ∷ d.left;
    same = Perm.trans (perm_middle {a = x} l d.left) d.same;
  }

  -- The first elements.
  pub IsDrawn-first : {whole : List A} (a b : List A) → Perm (a ++ b) whole → IsDrawn whole a
  IsDrawn-first a b p = record { left = b; same = p }

  pub IsDrawn-head :
      {whole : List A} {x : A} {l : List A} → IsDrawn whole (x ∷ l) → IsDrawn whole (x ∷ [])
  IsDrawn-head {whole} {x} {l} d = record { left = l ++ d.left; same = d.same }

  insert_by-perm : (le : A → A → Bool) (x : A) (l : List A) → Perm (insert_by le x l) (x ∷ l)
  unfolding insert_by
  insert_by-perm le x [] = Perm.rfl
  insert_by-perm le x (y ∷ l) =
      if-elim (λ r. Perm r (x ∷ y ∷ l)) (le x y) _ _ (λ _. Perm.rfl)
        λ _. Perm.trans (Perm.cons y (insert_by-perm le x l)) (Perm.swap x y l)

  pub sort_by-perm : (le : A → A → Bool) (l : List A) → Perm (sort_by le l) l
  unfolding sort_by
  sort_by-perm le [] = Perm.rfl
  sort_by-perm le (x ∷ l) =
      Perm.trans (insert_by-perm le x (sort_by le l)) (Perm.cons x (sort_by-perm le l))

  -- The elements at the places of a list of indices.
  abbrev get_or : A → List A → ℕ → A
  get_or default [] i = default
  get_or default (x ∷ l) zero = x
  get_or default (x ∷ l) (suc i) = get_or default l i

  abbrev pub picked : A → List A → List ℕ → List A
  picked default l perm = map (get_or default l) perm

  pub picked-get :
      (default : A) (l : List A) (i : ℕ) (x : A) → get_elem? l i ≡ some x → get_or default l i ≡ x
  picked-get default [] i x h = cc h
  picked-get default (y ∷ l) zero x h = cc h
  picked-get default (y ∷ l) (suc i) x h = picked-get default l i x h

  picked-shift :
      (default x : A) (l : List A) (a n : ℕ)
      → picked default (x ∷ l) (range_from (suc a) n) ≡ picked default l (range_from a n)
  picked-shift default x l a zero = refl
  picked-shift default x l a (suc n) =
      rw (add-one, add-one) (ap (◌∷◌ (get_or default l a)) (picked-shift default x l (suc a) n))

  pub picked-range : (default : A) (l : List A) → picked default l (range_from 0 (length l)) ≡ l
  picked-range default [] = refl
  picked-range default (x ∷ l) =
      ap (◌∷◌ x) (picked-shift default x l 0 (length l) ∙ picked-range default l)

  pub picked-perm :
      (default : A) (l : List A) {p q : List ℕ}
      → Perm p q
      → Perm (picked default l p) (picked default l q)
  picked-perm default l p = Perm.map (get_or default l) p

pub strip_from-IsDrawn :
    (sufficient : List Bucket → Bool) {whole : List Bucket} (bkts l : List Bucket)
    → IsDrawn whole bkts
    → IsDrawn whole l
    → IsDrawn whole (strip_from sufficient bkts l)
unfolding strip_from
strip_from-IsDrawn sufficient bkts [] h k = h
strip_from-IsDrawn sufficient {whole} bkts (b ∷ rest) h k =
    if-elim (IsDrawn whole) (sufficient rest) _ _
      (λ _. strip_from-IsDrawn sufficient bkts rest h (IsDrawn-tail k)) λ _. k
