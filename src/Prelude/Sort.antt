-- ===== src/Prelude/Sort.antt =====
-- `slice::sort_by` on a numeric key: a stable sort.
use electrum_sv_mc.Prelude.{
  ℕ, zero, suc, ◌+◌, ◌≤◌, ◌≡◌, refl, List, [], ◌∷◌, leb, if◌then◌else◌, sum_of,
}
use electrum_sv_mc.Prelude.{
  Bool, if-elim, length, take, All, Bool-cases, inl, inr, leb→le, leb-false, arith,
}

module _ {ℓ} {A : Type ℓ} where
  -- `x` stood before the list, so it stays before its equals.
  unfoldable pub insert_desc : (A → ℕ) → A → List A → List A
  insert_desc key x [] = x ∷ []
  insert_desc key x (y ∷ ys) = if leb (key y) (key x) then x ∷ y ∷ ys else y ∷ insert_desc key x ys

  -- `v.sort_by(|a, b| b.key.cmp(&a.key))`
  unfoldable pub sort_desc : (A → ℕ) → List A → List A
  unfolding insert_desc
  sort_desc key [] = []
  sort_desc key (x ∷ xs) = insert_desc key x (sort_desc key xs)

module _ {ℓ} {A : Type ℓ} where
  pub sum_of-insert_desc :
      (f key : A → ℕ) (x : A) (l : List A) → sum_of f (insert_desc key x l) ≡ f x + sum_of f l
  unfolding insert_desc
  sum_of-insert_desc f key x [] = omega arith
  sum_of-insert_desc f key x (y ∷ ys) = ground (arith, sum_of-insert_desc f key x ys)

  pub sum_of-sort_desc : (f key : A → ℕ) (l : List A) → sum_of f (sort_desc key l) ≡ sum_of f l
  unfolding sort_desc
  sum_of-sort_desc f key [] = omega arith
  sum_of-sort_desc f key (x ∷ xs) =
      omega (arith, sum_of-insert_desc f key x (sort_desc key xs), sum_of-sort_desc f key xs)

module _ {ℓ} {A : Type ℓ} where
  length-insert_desc :
      (key : A → ℕ) (x : A) (l : List A) → length (insert_desc key x l) ≡ suc (length l)
  unfolding insert_desc
  length-insert_desc key x [] = refl
  length-insert_desc key x (y ∷ ys) = ground (arith, length-insert_desc key x ys)

  pub length-sort_desc : (key : A → ℕ) (l : List A) → length (sort_desc key l) ≡ length l
  unfolding sort_desc
  length-sort_desc key [] = refl
  length-sort_desc key (x ∷ xs) =
      omega (arith, length-insert_desc key x (sort_desc key xs), length-sort_desc key xs)

-- A list without some of its elements, in order.
pub data Part {ℓ} {A : Type ℓ} : List A → List A → Type ℓ where
  done : Part [] []
  keep : {x : A} {ys xs : List A} → Part ys xs → Part (x ∷ ys) (x ∷ xs)
  skip : {x : A} {ys xs : List A} → Part ys xs → Part ys (x ∷ xs)

module _ {ℓ} {A : Type ℓ} where
  abbrev pub IsDesc : (A → ℕ) → List A → Type 0
  IsDesc key [] = Unit {0}
  IsDesc key (x ∷ xs) = All (λ y. key y ≤ key x) xs × IsDesc key xs

module _ {ℓ} {A : Type ℓ} (key : A → ℕ) where
  All-insert_desc :
      (b : ℕ) (x : A) (l : List A)
      → key x ≤ b
      → All (λ y. key y ≤ b) l
      → All (λ y. key y ≤ b) (insert_desc key x l)
  unfolding insert_desc
  All-insert_desc b x [] h k = (h, tt)
  All-insert_desc b x (y ∷ ys) h (ky, kys) = ground (arith, All-insert_desc b x ys h kys)

  All-weaken : (b c : ℕ) (l : List A) → b ≤ c → All (λ y. key y ≤ b) l → All (λ y. key y ≤ c) l
  All-weaken b c [] h k = tt
  All-weaken b c (y ∷ ys) h (ky, kys) = (omega arith, All-weaken b c ys h kys)

  insert_desc-IsDesc : (x : A) (l : List A) → IsDesc key l → IsDesc key (insert_desc key x l)
  unfolding insert_desc
  insert_desc-IsDesc x [] h = (tt, tt)
  insert_desc-IsDesc x (y ∷ ys) (hy, hys) = elim (Bool-cases (leb (key y) (key x))) [
    | inl e ↦ rw e (
      (leb→le (key y) (key x) e, All-weaken (key y) (key x) ys (leb→le (key y) (key x) e) hy),
      (hy, hys),
    )
    | inr e ↦ rw e (
      All-insert_desc (key y) x ys (omega (arith, leb-false (key y) (key x) e)) hy,
      insert_desc-IsDesc x ys hys,
    )
  ]

  pub sort_desc-IsDesc : (l : List A) → IsDesc key (sort_desc key l)
  unfolding sort_desc
  sort_desc-IsDesc [] = tt
  sort_desc-IsDesc (x ∷ xs) = insert_desc-IsDesc x (sort_desc key xs) (sort_desc-IsDesc xs)

  take_more :
      (b n : ℕ) (l : List A)
      → All (λ y. key y ≤ b) l
      → sum_of key (take (suc n) l) ≤ b + sum_of key (take n l)
  take_more b n [] h = omega arith
  take_more b zero (x ∷ xs) h = omega arith
  take_more b (suc n) (x ∷ xs) (hx, hxs) = omega (arith, take_more b n xs hxs)

  insert_desc-front :
      (x : A) (n : ℕ) (l : List A)
      → key x + sum_of key (take n l) ≤ sum_of key (take (suc n) (insert_desc key x l))
  unfolding insert_desc
  insert_desc-front x n [] = omega arith
  insert_desc-front x zero (y ∷ ys) = ground arith
  insert_desc-front x (suc n) (y ∷ ys) = ground (arith, insert_desc-front x n ys)

  take_cons :
      (y : A) (n : ℕ) (ys : List A)
      → All (λ z. key z ≤ key y) ys
      → sum_of key (take n ys) ≤ sum_of key (take n (y ∷ ys))
  take_cons y zero ys h = omega arith
  take_cons y (suc n) ys h = take_more (key y) n ys h

  insert_desc-take :
      (x : A) (n : ℕ) (l : List A)
      → IsDesc key l
      → sum_of key (take n l) ≤ sum_of key (take n (insert_desc key x l))
  unfolding insert_desc
  insert_desc-take x zero l h = omega arith
  insert_desc-take x (suc n) [] h = omega arith
  insert_desc-take x (suc n) (y ∷ ys) (hy, hys) =
      ground (arith, insert_desc-take x n ys hys, take_cons y n ys hy)

  -- No choice of elements has a larger sum than as many of the largest.
  pub Part-sort_desc :
      {ys l : List A} → Part ys l → sum_of key ys ≤ sum_of key (take (length ys) (sort_desc key l))
  unfolding sort_desc
  Part-sort_desc done = omega arith
  Part-sort_desc (keep {x} {ys} {xs} p) =
      omega (arith, Part-sort_desc p, insert_desc-front x (length ys) (sort_desc key xs))
  Part-sort_desc (skip {x} {ys} {xs} p) = omega (
    arith,
    Part-sort_desc p,
    insert_desc-take x (length ys) (sort_desc key xs) (sort_desc-IsDesc xs),
  )

-- The same sort by a test: `x` goes before `y` if `le x y`.
module _ {ℓ} {A : Type ℓ} where
  unfoldable pub insert_by : (A → A → Bool) → A → List A → List A
  insert_by le x [] = x ∷ []
  insert_by le x (y ∷ ys) = if le x y then x ∷ y ∷ ys else y ∷ insert_by le x ys

  unfoldable pub sort_by : (A → A → Bool) → List A → List A
  unfolding insert_by
  sort_by le [] = []
  sort_by le (x ∷ xs) = insert_by le x (sort_by le xs)

module _ {ℓ} {A : Type ℓ} where
  sum_of-insert_by :
      (f : A → ℕ) (le : A → A → Bool) (x : A) (l : List A)
      → sum_of f (insert_by le x l) ≡ f x + sum_of f l
  unfolding insert_by
  sum_of-insert_by f le x [] = omega arith
  sum_of-insert_by f le x (y ∷ ys) = ground (arith, sum_of-insert_by f le x ys)

  pub sum_of-sort_by :
      (f : A → ℕ) (le : A → A → Bool) (l : List A) → sum_of f (sort_by le l) ≡ sum_of f l
  unfolding sort_by
  sum_of-sort_by f le [] = omega arith
  sum_of-sort_by f le (x ∷ xs) =
      omega (arith, sum_of-insert_by f le x (sort_by le xs), sum_of-sort_by f le xs)

module _ {ℓ} {A : Type ℓ} (le : A → A → Bool) where
  length-insert_by : (x : A) (l : List A) → length (insert_by le x l) ≡ suc (length l)
  unfolding insert_by
  length-insert_by x [] = refl
  length-insert_by x (y ∷ l) = ground (arith, length-insert_by x l)

  pub length-sort_by : (l : List A) → length (sort_by le l) ≡ length l
  unfolding sort_by
  length-sort_by [] = refl
  length-sort_by (x ∷ l) = omega (arith, length-insert_by x (sort_by le l), length-sort_by l)

module _ {ℓ κ} {A : Type ℓ} (P : A → Type κ) where
  All-insert : (key : A → ℕ) (x : A) (l : List A) → P x → All P l → All P (insert_desc key x l)
  unfolding insert_desc
  All-insert key x [] h k = (h, tt)
  All-insert key x (y ∷ l) h (ky, kl) =
      if-elim (All P) (leb (key y) (key x)) _ _ (λ _. (h, (ky, kl)))
        λ _. (ky, All-insert key x l h kl)

  pub All-sort_desc : (key : A → ℕ) (l : List A) → All P l → All P (sort_desc key l)
  unfolding sort_desc
  All-sort_desc key [] h = tt
  All-sort_desc key (x ∷ l) (h, hl) = All-insert key x (sort_desc key l) h (All-sort_desc key l hl)

  pub All-Part : {ys xs : List A} → Part ys xs → All P xs → All P ys
  All-Part done h = tt
  All-Part (keep p) (h, hs) = (h, All-Part p hs)
  All-Part (skip p) (h, hs) = All-Part p hs

  All-insert_by :
      (le : A → A → Bool) (x : A) (l : List A) → P x → All P l → All P (insert_by le x l)
  unfolding insert_by
  All-insert_by le x [] h k = (h, tt)
  All-insert_by le x (y ∷ l) h (ky, kl) =
      if-elim (All P) (le x y) _ _ (λ _. (h, (ky, kl))) λ _. (ky, All-insert_by le x l h kl)

  pub All-sort_by : (le : A → A → Bool) (l : List A) → All P l → All P (sort_by le l)
  unfolding sort_by
  All-sort_by le [] h = tt
  All-sort_by le (x ∷ l) (h, hl) = All-insert_by le x (sort_by le l) h (All-sort_by le l hl)
