-- ===== src/HeaderStore/Merkle/Binding.antt =====
-- What an accepted Merkle proof of network/header_store.rs binds: the leaf, up to a collision of the hash function.
use electrum_sv_mc.Prelude.{ℕ, suc, ◌+◌, ◌/◌, ◌%◌, ◌^◌, ◌≡◌, refl, sym, ap, ◌∙◌}
use electrum_sv_mc.Prelude.{◌≢◌, ◌⊎◌, inl, inr, true, Option, none, some}
use electrum_sv_mc.Prelude.{List, [], ◌∷◌, ◌++◌, map, arith, ◌==◌}
use electrum_sv_mc.Prelude.{Bool-cases, Option-cases}
use electrum_sv_mc.Prelude.{length, take, drop}
use electrum_sv_mc.Prelude.{length-append}
use electrum_sv_mc.Prelude.{take-length_append, drop-length_append}
use electrum_sv_mc.Prelude.Bytes.{bytes_eq, bytes_eq_iff}
use electrum_sv_mc.CoinChooser.Types.{Text}
use electrum_sv_mc.HeaderStore.Header.{hash256}
use electrum_sv_mc.HeaderStore.Merkle.{
  lower, combine, fold_branch, matches_root, verify_merkle_proof,
}
use mathlib.Core.List.{reverse, reverse_aux, reverse-reverse}
use mathlib.Core.Option.{some-injective}

-- Equal lists that start, or end, with parts of one length.
append-heads : (a b c d : List ℕ) → length a ≡ length b → a ++ c ≡ b ++ d → a ≡ b
append-heads a b c d n e =
    sym (take-length_append a c)
    ∙ ap (λ l. take (length a) l) e
    ∙ ap (λ k. take k (b ++ d)) n
    ∙ take-length_append b d

append-tails : (a b c d : List ℕ) → length c ≡ length d → a ++ c ≡ b ++ d → c ≡ d
append-tails a b c d n e =
    let total : length (a ++ c) ≡ length (b ++ d) = ap (λ l. length l) e in
    let heads : length a ≡ length b =
      omega (arith, total, n, length-append a c, length-append b d) in
    sym (drop-length_append a c)
    ∙ ap (λ l. drop (length a) l) e
    ∙ ap (λ k. drop k (b ++ d)) heads
    ∙ drop-length_append b d

reverse-injective : (x y : List ℕ) → reverse x ≡ reverse y → x ≡ y
reverse-injective x y h =
    sym (reverse-reverse x) ∙ ap (λ (l : List ℕ). reverse l) h ∙ reverse-reverse y

length-reverse_aux : (xs ys : List ℕ) → length (reverse_aux xs ys) ≡ length xs + length ys
length-reverse_aux [] ys = omega arith
length-reverse_aux (x ∷ xs) ys = omega (arith, length-reverse_aux xs (x ∷ ys))

length-reverse : (xs : List ℕ) → length (reverse xs) ≡ length xs
length-reverse xs = omega (arith, length-reverse_aux xs [])

module _ (sha256 : List ℕ → List ℕ) where
  -- Two different texts with one hash.
  abbrev pub Collision : Type 0
  Collision = (a : List ℕ) × ((b : List ℕ) × ((a ≢ b) × (hash256 sha256 a ≡ hash256 sha256 b)))

  same_input : (a b : List ℕ) → hash256 sha256 a ≡ hash256 sha256 b → (a ≡ b) ⊎ Collision
  same_input a b h = elim (Bool-cases (bytes_eq a b)) [
    | inl t ↦ inl ((bytes_eq_iff a b).0 t)
    | inr f ↦ inr (a, (b, ((λ e. cc ((bytes_eq_iff a b).1 e, f)), h)))
  ]

  combine-binds :
      (bit : ℕ) (c d p q : List ℕ)
      → length c ≡ length d
      → combine sha256 bit c p ≡ combine sha256 bit d q
      → (c ≡ d) ⊎ Collision
  unfolding combine
  combine-binds bit c d p q n h = elim (Bool-cases (bit == 0)) [
    | inl t ↦ elim (same_input (c ++ p) (d ++ q) (rw (t, combine) at h)) [
      | inl e ↦ inl (append-heads c d p q n e)
      | inr x ↦ inr x
    ]
    | inr f ↦ elim (same_input (p ++ c) (q ++ d) (rw (f, combine) at h)) [
      | inl e ↦ inl (append-tails p q c d n e)
      | inr x ↦ inr x
    ]
  ]

  module _ (decode : Text → Option (List ℕ))
      (length-sha256 : (b : List ℕ) → length (sha256 b) ≡ 32) where
    length-combine : (bit : ℕ) (c p : List ℕ) → length (combine sha256 bit c p) ≡ 32
    unfolding combine hash256
    length-combine bit c p = length-sha256 _

    fold_branch-binds :
        (pos level : ℕ) (b₁ b₂ : List Text) (c d x : List ℕ)
        → length b₁ ≡ length b₂
        → length c ≡ 32
        → length d ≡ 32
        → fold_branch sha256 decode pos level b₁ c ≡ some x
        → fold_branch sha256 decode pos level b₂ d ≡ some x
        → (c ≡ d) ⊎ Collision
    unfolding fold_branch
    fold_branch-binds pos level [] [] c d x n lc ld e f =
        inl (some-injective _ _ e ∙ sym (some-injective _ _ f))
    fold_branch-binds pos level [] (h ∷ b₂) c d x n lc ld e f = absurd (omega (arith, n))
    fold_branch-binds pos level (h ∷ b₁) [] c d x n lc ld e f = absurd (omega (arith, n))
    fold_branch-binds pos level (h ∷ b₁) (k ∷ b₂) c d x n lc ld e f =
        elim (Option-cases (decode h)) [
          | inl z ↦ cc (rw (z, fold_branch) at e)
          | inr (p, z) ↦ elim (Option-cases (decode k)) [
            | inl z' ↦ cc (rw (z', fold_branch) at f)
            | inr (q, z') ↦
                let bit = pos / 2 ^ (level % 64) % 2 in
                elim (fold_branch-binds pos (suc level) b₁ b₂ (combine sha256 bit c (reverse p))
                  (combine sha256 bit d (reverse q)) x (omega (arith, n))
                  (length-combine bit c (reverse p)) (length-combine bit d (reverse q))
                  (rw (z, fold_branch) at e) (rw (z', fold_branch) at f)) [
                    | inl same ↦ combine-binds bit c d (reverse p) (reverse q) (lc ∙ sym ld) same
                    | inr found ↦ inr found
                  ]
          ]
        ]

    module _ (encode : List ℕ → Text)
        (encode-determines : (a b : List ℕ)
          → map lower (encode a) ≡ map lower (encode b)
          → a ≡ b) where
      matches_root-some :
          (root : Text) (o : Option (List ℕ))
          → matches_root sha256 decode encode root o ≡ true
          → (x : List ℕ) × ((o ≡ some x) × (map lower (encode (reverse x)) ≡ map lower root))
      matches_root-some root none h = cc h
      matches_root-some root (some x) h = (x, (refl, (bytes_eq_iff _ _).0 h))

      proof-fold :
          (tx : Text) (branch : List Text) (pos : ℕ) (root : Text) (t : List ℕ)
          → verify_merkle_proof sha256 decode encode tx branch pos root ≡ true
          → decode tx ≡ some t
          → (x : List ℕ) × ((fold_branch sha256 decode pos 0 branch (reverse t) ≡ some x)
              × (map lower (encode (reverse x)) ≡ map lower root))
      unfolding verify_merkle_proof
      proof-fold tx branch pos root t h d =
          matches_root-some root (fold_branch sha256 decode pos 0 branch (reverse t))
            (rw (d, verify_merkle_proof) at h)

      -- Two Merkle proofs that are accepted for one position and one root, with branches of one length, are about
      -- the same transaction hash, or show two different texts with one double SHA-256, when the hash function and
      -- the two transaction hashes have 32 bytes and hex encoding determines the bytes.
      pub verify_merkle_proof-binds :
          (tx₁ tx₂ : Text) (b₁ b₂ : List Text) (pos : ℕ) (root : Text) (t₁ t₂ : List ℕ)
          → verify_merkle_proof sha256 decode encode tx₁ b₁ pos root ≡ true
          → verify_merkle_proof sha256 decode encode tx₂ b₂ pos root ≡ true
          → length b₁ ≡ length b₂
          → decode tx₁ ≡ some t₁
          → decode tx₂ ≡ some t₂
          → length t₁ ≡ 32
          → length t₂ ≡ 32
          → (t₁ ≡ t₂) ⊎ Collision
      verify_merkle_proof-binds tx₁ tx₂ b₁ b₂ pos root t₁ t₂ v₁ v₂ n d₁ d₂ l₁ l₂ =
          let (x, (f₁, r₁)) = proof-fold tx₁ b₁ pos root t₁ v₁ d₁ in
          let (y, (f₂, r₂)) = proof-fold tx₂ b₂ pos root t₂ v₂ d₂ in
          let back : reverse x ≡ reverse y =
            encode-determines (reverse x) (reverse y) (r₁ ∙ sym r₂) in
          let same : x ≡ y = reverse-injective x y back in
          elim (fold_branch-binds pos 0 b₁ b₂ (reverse t₁) (reverse t₂) y n (length-reverse t₁ ∙ l₁)
            (length-reverse t₂ ∙ l₂) (f₁ ∙ ap (λ (z : List ℕ). some z) same) f₂) [
              | inl e ↦ inl (reverse-injective t₁ t₂ e)
              | inr found ↦ inr found
            ]
