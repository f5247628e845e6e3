-- ===== src/CoinChooser/Prng/Laws.antt =====
-- The generator of core/coinchooser.rs with a hash of 32 bytes: lengths, ranges and permutations.
use electrum_sv_mc.Prelude.{ℕ, zero, suc, ◌+◌, ◌-◌, ◌*◌, ◌%◌, ◌^◌, ◌≤◌, ◌<◌, ◌≡◌, refl, ap, ◌∙◌}
use electrum_sv_mc.Prelude.{inl, inr, some}
use electrum_sv_mc.Prelude.{List, [], ◌∷◌, ◌++◌, arith, ltb}
use electrum_sv_mc.Prelude.{Bool-cases}
use electrum_sv_mc.Prelude.{ltb→lt, lt→ltb, ltb-false}
use electrum_sv_mc.Prelude.{length, take, drop}
use electrum_sv_mc.Prelude.{length-append, length-take}
use electrum_sv_mc.Prelude.Word.{wrap}
use electrum_sv_mc.Prelude.Swap.{swap_elems, swap_elems-perm}
use mathlib.Core.List.{Perm}
use mathlib.Core.List.Perm
use native.Mathlib.Nat.{pow-suc, mod-lt}
use electrum_sv_mc.CoinChooser.Types.{Text}
use electrum_sv_mc.CoinChooser.Prng.{
  Prng, refill, get_bytes, randint_loop, randint, shuffle_from, shuffle,
}

-- A generator whose state is a hash.
abbrev pub IsReady : Prng → Type 0
IsReady g = length g.state ≡ 32

-- What is documented of SHA-256: its output has 32 bytes.
module _ (sha256 : Text → Text) (len32 : (t : Text) → length (sha256 t) ≡ 32) where
  refill-fills :
      (fuel n : ℕ) (g : Prng)
      → IsReady g
      → n ≤ fuel + length g.pool
      → IsReady (refill sha256 fuel n g) × (n ≤ length (refill sha256 fuel n g).pool)
  unfolding refill
  refill-fills zero n g r h = omega arith
  refill-fills (suc fuel) n g r h = ground (
    arith,
    len32 g.state,
    length-append g.pool g.state,
    refill-fills fuel n (record { state = sha256 g.state; pool = g.pool ++ g.state }),
  )

  -- The generator never lacks the bytes that it is asked for.
  pub get_bytes_lem :
      (n : ℕ) (g : Prng)
      → IsReady g
      → (t : Text) × (g' : Prng) × (get_bytes sha256 n g ≡ some (t, g'))
        × IsReady g'
        × (length t ≡ n)
  unfolding get_bytes
  get_bytes_lem n g r =
      let p = refill sha256 n n g in
      (
        take n p.pool,
        record { state = p.state; pool = drop n p.pool },
        ground (arith, refill-fills n n g r),
        ground (arith, refill-fills n n g r),
        ground (arith, refill-fills n n g r, length-take n p.pool),
      )

  get_byte :
      (g : Prng)
      → IsReady g
      → (b : ℕ) × (g' : Prng) × (get_bytes sha256 1 g ≡ some ((b ∷ []), g')) × IsReady g'
  get_byte g r = let (t, g', e, r', l) = get_bytes_lem 1 g r in one t g' e r' l
    where
      one :
          (t : Text) (g' : Prng)
          → get_bytes sha256 1 g ≡ some (t, g')
          → IsReady g'
          → length t ≡ 1
          → (b : ℕ) × (h : Prng) × (get_bytes sha256 1 g ≡ some ((b ∷ []), h)) × IsReady h
      one [] g' e r' l = absurd (omega arith)
      one (b ∷ []) g' e r' l = (b, g', e, r')
      one (b ∷ c ∷ t) g' e r' l = absurd (omega arith)

  randint_loop_step :
      (fuel n r p b : ℕ) (g g' : Prng)
      → p < n
      → n ≤ 2 ^ 32
      → get_bytes sha256 1 g ≡ some ((b ∷ []), g')
      → randint_loop sha256 (suc fuel) n r p g
        ≡ randint_loop sha256 fuel n (wrap (b + wrap (r * 2 ^ 8))) (p * 256) g'
  unfolding randint_loop
  randint_loop_step fuel n r p b g g' lt k e =
      let small : wrap (p * 2 ^ 8) ≡ p * 256 = omega arith in rw (lt→ltb p n lt, e, small)

  -- The fuel left takes `p` to the bound `n`, and no shift on the way wraps.
  randint_loop_total :
      (fuel n r p : ℕ) (g : Prng)
      → IsReady g
      → n ≤ 2 ^ 32
      → n ≤ p * 256 ^ fuel
      → (x : ℕ) × (g' : Prng) × (randint_loop sha256 fuel n r p g ≡ some (x, g')) × IsReady g'
  randint_loop_total zero n r p g ready k h = (r, g, unfold randint_loop in ground arith, ready)
  randint_loop_total (suc fuel) n r p g ready k h = elim (Bool-cases (ltb p n)) [
    | inr e ↦ (r, g, unfold randint_loop in ground arith, ready)
    | inl e ↦
        let (b, g', eb, ready') = get_byte g ready in
        let (x, g'', ex, ready'') =
          randint_loop_total fuel n (wrap (b + wrap (r * 2 ^ 8))) (p * 256) g' ready' k
            (omega (arith, h, ap (λ (t : ℕ). p * t) (pow-suc 256 fuel))) in
        (x, g'', randint_loop_step fuel n r p b g g' (ltb→lt p n e) k eb ∙ ex, ready'')
  ]

  randint_lem :
      (n x : ℕ) (g g' : Prng)
      → 1 ≤ n
      → n ≤ 2 ^ 32
      → randint_loop sha256 8 n 0 1 g ≡ some (x, g')
      → (randint sha256 0 n g ≡ some (x % n, g')) × (x % n < n)
  unfolding randint
  randint_lem n x g g' lo hi e =
      let same : wrap (n + 2 ^ 64 - 0) ≡ n = omega arith in
      (rw (same, e, randint) (ground (arith, mod-lt x)), mod-lt x lo)

  -- With a hash of 32 bytes, and from a generator with such a state, `randint(0, n)` for 1 ≤ n ≤
  -- 2 ^ 32 does not panic, and its result is below `n`.
  pub randint_in_range :
      (n : ℕ) (g : Prng)
      → IsReady g
      → 1 ≤ n
      → n ≤ 2 ^ 32
      → (j : ℕ) × (g' : Prng) × (randint sha256 0 n g ≡ some (j, g')) × IsReady g' × (j < n)
  randint_in_range n g ready lo hi =
      let (x, g', e, ready') = randint_loop_total 8 n 0 1 g ready hi (omega arith) in
      (x % n, g', (randint_lem n x g g' lo hi e).0, ready', (randint_lem n x g g' lo hi e).1)

  shuffle_step {ℓ} :
      {A : Type ℓ} (i j : ℕ) (l m : List A) (g g' : Prng)
      → randint sha256 0 (suc i + 1) g ≡ some (j, g')
      → swap_elems l (suc i) j ≡ some m
      → shuffle_from sha256 (suc i) l g ≡ shuffle_from sha256 i m g'
  unfolding shuffle_from
  shuffle_step i j l m g g' e em = rw (e, em, shuffle_from)

  shuffle_from-perm {ℓ} :
      {A : Type ℓ} (i : ℕ) (l : List A) (g : Prng)
      → IsReady g
      → i < length l
      → length l ≤ 2 ^ 32
      → (l' : List A) × (g' : Prng) × (shuffle_from sha256 i l g ≡ some (l', g'))
        × IsReady g'
        × Perm l' l
        × (length l' ≡ length l)
  shuffle_from-perm zero l g ready h k =
      (l, g, unfold shuffle_from in refl, ready, Perm.refl l, refl)
  shuffle_from-perm (suc i) l g ready h k =
      let (j, g', e, ready', lt) =
        randint_in_range (suc i + 1) g ready (omega arith) (omega arith) in
      let (m, em, perm, same) = swap_elems-perm l (suc i) j h (omega arith) in
      let (l', g'', er, ready'', perm', same') =
        shuffle_from-perm i m g' ready' (omega arith) (omega arith) in
      (l', g'', shuffle_step i j l m g g' e em ∙ er, ready'', Perm.trans perm' perm, same' ∙ same)

  -- With a hash of 32 bytes, and from a generator with such a state, a shuffle of up to 2 ^ 32
  -- elements ends without a panic and permutes them.
  pub shuffle-perm {ℓ} :
      {A : Type ℓ} (l : List A) (g : Prng)
      → IsReady g
      → length l ≤ 2 ^ 32
      → (l' : List A) × (g' : Prng) × (shuffle sha256 l g ≡ some (l', g'))
        × IsReady g'
        × Perm l' l
        × (length l' ≡ length l)
  unfolding shuffle
  shuffle-perm l g ready k = elim (Bool-cases (ltb (length l) 2)) [
    | inl e ↦ (l, g, rw e, ready, Perm.refl l, refl)
    | inr e ↦ rw e (shuffle_from-perm (length l - 1) l g ready (omega (arith, ltb-false _ _ e)) k)
  ]
