-- ===== src/CoinChooser/Prng.antt =====
-- The deterministic generator of core/coinchooser.rs, `Prng`. SHA-256 is a parameter.
pub mod Laws
use electrum_sv_mc.Prelude.{
  ℕ, zero, suc, ◌+◌, ◌-◌, ◌*◌, ◌/◌, ◌%◌, ◌^◌, ◌≤◌, ◌<◌, ◌≡◌, refl, sym, ap, ◌∙◌,
}
use electrum_sv_mc.Prelude.{
  ◌≢◌, ◌↔◌, ◌⊎◌, inl, inr, Bool, true, false, ◌&&◌, ◌||◌, not, Option, none, some,
}
use electrum_sv_mc.Prelude.{List, [], ◌∷◌, ◌++◌, map, arith, ltb, leb, ◌==◌, if◌then◌else◌}
use electrum_sv_mc.Prelude.{
  Result, ok, err, ◌>>=◌, ok_or, Result-cases, >>=-eq-ok, Bool-cases, Option-cases,
}
use electrum_sv_mc.Prelude.{ltb→lt, lt→ltb, leb→le, le→leb, ltb-false, leb-false, ==_iff}
use electrum_sv_mc.Prelude.{length, get_elem?, set, take, drop, replicate, sum_of, All}
use electrum_sv_mc.Prelude.{
  length-append, sum_of-append, take-append-drop, length-take, length-drop, sum_of-take_le,
}
use electrum_sv_mc.Prelude.Word.{IsU64, wrap, wrap_small, checked_add}
use electrum_sv_mc.Prelude.Sort.{sort_by}
use electrum_sv_mc.Prelude.Swap.{swap_elems}
use electrum_sv_mc.CoinChooser.Types.{Coin, Text}

pub record Prng : Type 0 where
  pub state : Text
  pub pool : Text

-- `u32::to_le_bytes`
unfoldable pub le_bytes32 : ℕ → Text
le_bytes32 n = (n % 256) ∷ (n / 2 ^ 8 % 256) ∷ (n / 2 ^ 16 % 256) ∷ (n / 2 ^ 24 % 256) ∷ []

-- Coin::prevout_bytes
unfoldable pub prevout_bytes : Coin → Text
unfolding le_bytes32
prevout_bytes c = c.tx_hash_hex ++ le_bytes32 c.tx_index

-- The order of `Vec<u8>`.
unfoldable pub lex_le : Text → Text → Bool
lex_le [] ys = true
lex_le (x ∷ xs) [] = false
lex_le (x ∷ xs) (y ∷ ys) = if ltb x y then true else if ltb y x then false else lex_le xs ys

abbrev pub concat : List Text → Text
concat [] = []
concat (part ∷ parts) = part ++ concat parts

module _ (sha256 : Text → Text) where
  -- Prng::from_seed
  unfoldable pub from_seed : Text → Prng
  from_seed seed = record { state = sha256 seed; pool = [] }

  -- Prng::from_coins
  unfoldable pub from_coins : List Coin → Prng
  unfolding from_seed prevout_bytes lex_le
  from_coins coins = from_seed (concat (sort_by lex_le (map prevout_bytes coins)))

  -- `while self.pool.len() < n { … }`, with fuel.
  unfoldable pub refill : ℕ → ℕ → Prng → Prng
  refill zero n p = p
  refill (suc fuel) n p =
      let more = refill fuel n (record { state = sha256 p.state; pool = p.pool ++ p.state }) in
      if ltb (length p.pool) n then more else p

  -- `drain(..n)` panics on a shorter pool, which is `none`.
  unfoldable pub get_bytes : ℕ → Prng → Option (Text × Prng)
  unfolding refill
  get_bytes n p =
      let p' = refill n n p in
      if ltb (length p'.pool) n
      then none
      else some (take n p'.pool, record { state = p'.state; pool = drop n p'.pool })

  -- `while p < n { … }` of `randint`; eight rounds of `p <<= 8` reach 2 ^ 64.
  unfoldable pub randint_loop : ℕ → ℕ → ℕ → ℕ → Prng → Option (ℕ × Prng)
  randint_loop zero n r p g = if ltb p n then none else some (r, g)
  randint_loop (suc fuel) n r p g =
      if ltb p n
      then elim (get_bytes 1 g) [
        | none ↦ none
        | some (bytes, g') ↦ elim bytes [
          | [] ↦ none
          | b ∷ _ ↦ randint_loop fuel n (wrap (b + wrap (r * 2 ^ 8))) (wrap (p * 2 ^ 8)) g'
        ]
      ]
      else some (r, g)

  -- A random number in [from, to); `none` is the panic of `r % 0`, or a loop that does not end.
  unfoldable pub randint : ℕ → ℕ → Prng → Option (ℕ × Prng)
  randint from to g =
      let n = wrap (to + 2 ^ 64 - from) in
      elim (randint_loop 8 n 0 1 g) [
        | none ↦ none
        | some (r, g') ↦ if n == 0 then none else some (wrap (from + r % n), g')
      ]

  -- `for i in (1..slice.len()).rev()`: the first number is the `i` of this round.
  unfoldable pub shuffle_from {ℓ} : {A : Type ℓ} → ℕ → List A → Prng → Option (List A × Prng)
  shuffle_from zero slice g = some (slice, g)
  shuffle_from (suc i) slice g = elim (randint 0 (suc i + 1) g) [
    | none ↦ none
    | some (j, g') ↦ elim (swap_elems slice (suc i) j) [
      | none ↦ none
      | some slice' ↦ shuffle_from i slice' g'
    ]
  ]

  unfoldable pub shuffle {ℓ} : {A : Type ℓ} → List A → Prng → Option (List A × Prng)
  shuffle slice g =
      if ltb (length slice) 2 then some (slice, g) else shuffle_from (length slice - 1) slice g
