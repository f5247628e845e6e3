-- ===== src/CoinChooser/Random.antt =====
-- The random subset and privacy strategies of core/coinchooser.rs. SHA-256 and the order in which a
-- `HashMap` is iterated are parameters. An outer `none` is a panic.
pub mod Strip
pub mod Drawn
pub mod Candidates
use Prim.Native.Nat.{min}
use electrum_sv_mc.Prelude.{
  ℕ, zero, suc, ◌+◌, ◌-◌, ◌*◌, ◌/◌, ◌%◌, ◌^◌, ◌≤◌, ◌<◌, ◌≡◌, refl, sym, ap, ◌∙◌,
}
use electrum_sv_mc.Prelude.{
  ◌≢◌, ◌↔◌, ◌⊎◌, inl, inr, Bool, true, false, ◌&&◌, ◌||◌, not, Option, none, some,
}
use electrum_sv_mc.Prelude.{List, [], ◌∷◌, ◌++◌, map, arith, ltb, leb, ◌==◌, if◌then◌else◌}
use electrum_sv_mc.Prelude.{
  Result, ok, err, ◌>>=◌, ok_or, Result-cases, >>=-eq-ok, Bool-cases, Option-cases,
}
use electrum_sv_mc.Prelude.{ltb→lt, lt→ltb, leb→le, le→leb, ltb-false, leb-false, ==_iff}
use electrum_sv_mc.Prelude.{length, get_elem?, set, take, drop, replicate, sum_of, All}
use electrum_sv_mc.Prelude.{
  length-append, sum_of-append, take-append-drop, length-take, length-drop, sum_of-take_le,
}
use electrum_sv_mc.Prelude.Word.{IsU64, wrap, wrap_small, checked_add}
use electrum_sv_mc.Prelude.Sort.{sort_by}
use electrum_sv_mc.CoinChooser.Types.{Coin, Text, coin_value, coin_size, SelectionResult, Outcome}
use electrum_sv_mc.CoinChooser.Types.{no_coins, insufficient_funds, wrap_sum, coin_unit}
use electrum_sv_mc.CoinChooser.Prng.{Prng, from_coins, shuffle}

pub record Bucket : Type 0 where
  pub desc : ℕ
  pub size : ℕ
  pub value : ℕ
  pub coins : List Coin

abbrev pub bucket_value : Bucket → ℕ
bucket_value b = b.value

abbrev pub bucket_size : Bucket → ℕ
bucket_size b = b.size

-- Bucket::new
unfoldable pub new_bucket : ℕ × List Coin → Bucket
new_bucket (desc, coins) = record {
  desc = desc;
  size = wrap_sum coin_size coins;
  value = wrap_sum coin_value coins;
  coins = coins;
}

-- `map.entry(key).or_default().push(c)`
unfoldable pub entry_push : ℕ → Coin → List (ℕ × List Coin) → List (ℕ × List Coin)
entry_push key c [] = (key, c ∷ []) ∷ []
entry_push key c ((k, group) ∷ entries) =
    let rest = entry_push key c entries in
    if k == key then (k, group ++ (c ∷ [])) ∷ entries else (k, group) ∷ rest

unfoldable pub group_coins : List Coin → List (ℕ × List Coin) → List (ℕ × List Coin)
unfolding entry_push
group_coins [] entries = entries
group_coins (c ∷ coins) entries = group_coins coins (entry_push c.keyinstance_id c entries)

unfoldable pub sufficient_funds : ℕ → ℕ → List Bucket → Bool
sufficient_funds fee_rate target_amount bks =
    let total_input = wrap_sum bucket_value bks in
    let total_size = wrap (10 + wrap_sum bucket_size bks) in
    let fee = wrap (total_size * fee_rate) in leb (wrap (target_amount + fee)) total_input

-- `for i in 0..bkts.len() { … }` of `strip_unneeded`.
unfoldable pub strip_from : (List Bucket → Bool) → List Bucket → List Bucket → List Bucket
strip_from sufficient bkts [] = bkts
strip_from sufficient bkts (b ∷ rest) =
    let more = strip_from sufficient bkts rest in if sufficient rest then more else b ∷ rest

unfoldable pub strip_unneeded : (List Bucket → Bool) → List Bucket → List Bucket
unfolding strip_from
strip_unneeded sufficient bkts =
    let sorted = sort_by (λ a b. leb a.value b.value) bkts in strip_from sufficient sorted sorted

abbrev pub range_from : ℕ → ℕ → List ℕ
range_from i zero = []
range_from i (suc n) = i ∷ range_from (i + 1) n

-- `for (i, b) in buckets.iter().enumerate() { … }`
unfoldable pub singletons : (List Bucket → Bool) → List Bucket → List (List Bucket)
singletons sufficient [] = []
singletons sufficient (b ∷ rest) =
    let more = singletons sufficient rest in if sufficient (b ∷ []) then (b ∷ []) ∷ more else more

-- `for &idx in &perm { … }`: the first sufficient part of the permutation, if there is one.
unfoldable pub grow :
    (List Bucket → Bool) → List Bucket → List ℕ → List Bucket → Option (Option (List Bucket))
grow sufficient buckets [] bkts = some none
grow sufficient buckets (idx ∷ perm) bkts = elim (get_elem? buckets idx) [
  | none ↦ none
  | some b ↦
      let more = grow sufficient buckets perm (bkts ++ (b ∷ [])) in
      if sufficient (bkts ++ (b ∷ [])) then some (some (bkts ++ (b ∷ []))) else more
]

abbrev pub add_candidate :
    (List Bucket → Bool) → Option (List Bucket) → List (List Bucket) → List (List Bucket)
add_candidate sufficient none candidates = candidates
add_candidate sufficient (some bkts) candidates =
    candidates ++ (strip_unneeded sufficient bkts ∷ [])

module _ (sha256 : Text → Text) where
  -- `for _ in 0..attempts { … }`
  unfoldable pub attempt :
      (List Bucket → Bool)
      → List Bucket
      → ℕ
      → List ℕ
      → Prng
      → List (List Bucket)
      → Option (List (List Bucket))
  attempt sufficient buckets zero perm prng candidates = some candidates
  attempt sufficient buckets (suc attempts) perm prng candidates = elim (shuffle sha256 perm prng) [
    | none ↦ none
    | some (perm', prng') ↦ elim (grow sufficient buckets perm' []) [
      | none ↦ none
      | some found ↦
          attempt sufficient buckets attempts perm' prng'
            (add_candidate sufficient found candidates)
    ]
  ]

  unfoldable pub bucket_candidates :
      List Bucket → (List Bucket → Bool) → Prng → Option (List (List Bucket))
  bucket_candidates [] sufficient prng = some []
  bucket_candidates (b ∷ rest) sufficient prng =
      let n = length (b ∷ rest) in
      attempt sufficient (b ∷ rest) (min 100 ((n - 1) * 10 + 1)) (range_from 0 n) prng
        (singletons sufficient (b ∷ rest))
