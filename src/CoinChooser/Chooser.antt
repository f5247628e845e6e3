-- ===== src/CoinChooser/Chooser.antt =====
-- Scoring, the result, and `CoinChooser::select` of core/coinchooser.rs. An outer `none` is a panic.
pub mod Assemble
pub mod Laws
pub mod Settled
use Prim.Native.Nat.{min}
use electrum_sv_mc.Prelude.{
  ℕ, zero, suc, ◌+◌, ◌-◌, ◌*◌, ◌/◌, ◌%◌, ◌^◌, ◌≤◌, ◌<◌, ◌≡◌, refl, sym, ap, ◌∙◌,
}
use electrum_sv_mc.Prelude.{
  ◌≢◌, ◌↔◌, ◌⊎◌, inl, inr, Bool, true, false, ◌&&◌, ◌||◌, not, Option, none, some,
}
use electrum_sv_mc.Prelude.{List, [], ◌∷◌, ◌++◌, map, arith, ltb, leb, ◌==◌, if◌then◌else◌}
use electrum_sv_mc.Prelude.{
  Result, ok, err, ◌>>=◌, ok_or, Result-cases, >>=-eq-ok, Bool-cases, Option-cases,
}
use electrum_sv_mc.Prelude.{ltb→lt, lt→ltb, leb→le, le→leb, ltb-false, leb-false, ==_iff}
use electrum_sv_mc.Prelude.{length, get_elem?, set, take, drop, replicate, sum_of, All}
use electrum_sv_mc.Prelude.{
  length-append, sum_of-append, take-append-drop, length-take, length-drop, sum_of-take_le,
}
use electrum_sv_mc.Prelude.Word.{IsU64, wrap, wrap_small, checked_add}
use electrum_sv_mc.CoinChooser.Types.{Coin, Text, coin_value, coin_size, SelectionResult, Outcome}
use electrum_sv_mc.CoinChooser.Types.{
  no_coins, insufficient_funds, wrap_sum, coin_unit, CoinChooser,
}
use electrum_sv_mc.CoinChooser.Types.{Strategy, branch_and_bound, random_subset, privacy}
use electrum_sv_mc.CoinChooser.Prng.{Prng, from_coins}
use electrum_sv_mc.CoinChooser.Bnb.{select_bnb}
use electrum_sv_mc.CoinChooser.Random.{Bucket, bucket_value, bucket_size, new_bucket, group_coins}
use electrum_sv_mc.CoinChooser.Random.{sufficient_funds, bucket_candidates}

unfoldable pub penalty_simple : List Bucket → ℕ
penalty_simple buckets = length buckets - 1

abbrev pub saturating_add : ℕ → ℕ → ℕ
saturating_add a b = min (a + b) (2 ^ 64 - 1)

-- The divisor is not 0, where the code would panic, for the `max_change` that `penalty` gives: `max_change-divides`
-- in Chooser/Assemble.
unfoldable pub penalty_privacy : List Bucket → ℕ → ℕ → ℕ
penalty_privacy buckets spent max_change =
    let badness = length buckets - 1 in
    let change = wrap_sum bucket_value buckets - spent in
    let diff = change - max_change in
    if ltb max_change change
    then saturating_add (saturating_add badness (diff / (wrap (max_change + 10000))))
        (change / (coin_unit * 5))
    else badness

-- `for (i, cand) in candidates.iter().enumerate() { … }`
unfoldable pub best_index : (List Bucket → ℕ) → ℕ → ℕ → ℕ → List (List Bucket) → ℕ
best_index penalty i best_idx best_penalty [] = best_idx
best_index penalty i best_idx best_penalty (cand ∷ rest) =
    let better = ltb (penalty cand) best_penalty in
    best_index penalty (i + 1) (if better then i else best_idx)
      (if better then penalty cand else best_penalty) rest

abbrev pub bucket_coins : List Bucket → List Coin
bucket_coins [] = []
bucket_coins (b ∷ bs) = b.coins ++ bucket_coins bs

-- The code of `assemble_result` behind the test for no coins.
unfoldable pub assemble_coins : ℕ → ℕ → List Coin → Outcome SelectionResult
assemble_coins fee_rate target_amount selected =
    let total_input = wrap_sum coin_value selected in
    let fee = wrap (wrap (10 + wrap_sum coin_size selected) * fee_rate) in
    if ltb total_input (wrap (target_amount + fee))
    then err (insufficient_funds (wrap (target_amount + fee)) total_input)
    else ok (record {
      coins = selected;
      total_input = total_input;
      fee = fee;
      change = wrap (wrap (total_input + 2 ^ 64 - target_amount) + 2 ^ 64 - fee);
    })

unfoldable pub assemble_result : ℕ → List Bucket → ℕ → Outcome SelectionResult
assemble_result fee_rate buckets target_amount = elim (bucket_coins buckets) [
  | [] ↦ err no_coins
  | c ∷ rest ↦ assemble_coins fee_rate target_amount (c ∷ rest)
]

abbrev pub penalty : Bool → ℕ → List Bucket → ℕ
penalty true target_amount cand = penalty_privacy cand target_amount (wrap (target_amount * 3) / 2)
penalty false target_amount cand = penalty_simple cand

-- The code behind the generation of the candidates.
unfoldable pub settle :
    ℕ → ℕ → Bool → List Bucket → List (List Bucket) → Option (Outcome SelectionResult)
settle fee_rate target_amount privately buckets [] =
    let needed = wrap (target_amount + wrap (wrap_sum bucket_size buckets * fee_rate)) in
    if sufficient_funds fee_rate target_amount buckets
    then some (assemble_result fee_rate buckets target_amount)
    else some (err (insufficient_funds needed (wrap_sum bucket_value buckets)))
settle fee_rate target_amount privately buckets (cand ∷ rest) =
    let best = best_index (penalty privately target_amount) 0 0 (2 ^ 64 - 1) (cand ∷ rest) in
    elim (get_elem? (cand ∷ rest) best) [
      | none ↦ none
      | some winner ↦ some (assemble_result fee_rate winner target_amount)
    ]

module _ (sha256 : Text → Text) (iterated : List (ℕ × List Coin) → List (ℕ × List Coin)) where
  -- `map.into_iter()` yields the entries in an order of its own.
  unfoldable pub bucketize : List Coin → List Bucket
  bucketize coins = map new_bucket (iterated (group_coins coins []))

  unfoldable pub select_random : ℕ → List Coin → ℕ → Bool → Option (Outcome SelectionResult)
  select_random fee_rate coins target_amount privately =
      let buckets = bucketize coins in
      elim (bucket_candidates sha256 buckets (sufficient_funds fee_rate target_amount)
        (from_coins sha256 coins)) [
          | none ↦ none
          | some candidates ↦ settle fee_rate target_amount privately buckets candidates
        ]

  unfoldable pub select_by : Strategy → ℕ → List Coin → ℕ → Option (Outcome SelectionResult)
  select_by branch_and_bound fee_rate coins target_amount = select_bnb fee_rate coins target_amount
  select_by random_subset fee_rate coins target_amount =
      select_random fee_rate coins target_amount false
  select_by privacy fee_rate coins target_amount = select_random fee_rate coins target_amount true

  -- CoinChooser::select
  unfoldable pub select : CoinChooser → List Coin → ℕ → Option (Outcome SelectionResult)
  select chooser [] target_amount = some (err no_coins)
  select chooser (c ∷ coins) target_amount =
      select_by chooser.strategy chooser.fee_rate (c ∷ coins) target_amount
