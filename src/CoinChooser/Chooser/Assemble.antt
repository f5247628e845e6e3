-- ===== src/CoinChooser/Chooser/Assemble.antt =====
-- `assemble_result` and the scoring loop of core/coinchooser.rs.
use electrum_sv_mc.Prelude.{ℕ, ◌/◌, ◌+◌, ◌-◌, ◌*◌, ◌^◌, ◌≤◌, ◌<◌, ◌≡◌, refl, ◌∙◌}
use electrum_sv_mc.Prelude.{◌≢◌, false}
use electrum_sv_mc.Prelude.{List, [], ◌∷◌, arith, ltb, if◌then◌else◌}
use electrum_sv_mc.Prelude.{ok}
use electrum_sv_mc.Prelude.{leb→le}
use electrum_sv_mc.Prelude.{length}
use electrum_sv_mc.Prelude.{sum_of-append}
use electrum_sv_mc.Prelude.Word.{wrap}
use electrum_sv_mc.CoinChooser.Types.{Coin, coin_value, coin_size, SelectionResult, wrap_sum}
use electrum_sv_mc.CoinChooser.Random.{Bucket, bucket_value, bucket_size, sufficient_funds}
use electrum_sv_mc.CoinChooser.Random.Candidates.{AreBuckets, IsCandidate}
use electrum_sv_mc.CoinChooser.Chooser.{bucket_coins, assemble_coins, assemble_result, best_index}

bucket_coins-sums :
    (bks : List Bucket)
    → AreBuckets bks
    → (wrap_sum coin_value (bucket_coins bks) ≡ wrap_sum bucket_value bks)
      × (wrap_sum coin_size (bucket_coins bks) ≡ wrap_sum bucket_size bks)
bucket_coins-sums [] h = (refl, refl)
bucket_coins-sums (b ∷ bks) (hb, hbs) = omega (
  arith,
  bucket_coins-sums bks hbs,
  sum_of-append coin_value b.coins (bucket_coins bks),
  sum_of-append coin_size b.coins (bucket_coins bks),
)

-- What `assemble_coins` returns for the coins that suffice.
abbrev pub assembled : ℕ → ℕ → List Coin → SelectionResult
assembled fee_rate target_amount coins =
    let fee = wrap (wrap (10 + wrap_sum coin_size coins) * fee_rate) in
    record {
      coins = coins;
      total_input = wrap_sum coin_value coins;
      fee = fee;
      change = wrap (wrap (wrap_sum coin_value coins + 2 ^ 64 - target_amount) + 2 ^ 64 - fee);
    }

-- The amount to be covered, computed from the coins.
abbrev required : ℕ → ℕ → List Coin → ℕ
required fee_rate target_amount coins =
    wrap (target_amount + wrap (wrap (10 + wrap_sum coin_size coins) * fee_rate))

candidate_covers :
    (fee_rate target_amount : ℕ) {given : List Bucket} (cand : List Bucket)
    → IsCandidate fee_rate target_amount given cand
    → required fee_rate target_amount (bucket_coins cand) ≤ wrap_sum coin_value (bucket_coins cand)
unfolding sufficient_funds
candidate_covers fee_rate target_amount cand c =
    let (v, z) = bucket_coins-sums cand c.whole in rw (v, z) (leb→le _ _ c.enough)

lt_false : (a b : ℕ) → b ≤ a → ltb a b ≡ false
lt_false a b h = ground arith

assemble_coins-candidate :
    (fee_rate target_amount : ℕ) {given : List Bucket} (cand : List Bucket)
    → IsCandidate fee_rate target_amount given cand
    → assemble_coins fee_rate target_amount (bucket_coins cand)
      ≡ ok (assembled fee_rate target_amount (bucket_coins cand))
unfolding assemble_coins
assemble_coins-candidate fee_rate target_amount cand c =
    rw (lt_false _ _ (candidate_covers fee_rate target_amount cand c))

some_coins :
    (fee_rate target_amount : ℕ) {given : List Bucket} (cand : List Bucket)
    → 0 < target_amount
    → target_amount + 10 * fee_rate < 2 ^ 64
    → IsCandidate fee_rate target_amount given cand
    → bucket_coins cand ≢ []
some_coins fee_rate target_amount cand pos small c e =
    let h : required fee_rate target_amount [] ≤ 0 =
      rw e at (candidate_covers fee_rate target_amount cand c) in
    absurd (omega arith)

assemble_result_cons :
    (fee_rate target_amount : ℕ) (cand : List Bucket)
    → bucket_coins cand ≢ []
    → assemble_result fee_rate cand target_amount
      ≡ assemble_coins fee_rate target_amount (bucket_coins cand)
unfolding assemble_result
assemble_result_cons fee_rate target_amount cand h = ground arith

-- A choice of buckets that suffices is assembled into a result.
pub assemble_result-candidate :
    (fee_rate target_amount : ℕ) {given : List Bucket} (cand : List Bucket)
    → 0 < target_amount
    → target_amount + 10 * fee_rate < 2 ^ 64
    → IsCandidate fee_rate target_amount given cand
    → assemble_result fee_rate cand target_amount
      ≡ ok (assembled fee_rate target_amount (bucket_coins cand))
assemble_result-candidate fee_rate target_amount cand pos small c =
    assemble_result_cons fee_rate target_amount cand
      (some_coins fee_rate target_amount cand pos small c)
    ∙ assemble_coins-candidate fee_rate target_amount cand c

-- The scoring loop returns a position in the list.
pub best_index-lt :
    (penalty : List Bucket → ℕ) (n i best best_penalty : ℕ) (l : List (List Bucket))
    → best < n
    → i + length l ≤ n
    → best_index penalty i best best_penalty l < n
unfolding best_index
best_index-lt penalty n i best best_penalty [] h k = h
best_index-lt penalty n i best best_penalty (c ∷ l) h k = ground (
  arith,
  best_index-lt penalty n (i + 1) (if ltb (penalty c) best_penalty then i else best)
      (if ltb (penalty c) best_penalty then penalty c else best_penalty) l,
)

-- The divisor of `penalty_privacy` at the change that `penalty` allows.
max_change-divides : (target_amount : ℕ) → 0 < wrap (wrap (target_amount * 3) / 2 + 10000)
max_change-divides target_amount = omega arith
