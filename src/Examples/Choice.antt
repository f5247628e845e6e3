-- ===== src/Examples/Choice.antt =====
-- Runs of the coin chooser, core/coinchooser.rs.
use electrum_sv_mc.Prelude.{ℕ, ◌-◌, ◌≤◌, ◌<◌, ◌≡◌, refl}
use electrum_sv_mc.Prelude.{true, false, some}
use electrum_sv_mc.Prelude.{List, [], ◌∷◌, arith}
use electrum_sv_mc.Prelude.{length, replicate, All}
use electrum_sv_mc.CoinChooser.Types.{Text, Coin, CoinChooser, SelectionResult, Outcome, privacy}
use electrum_sv_mc.CoinChooser.Bnb.{search, bnb_recursive}
use electrum_sv_mc.CoinChooser.Bnb.Best.{BestIs}
use electrum_sv_mc.CoinChooser.Bnb.Match.{search-BestIs}
use electrum_sv_mc.CoinChooser.Bnb.Closest.{search_closest}
use electrum_sv_mc.CoinChooser.Prng.{Prng, shuffle, randint}
use electrum_sv_mc.CoinChooser.Prng.Laws.{IsReady, shuffle-perm, randint_in_range}
use electrum_sv_mc.CoinChooser.Random.{
  Bucket, new_bucket, sufficient_funds, strip_unneeded, bucket_candidates, group_coins,
}
use electrum_sv_mc.CoinChooser.Random.Strip.{strip_unneeded-sufficient}
use electrum_sv_mc.CoinChooser.Random.Candidates.{AreBuckets, IsCandidate, bucket_candidates_total}
use electrum_sv_mc.CoinChooser.Chooser.{bucket_coins, bucketize, select, select_random}
use electrum_sv_mc.CoinChooser.Chooser.Laws.{IsSettled, select_total}
use electrum_sv_mc.CoinChooser.Chooser.Settled.{select_random_settles}
use electrum_sv_mc.CoinChooser.Random.Drawn.{IsDrawn}
use mathlib.Core.List.Perm
use mathlib.Core.List.{Perm}
use electrum_sv_mc.Prelude.Sort.{done, keep, skip}

abbrev coin : ℕ → ℕ → Coin
coin index value = record {
  tx_hash_hex = 97 ∷ [];
  tx_index = index;
  value = value;
  keyinstance_id = index;
  estimated_size = 148;
}

abbrev coins : List Coin
coins = coin 0 6000 ∷ coin 1 3000 ∷ coin 2 1000 ∷ []

search-BestIs_example :
    BestIs coins 4000 4034 (search coins 4000 4034).best (search coins 4000 4034).best_excess
search-BestIs_example = search-BestIs coins 4000 4034 (omega arith)

few_rounds : (search coins 4000 4034).rounds < 100000
unfolding search bnb_recursive
few_rounds = omega arith

search_closest_example : (search coins 4000 4034).best_excess ≤ 4000 - 4000
search_closest_example =
    search_closest coins (coin 1 3000 ∷ coin 2 1000 ∷ []) 4000 4034 (omega arith) few_rounds
      (skip (keep (keep done))) (omega arith) (omega arith)

abbrev zeros : Text → Text
zeros t = replicate 32 0

abbrev same : {A : Type 0} → A → A
same a = a

zeros-length : (t : Text) → length (zeros t) ≡ 32
zeros-length t = refl

same-length : (l : List (ℕ × List Coin)) → length (same l) ≡ length l
same-length l = refl

abbrev prng : Prng
prng = record { state = replicate 32 0; pool = [] }

shuffle-perm_example :
    (l' : List ℕ) × (g' : Prng) × (shuffle zeros (1 ∷ 2 ∷ 3 ∷ []) prng ≡ some (l', g'))
    × IsReady g'
    × Perm l' (1 ∷ 2 ∷ 3 ∷ [])
    × (length l' ≡ 3)
shuffle-perm_example = shuffle-perm zeros zeros-length (1 ∷ 2 ∷ 3 ∷ []) prng refl (omega arith)

randint_in_range_example :
    (j : ℕ) × (g' : Prng) × (randint zeros 0 5 prng ≡ some (j, g')) × IsReady g' × (j < 5)
randint_in_range_example =
    randint_in_range zeros zeros-length 5 prng refl (omega arith) (omega arith)

abbrev bucket : ℕ → ℕ → Bucket
bucket index value = record {
  desc = index;
  size = 148;
  value = value;
  coins = coin index value ∷ [];
}

abbrev buckets : List Bucket
buckets = bucket 0 6000 ∷ bucket 1 3000 ∷ bucket 2 1000 ∷ []

enough_run : sufficient_funds 1 5000 buckets ≡ true
unfolding sufficient_funds
enough_run = refl

strip_unneeded-sufficient_example :
    sufficient_funds 1 5000 (strip_unneeded (sufficient_funds 1 5000) buckets) ≡ true
strip_unneeded-sufficient_example = strip_unneeded-sufficient 1 5000 buckets enough_run

none_run : sufficient_funds 1 5000 [] ≡ false
unfolding sufficient_funds
none_run = refl

are_buckets : AreBuckets buckets
are_buckets = (
  record { summed = refl; sized = refl },
  (record { summed = refl; sized = refl }, (record { summed = refl; sized = refl }, tt)),
)

bucket_candidates_total_example :
    (l : List (List Bucket)) × (bucket_candidates zeros buckets (sufficient_funds 1 5000) prng
      ≡ some l)
    × All (IsCandidate 1 5000 buckets) l
bucket_candidates_total_example =
    bucket_candidates_total 1 5000 zeros zeros-length buckets prng are_buckets refl (omega arith)

chosen_run : sufficient_funds 1 5000 (bucketize zeros same coins) ≡ true
unfolding bucketize sufficient_funds group_coins new_bucket
chosen_run = refl

same-perm : (l : List (ℕ × List Coin)) → Perm (same l) l
same-perm l = Perm.refl l

select_random_settles_example :
    (s : IsSettled 1 5000 (bucketize zeros same coins) (select_random zeros same 1 coins 5000 true))
    × IsDrawn coins (bucket_coins s.buckets)
select_random_settles_example =
    select_random_settles zeros same zeros-length same-perm 1 5000 coins true (omega arith)
      (omega arith) (omega arith) chosen_run

abbrev chooser : CoinChooser
chooser = record { strategy = privacy; fee_rate = 1 }

select_total_example :
    (o : Outcome SelectionResult) × (select zeros same chooser coins 5000 ≡ some o)
select_total_example =
    select_total zeros same zeros-length same-length chooser coins 5000 (omega arith) (omega arith)
