-- ===== src/CoinChooser/Chooser/Laws.antt =====
-- What `select_random` and `CoinChooser::select` of core/coinchooser.rs return.
use electrum_sv_mc.Prelude.{ℕ, zero, suc, ◌+◌, ◌-◌, ◌*◌, ◌^◌, ◌≤◌, ◌<◌, ◌≡◌, refl, ap, ◌∙◌}
use electrum_sv_mc.Prelude.{inl, inr, Bool, true, false, Option, none, some}
use electrum_sv_mc.Prelude.{List, [], ◌∷◌, map, arith, ltb}
use electrum_sv_mc.Prelude.{ok, err, Bool-cases, if-elim}
use electrum_sv_mc.Prelude.{ltb→lt}
use electrum_sv_mc.Prelude.{length, get_elem?, All}
use electrum_sv_mc.Prelude.Word.{wrap}
use electrum_sv_mc.Prelude.Swap.{get_elem?-some}
use mathlib.Core.Path.{subst}
use electrum_sv_mc.Prelude.Sort.{sort_desc, sum_of-sort_desc}
use electrum_sv_mc.CoinChooser.Types.{Coin, Text, coin_value, SelectionResult, Outcome}
use electrum_sv_mc.CoinChooser.Types.{no_coins, overflow, CoinChooser}
use electrum_sv_mc.CoinChooser.Types.{
  Strategy, branch_and_bound, random_subset, privacy, change_output_cost,
}
use electrum_sv_mc.CoinChooser.Prng.{from_coins}
use electrum_sv_mc.CoinChooser.Prng.Laws.{IsReady}
use electrum_sv_mc.CoinChooser.Bnb.{
  select_bnb, finish_bnb, search, fallback_largest_first, pick, matched,
}
use electrum_sv_mc.CoinChooser.Bnb.Best.{value, BestIs}
use electrum_sv_mc.CoinChooser.Bnb.Match.{search-BestIs}
use electrum_sv_mc.CoinChooser.Random.{Bucket, sufficient_funds, new_bucket}
use electrum_sv_mc.CoinChooser.Random.{group_coins, entry_push, bucket_candidates}
use electrum_sv_mc.CoinChooser.Random.Candidates.{AreBuckets, IsCandidate, bucket_candidates_total}
use electrum_sv_mc.CoinChooser.Chooser.{bucket_coins, assemble_result, best_index, penalty}
use electrum_sv_mc.CoinChooser.Chooser.{settle, bucketize, select_random, select_by, select}
use electrum_sv_mc.CoinChooser.Chooser.Assemble.{
  assembled, assemble_result-candidate, best_index-lt,
}

All-get {ℓ} :
    (P : List Bucket → Type ℓ) (l : List (List Bucket)) (i : ℕ) (c : List Bucket)
    → All P l
    → get_elem? l i ≡ some c
    → P c
All-get P [] i c h e = cc
All-get P (d ∷ l) zero c (hd, hl) e = let same : d ≡ c = cc in subst P same hd
All-get P (d ∷ l) (suc i) c (hd, hl) e = All-get P l i c hl e

-- A result for coins of the given buckets that suffice.
pub record IsSettled (fee_rate target_amount : ℕ) (given : List Bucket)
    (o : Option (Outcome SelectionResult)) : Type 0 where
  pub buckets : List Bucket
  pub candidate : IsCandidate fee_rate target_amount given buckets
  pub result : o ≡ some (ok (assembled fee_rate target_amount (bucket_coins buckets)))

settle_cons :
    (fee_rate target_amount : ℕ) (privately : Bool) (buckets cand : List Bucket)
    (rest : List (List Bucket)) (winner : List Bucket)
    → get_elem?
        (cand ∷ rest)
        (best_index (penalty privately target_amount) 0 0 (2 ^ 64 - 1) (cand ∷ rest))
      ≡ some winner
    → settle fee_rate target_amount privately buckets (cand ∷ rest)
      ≡ some (assemble_result fee_rate winner target_amount)
unfolding settle
settle_cons fee_rate target_amount privately buckets cand rest winner e = rw (e, settle)

pub settle_some :
    (fee_rate target_amount : ℕ) (privately : Bool) (buckets : List Bucket)
    (candidates : List (List Bucket))
    → 0 < target_amount
    → target_amount + 10 * fee_rate < 2 ^ 64
    → IsCandidate fee_rate target_amount buckets buckets
    → All (IsCandidate fee_rate target_amount buckets) candidates
    → IsSettled fee_rate target_amount buckets
        (settle fee_rate target_amount privately buckets candidates)
settle_some fee_rate target_amount privately buckets [] pos small c all = record {
  buckets = buckets;
  candidate = c;
  result =
      unfold settle in
      rw (c.enough, assemble_result-candidate fee_rate target_amount buckets pos small c);
}
settle_some fee_rate target_amount privately buckets (cand ∷ rest) pos small c all =
    let score = penalty privately target_amount in
    let best = best_index score 0 0 (2 ^ 64 - 1) (cand ∷ rest) in
    let (winner, e) = get_elem?-some (cand ∷ rest) best (
      best_index-lt score (length (cand ∷ rest)) 0 0 (2 ^ 64 - 1) (cand ∷ rest) (omega arith)
        (omega arith)) in
    let w = All-get (IsCandidate fee_rate target_amount buckets) (cand ∷ rest) best winner all e in
    record {
      buckets = winner;
      candidate = w;
      result =
          settle_cons fee_rate target_amount privately buckets cand rest winner e
          ∙ ap some (assemble_result-candidate fee_rate target_amount winner pos small w);
    }

AreBuckets-new : (l : List (ℕ × List Coin)) → AreBuckets (map new_bucket l)
unfolding new_bucket
AreBuckets-new [] = tt
AreBuckets-new ((k, coins) ∷ l) = (record { summed = refl; sized = refl }, AreBuckets-new l)

length-map_new : (l : List (ℕ × List Coin)) → length (map new_bucket l) ≡ length l
length-map_new [] = refl
length-map_new (x ∷ l) = ap suc (length-map_new l)

length-entry_push :
    (k : ℕ) (c : Coin) (l : List (ℕ × List Coin)) → length (entry_push k c l) ≤ suc (length l)
unfolding entry_push
length-entry_push k c [] = omega arith
length-entry_push k c ((j, g) ∷ l) = ground (arith, length-entry_push k c l)

length-group_coins :
    (coins : List Coin) (l : List (ℕ × List Coin))
    → length (group_coins coins l) ≤ length coins + length l
unfolding group_coins
length-group_coins [] l = omega arith
length-group_coins (c ∷ coins) l = omega (
  arith,
  length-group_coins coins (entry_push c.keyinstance_id c l),
  length-entry_push c.keyinstance_id c l,
)

pub finish_bnb_match :
    (fee_rate : ℕ) (coins sorted : List Coin) (target : ℕ) (indices : List ℕ) (cs : List Coin)
    → pick sorted indices ≡ some cs
    → finish_bnb fee_rate coins sorted target (some indices)
      ≡ some (ok (matched fee_rate target cs))
unfolding finish_bnb
finish_bnb_match fee_rate coins sorted target indices cs e = rw (e, finish_bnb)

finish_bnb_total :
    (fee_rate : ℕ) (coins sorted : List Coin) (target twc excess : ℕ) (best : Option (List ℕ))
    → BestIs sorted target twc best excess
    → (o : Outcome SelectionResult) × (finish_bnb fee_rate coins sorted target best ≡ some o)
finish_bnb_total fee_rate coins sorted target twc excess none h =
    (fallback_largest_first fee_rate coins target, unfold finish_bnb in refl)
finish_bnb_total fee_rate coins sorted target twc excess (some indices) h = (
  ok (matched fee_rate target h.coins),
  finish_bnb_match fee_rate coins sorted target indices h.coins h.picked,
)

pub select_bnb_cases :
    (fee_rate : ℕ) (coins : List Coin) (target : ℕ) (P : Option (Outcome SelectionResult) → Type 0)
    → P (some (err overflow))
    → ((twc : ℕ)
        → twc ≡ target + wrap (change_output_cost * fee_rate)
        → twc < 2 ^ 64
        → P (
            finish_bnb fee_rate coins
              (sort_desc coin_value coins)
              target
              (search (sort_desc coin_value coins) target twc).best))
    → P (select_bnb fee_rate coins target)
unfolding select_bnb
select_bnb_cases fee_rate coins target P a b =
    elim (Bool-cases (ltb (target + wrap (change_output_cost * fee_rate)) (2 ^ 64))) [
      | inl e ↦ rw (e, select_bnb) (b _ refl (ltb→lt _ _ e))
      | inr e ↦ rw (e, select_bnb) a
    ]

select_bnb_total :
    (fee_rate : ℕ) (coins : List Coin) (target : ℕ)
    → value coins < 2 ^ 64
    → (o : Outcome SelectionResult) × (select_bnb fee_rate coins target ≡ some o)
select_bnb_total fee_rate coins target v =
    select_bnb_cases fee_rate coins target (λ s. (o : Outcome SelectionResult) × (s ≡ some o))
      (err overflow, refl)
      λ twc e b. finish_bnb_total fee_rate coins (sort_desc coin_value coins) target twc _ _ (
        search-BestIs (sort_desc coin_value coins) target twc
          (omega (arith, sum_of-sort_desc coin_value coin_value coins)))

-- SHA-256 returns 32 bytes, and the iteration of a map yields each entry once.
module _ (sha256 : Text → Text) (iterated : List (ℕ × List Coin) → List (ℕ × List Coin))
    (len32 : (t : Text) → length (sha256 t) ≡ 32)
    (once : (l : List (ℕ × List Coin)) → length (iterated l) ≡ length l) where
  pub from_coins-IsReady : (coins : List Coin) → IsReady (from_coins sha256 coins)
  unfolding from_coins
  from_coins-IsReady coins = len32 _

  pub bucketize-AreBuckets : (coins : List Coin) → AreBuckets (bucketize sha256 iterated coins)
  unfolding bucketize
  bucketize-AreBuckets coins = AreBuckets-new _

  pub length-bucketize :
      (coins : List Coin) → length (bucketize sha256 iterated coins) ≤ length coins
  unfolding bucketize
  length-bucketize coins = omega (
    arith,
    length-map_new (iterated (group_coins coins [])),
    once (group_coins coins []),
    length-group_coins coins [],
  )

  pub select_random_step :
      (fee_rate target_amount : ℕ) (coins : List Coin) (privately : Bool) (l : List (List Bucket))
      → bucket_candidates sha256
          (bucketize sha256 iterated coins)
          (sufficient_funds fee_rate target_amount)
          (from_coins sha256 coins)
        ≡ some l
      → select_random sha256 iterated fee_rate coins target_amount privately
        ≡ settle fee_rate target_amount privately (bucketize sha256 iterated coins) l
  unfolding select_random
  select_random_step fee_rate target_amount coins privately l e = rw (e, select_random)

  settle_total :
      (fee_rate target_amount : ℕ) (privately : Bool) (buckets : List Bucket)
      (candidates : List (List Bucket))
      → (o : Outcome SelectionResult) × (settle fee_rate target_amount privately buckets candidates
          ≡ some o)
  settle_total fee_rate target_amount privately buckets [] =
      unfold settle in
      if-elim (λ s. (o : Outcome SelectionResult) × (s ≡ some o))
        (sufficient_funds fee_rate target_amount buckets) _ _ (λ _. (_, refl)) (λ _. (_, refl))
  settle_total fee_rate target_amount privately buckets (cand ∷ rest) =
      let score = penalty privately target_amount in
      let best = best_index score 0 0 (2 ^ 64 - 1) (cand ∷ rest) in
      let (winner, e) = get_elem?-some (cand ∷ rest) best (
        best_index-lt score (length (cand ∷ rest)) 0 0 (2 ^ 64 - 1) (cand ∷ rest) (omega arith)
          (omega arith)) in
      (
        assemble_result fee_rate winner target_amount,
        settle_cons fee_rate target_amount privately buckets cand rest winner e,
      )

  select_random_total :
      (fee_rate target_amount : ℕ) (coins : List Coin) (privately : Bool)
      → length coins ≤ 2 ^ 32
      → (o : Outcome SelectionResult) × (select_random sha256 iterated fee_rate coins target_amount
            privately
          ≡ some o)
  select_random_total fee_rate target_amount coins privately b =
      let buckets = bucketize sha256 iterated coins in
      let (l, e, all) =
        bucket_candidates_total fee_rate target_amount sha256 len32 buckets
          (from_coins sha256 coins) (bucketize-AreBuckets coins) (from_coins-IsReady coins)
          (omega (arith, length-bucketize coins)) in
      rw (select_random_step fee_rate target_amount coins privately l e)
        (settle_total fee_rate target_amount privately buckets l)

  -- With a hash of 32 bytes and a map that yields as many entries as it holds, and of up to 2 ^
  -- 32 coins worth less than 2 ^ 64 together, every strategy returns a result or an error,
  -- and does not panic.
  pub select_total :
      (chooser : CoinChooser) (coins : List Coin) (target_amount : ℕ)
      → length coins ≤ 2 ^ 32
      → value coins < 2 ^ 64
      → (o : Outcome SelectionResult) × (select sha256 iterated chooser coins target_amount
          ≡ some o)
  select_total chooser [] target_amount b v = (err no_coins, unfold select in refl)
  select_total chooser (c ∷ coins) target_amount b v = unfold select in by_strategy chooser.strategy
    where
      by_strategy :
          (s : Strategy)
          → (o : Outcome SelectionResult) × (select_by sha256 iterated s chooser.fee_rate
                (c ∷ coins)
                target_amount
              ≡ some o)
      by_strategy branch_and_bound =
          unfold select_by in select_bnb_total chooser.fee_rate (c ∷ coins) target_amount v
      by_strategy random_subset =
          unfold select_by in select_random_total chooser.fee_rate target_amount (c ∷ coins) false b
      by_strategy privacy =
          unfold select_by in select_random_total chooser.fee_rate target_amount (c ∷ coins) true b
