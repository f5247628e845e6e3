-- ===== src/CoinChooser/Bnb/Closest.antt =====
-- The search of core/coinchooser.rs, where its rounds suffice, misses no closer match.
use electrum_sv_mc.Prelude.{ℕ, ◌+◌, ◌-◌, ◌^◌, ◌≤◌, ◌<◌, ◌≡◌}
use electrum_sv_mc.Prelude.{List, [], ◌∷◌, arith}
use electrum_sv_mc.Prelude.Sort.{Part, done, keep, skip}
use electrum_sv_mc.Prelude.Parts.{sum_of-Part}
use electrum_sv_mc.CoinChooser.Types.{Coin, coin_value, bnb_max_rounds}
use electrum_sv_mc.CoinChooser.Bnb.{SearchState, tick, improve, push, pop, bnb_recursive}
use electrum_sv_mc.CoinChooser.Bnb.{start_state, search}
use electrum_sv_mc.CoinChooser.Bnb.Search.{improve-tick-Restores, bnb-Restores}
use electrum_sv_mc.CoinChooser.Bnb.Best.{value}
use electrum_sv_mc.CoinChooser.Bnb.Match.{bnb_cases}

-- A path that is worth enough leaves an excess no larger than its own.
improve_excess :
    (target : ℕ) (s : SearchState)
    → target ≤ s.current_value
    → (improve target (tick s)).best_excess ≤ s.current_value - target
unfolding improve
improve_excess target s h = ground arith

module _ (target target_with_change w : ℕ) (lo : target ≤ w) (hi : w ≤ target_with_change) where
  -- If the rounds sufficed, the excess is no larger than that of the worth `w`.
  abbrev Closes : SearchState → Type 0
  Closes t = t.rounds < bnb_max_rounds → t.best_excess ≤ w - target

  leaf-Closes :
      (start : ℕ) (s : SearchState)
      → s.current_value ≡ w
      → Closes (bnb_recursive target target_with_change start [] s)
  unfolding bnb_recursive
  leaf-Closes start s e = ground (arith, improve_excess target s)

  branch-Closes :
      (start : ℕ) (c : Coin) (rest : List Coin) (s : SearchState)
      → s.current_value ≤ w
      → w ≤ s.current_value + value (c ∷ rest)
      → s.current_value + value (c ∷ rest) < 2 ^ 64
      → Closes (
          bnb_recursive target target_with_change (start + 1) rest (
            pop (improve target (tick s)).current_value (
              bnb_recursive target target_with_change
                (start + 1)
                rest
                (push start c (improve target (tick s))))))
      → Closes (bnb_recursive target target_with_change start (c ∷ rest) s)
  branch-Closes start c rest s below above b deep =
      let same = (improve-tick-Restores target s).value in
      bnb_cases target target_with_change start c rest s Closes (λ a n. absurd (omega arith))
        (λ a n. absurd (omega arith)) (λ a cut n. absurd (omega arith)) (λ a. deep)

  bnb-Closes :
      (start : ℕ) {rest zs : List Coin} (s : SearchState)
      → Part zs rest
      → s.current_value + value rest < 2 ^ 64
      → s.current_value + value zs ≡ w
      → Closes (bnb_recursive target target_with_change start rest s)
  bnb-Closes start s done b e = leaf-Closes start s (omega arith)
  bnb-Closes start s (keep {x = c} {ys = zs} {xs = rest} p) b e =
      let s' = improve target (tick s) in
      let same = (improve-tick-Restores target s).value in
      let taken = bnb_recursive target target_with_change (start + 1) rest (push start c s') in
      let after =
        bnb-Restores target target_with_change (start + 1) rest (pop s'.current_value taken) in
      let ih = bnb-Closes (start + 1) (push start c s') p (omega arith) (omega arith) in
      branch-Closes start c rest s (omega arith) (omega (arith, sum_of-Part coin_value p)) b
        (λ n. omega (arith, after.excess, after.counted, ih (omega (arith, after.counted))))
  bnb-Closes start s (skip {x = c} {ys = zs} {xs = rest} p) b e =
      let s' = improve target (tick s) in
      let same = (improve-tick-Restores target s).value in
      let taken = bnb_recursive target target_with_change (start + 1) rest (push start c s') in
      branch-Closes start c rest s (omega arith) (omega (arith, sum_of-Part coin_value p)) b
        (bnb-Closes (start + 1) (pop s'.current_value taken) p (omega arith) (omega arith))

-- If the coins are worth less than 2 ^ 64 together, and the search ends before its limit of
-- rounds, then no part of the coins that is worth from the
-- target to the target with the cost of change is closer to the target than the recorded excess.
pub search_closest :
    (sorted ys : List Coin) (target target_with_change : ℕ)
    → value sorted < 2 ^ 64
    → (search sorted target target_with_change).rounds < bnb_max_rounds
    → Part ys sorted
    → target ≤ value ys
    → value ys ≤ target_with_change
    → (search sorted target target_with_change).best_excess ≤ value ys - target
unfolding search
search_closest sorted ys target target_with_change b n p lo hi =
    bnb-Closes target target_with_change (value ys) lo hi 0 start_state p (omega arith)
      (omega arith) n
