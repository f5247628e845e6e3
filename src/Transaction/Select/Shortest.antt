-- ===== src/Transaction/Select/Shortest.antt =====
-- The part of the coins that CoinSelector::select of core/transaction.rs takes, by what it sums to.
use electrum_sv_mc.Prelude.{ℕ, zero, suc, ◌+◌, ◌^◌, ◌≤◌, ◌<◌, ◌≡◌, sym, ap, ◌∙◌}
use electrum_sv_mc.Prelude.{List, [], ◌∷◌, arith}
use electrum_sv_mc.Prelude.{ok, le→leb}
use electrum_sv_mc.Prelude.{length, take}
use electrum_sv_mc.Transaction.Types.{SelectedUtxo, CoinSelectionResult}
use electrum_sv_mc.Transaction.Select.{select}
use electrum_sv_mc.Transaction.Select.Reach.{reach, reach_least}
use electrum_sv_mc.Transaction.Select.Laws.{
  by_value, total, select-IsCover, length-IsCover, select_pos,
}

-- The result takes the first coins of the list, at least one; they reach payment and fee, and no smaller number of
-- first coins, of those with at least one coin, does. Its figures are the exact sums.
pub record IsShortest (sorted : List SelectedUtxo) (target fee : ℕ) (r : CoinSelectionResult)
    : Type 0 where
  pub first : r.selected ≡ take (length r.selected) sorted
  pub some_coin : 1 ≤ length r.selected
  pub reaches : target + fee ≤ total r.selected
  pub shortest : (k : ℕ) → 1 ≤ k → k < length r.selected → total (take k sorted) < target + fee
  pub input : r.total_input ≡ total r.selected
  pub balance : r.total_input ≡ target + fee + r.change
  pub output : r.total_output ≡ target + r.change
  pub paid : r.fee ≡ fee
  pub fits : r.total_input < 2 ^ 64

reach-at_once : (us : List SelectedUtxo) → reach 0 0 us ≤ 1
unfolding reach
reach-at_once [] = omega arith
reach-at_once (u ∷ us) = rw (le→leb 0 (0 + u.satoshis) (omega arith)) (omega arith)

below_reach :
    (needed k : ℕ) (us : List SelectedUtxo)
    → 1 ≤ k
    → k < reach needed 0 us
    → total (take k us) < needed
below_reach zero k us pos h = absurd (omega (arith, reach-at_once us))
below_reach (suc n) k us pos h = omega (arith, reach_least (suc n) 0 k us (omega arith) h)

-- A successful selection takes the first coins, largest first, and at least one: they reach payment and fee, and no
-- fewer of them, down to one, do. Input is payment plus the requested fee plus change, and no sum has wrapped.
pub select-IsShortest :
    (us : List SelectedUtxo) (target fee : ℕ) (r : CoinSelectionResult)
    → select us target fee ≡ ok r
    → IsShortest (by_value us) target fee r
select-IsShortest us target fee r h =
    let c = select-IsCover us target fee r h in
    let size = length-IsCover c in
    record {
      first = c.taken ∙ ap (λ (n : ℕ). take n (by_value us)) (sym size);
      some_coin = (select_pos us target fee r h).0;
      reaches = omega (arith, c.input, c.balance, c.paid);
      shortest =
          λ k pos less. below_reach (target + fee) k (by_value us) pos (omega (arith, size, less));
      input = c.input;
      balance = omega (arith, c.balance, c.paid);
      output = c.output;
      paid = c.paid;
      fits = c.fits;
    }
