-- ===== src/Transaction/Select/Laws.antt =====
-- What CoinSelector::select of core/transaction.rs guarantees.
use electrum_sv_mc.Prelude.{ℕ, ◌+◌, ◌-◌, ◌^◌, ◌≤◌, ◌<◌, ◌≡◌, refl, ap, ◌∙◌}
use electrum_sv_mc.Prelude.{inl, inr}
use electrum_sv_mc.Prelude.{List, [], ◌∷◌, arith, ltb}
use electrum_sv_mc.Prelude.{ok, err, >>=-eq-ok, Bool-cases}
use electrum_sv_mc.Prelude.{ltb→lt, ltb-false}
use electrum_sv_mc.Prelude.{length, take, sum_of}
use electrum_sv_mc.Prelude.{length-take}
use electrum_sv_mc.Prelude.Word.{wrap}
use electrum_sv_mc.Prelude.Sort.{
  sort_desc, sum_of-sort_desc, length-sort_desc, Part, Part-sort_desc,
}
use electrum_sv_mc.Transaction.Types.{SelectedUtxo, utxo_value, CoinSelectionResult}
use electrum_sv_mc.Transaction.Types.{insufficient_funds}
use electrum_sv_mc.Transaction.Select.{accumulate, conclude, select_sorted, select}
use electrum_sv_mc.Transaction.Select.Reach.{
  reach, reach-le-length, reach-pos, reach_mono, reach_covers,
}
use electrum_sv_mc.Transaction.Select.Reach.{
  reach_short, reach_least, accumulate-reach, accumulate-ok,
}

-- The coins in the order of the loop.
abbrev pub by_value : List SelectedUtxo → List SelectedUtxo
by_value us = sort_desc utxo_value us

abbrev pub total : List SelectedUtxo → ℕ
total = sum_of utxo_value

-- What `select_sorted` returns when it succeeds.
pub record IsCover (sorted : List SelectedUtxo) (target fee : ℕ) (r : CoinSelectionResult)
    : Type 0 where
  pub taken : r.selected ≡ take (reach (target + fee) 0 sorted) sorted
  pub input : r.total_input ≡ total r.selected
  pub balance : r.total_input ≡ target + r.fee + r.change
  pub output : r.total_output ≡ target + r.change
  pub paid : r.fee ≡ fee
  pub fits : r.total_input < 2 ^ 64

pub conclude-ok :
    (target fee : ℕ) (s : List SelectedUtxo) (a : ℕ) (r : CoinSelectionResult)
    → a < 2 ^ 64
    → conclude target fee (target + fee) (s, a) ≡ ok r
    → (r.selected ≡ s)
      × (r.total_input ≡ a)
      × (a ≡ target + r.fee + r.change)
      × (r.total_output ≡ target + r.change)
      × (r.fee ≡ fee)
unfolding conclude
conclude-ok target fee s a r b h = elim (Bool-cases (ltb a (target + fee))) [
  | inl e ↦ cc (rw e at h)
  | inr e ↦ ground arith
]

-- The stages of a successful run.
pub select_sorted_stages :
    (sorted : List SelectedUtxo) (target fee : ℕ) (r : CoinSelectionResult)
    → select_sorted sorted target fee ≡ ok r
    → (p : List SelectedUtxo × ℕ) × (accumulate (target + fee) 0 [] sorted ≡ ok p)
      × (conclude target fee (target + fee) p ≡ ok r)
unfolding select_sorted
select_sorted_stages sorted target fee r h = elim (Bool-cases (ltb (target + fee) (2 ^ 64))) [
  | inl e ↦ >>=-eq-ok (accumulate (target + fee) 0 [] sorted) _ (rw e at h)
  | inr e ↦ cc (rw e at h)
]

pub select_sorted-ok :
    (sorted : List SelectedUtxo) (target fee : ℕ) (r : CoinSelectionResult)
    → select_sorted sorted target fee ≡ ok r
    → IsCover sorted target fee r
select_sorted-ok sorted target fee r h =
    let (p, run, fin) = select_sorted_stages sorted target fee r h in
    let (s, a) = p in
    let (taken, value, fits) = accumulate-ok (target + fee) 0 [] sorted s a (omega arith) run in
    let (same, input, balance, output, paid) = conclude-ok target fee s a r fits fin in
    record {
      taken = same ∙ taken;
      input = ground (arith, ap total same, ap total taken);
      balance = omega arith;
      output = output;
      paid = paid;
      fits = omega arith;
    }

-- Without overflow the outcome is decided by the value of all coins.
pub select_sorted_enough :
    (sorted : List SelectedUtxo) (target fee : ℕ)
    → target + fee ≤ total sorted
    → total sorted < 2 ^ 64
    → (r : CoinSelectionResult) × (select_sorted sorted target fee ≡ ok r)
unfolding select_sorted conclude
select_sorted_enough sorted target fee h b =
    let k : List SelectedUtxo = take (reach (target + fee) 0 sorted) sorted in
    (
      record {
        selected = k;
        total_input = total k;
        total_output = wrap (target + (total k - (target + fee)));
        fee = fee;
        change = total k - (target + fee);
      },
      ground (
        arith,
        accumulate-reach (target + fee) 0 [] sorted,
        reach_covers (target + fee) 0 sorted,
      ),
    )

pub select_sorted_short :
    (sorted : List SelectedUtxo) (target fee : ℕ)
    → target + fee < 2 ^ 64
    → total sorted < target + fee
    → select_sorted sorted target fee ≡ err (insufficient_funds (target + fee) (total sorted))
unfolding select_sorted conclude
select_sorted_short sorted target fee h b = ground (
  arith,
  accumulate-reach (target + fee) 0 [] sorted,
  reach_short (target + fee) 0 sorted,
  take_all sorted,
)
  where
    take_all : (l : List SelectedUtxo) → take (length l) l ≡ l
    take_all [] = refl
    take_all (x ∷ l) = rw (take_all l)

length-reach :
    (n acc : ℕ) (us : List SelectedUtxo) → length (take (reach n acc us) us) ≡ reach n acc us
length-reach n acc us = omega (arith, length-take (reach n acc us) us, reach-le-length n acc us)

pub length-IsCover :
    {sorted : List SelectedUtxo} {target fee : ℕ} {r : CoinSelectionResult}
    → IsCover sorted target fee r
    → length r.selected ≡ reach (target + fee) 0 sorted
length-IsCover {sorted} {target} {fee} c = rw (c.taken) (length-reach (target + fee) 0 sorted)

-- `select` sorts whatever is not empty.
pub select_cons :
    (us : List SelectedUtxo) (target fee : ℕ) (r : CoinSelectionResult)
    → select us target fee ≡ ok r
    → select_sorted (by_value us) target fee ≡ ok r
unfolding select
select_cons [] target fee r h = cc
select_cons (u ∷ us) target fee r h = h

-- What a successful selection takes and sums to, by the loop's `reach`.
pub select-IsCover :
    (us : List SelectedUtxo) (target fee : ℕ) (r : CoinSelectionResult)
    → select us target fee ≡ ok r
    → IsCover (by_value us) target fee r
select-IsCover us target fee r h =
    select_sorted-ok (by_value us) target fee r (select_cons us target fee r h)

-- If all coins together stay below 2 ^ 64, a selection from a non-empty list succeeds when they
-- reach payment plus fee; when they fall short of it, and it is below 2 ^ 64 too, the error names
-- both amounts.
pub select_decides :
    (u : SelectedUtxo) (us : List SelectedUtxo) (target fee : ℕ)
    → total (u ∷ us) < 2 ^ 64
    → (target + fee ≤ total (u ∷ us)
        → (r : CoinSelectionResult) × (select (u ∷ us) target fee ≡ ok r))
      × (target + fee < 2 ^ 64
          → total (u ∷ us) < target + fee
          → select (u ∷ us) target fee ≡ err (insufficient_funds (target + fee) (total (u ∷ us))))
unfolding select
select_decides u us target fee b =
    let same : total (by_value (u ∷ us)) ≡ total (u ∷ us) =
      sum_of-sort_desc utxo_value utxo_value (u ∷ us) in
    (
      λ h. select_sorted_enough (by_value (u ∷ us)) target fee (omega arith) (omega arith),
      λ f h.
          select_sorted_short (by_value (u ∷ us)) target fee f (omega arith)
          ∙ ap (λ (t : ℕ). err (insufficient_funds (target + fee) t)) same,
    )

-- If a selection succeeds, any other choice of coins that reaches the positive sum of payment and fee has at least as many
-- coins as the selection.
pub select_fewest :
    (us ys : List SelectedUtxo) (target fee : ℕ) (r : CoinSelectionResult)
    → select us target fee ≡ ok r
    → 0 < target + fee
    → Part ys us
    → target + fee ≤ total ys
    → length r.selected ≤ length ys
select_fewest us ys target fee r h pos part covers =
    elim (Bool-cases (ltb (length ys) (length r.selected))) [
      | inl fewer ↦ absurd (
          omega (
            arith,
            Part-sort_desc utxo_value part,
            reach_least (target + fee) 0 (length ys) (by_value us) pos (
                omega (arith, ltb→lt _ _ fewer, length-IsCover (select-IsCover us target fee r h))),
          ))
      | inr enough ↦ ltb-false _ _ enough
    ]

-- Of two successful selections, the one with the higher fee has no fewer coins.
pub select_mono :
    (us : List SelectedUtxo) (target fee fee' : ℕ) (r r' : CoinSelectionResult)
    → fee ≤ fee'
    → select us target fee ≡ ok r
    → select us target fee' ≡ ok r'
    → length r.selected ≤ length r'.selected
select_mono us target fee fee' r r' le h h' = omega (
  arith,
  length-IsCover (select-IsCover us target fee r h),
  length-IsCover (select-IsCover us target fee' r' h'),
  reach_mono (target + fee) (target + fee') 0 (by_value us) (omega arith),
)

reach_pos_of : (n : ℕ) (l : List SelectedUtxo) → 1 ≤ length l → 1 ≤ reach n 0 l
reach_pos_of n [] h = absurd (omega arith)
reach_pos_of n (x ∷ l) h = reach-pos n 0 x l

-- A selection has at least one coin, and no more than there are.
pub select_pos :
    (us : List SelectedUtxo) (target fee : ℕ) (r : CoinSelectionResult)
    → select us target fee ≡ ok r
    → (1 ≤ length r.selected) × (length r.selected ≤ length us)
select_pos [] target fee r h = unfold select in cc
select_pos (u ∷ us) target fee r h = omega (
  arith,
  length-IsCover (select-IsCover (u ∷ us) target fee r h),
  length-sort_desc utxo_value (u ∷ us),
  reach-le-length (target + fee) 0 (by_value (u ∷ us)),
  reach_pos_of (target + fee) (by_value (u ∷ us)),
)
