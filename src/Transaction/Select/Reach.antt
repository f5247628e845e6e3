-- ===== src/Transaction/Select/Reach.antt =====
-- How far the selection loop of core/transaction.rs goes, and what it returns.
use electrum_sv_mc.Prelude.{ℕ, zero, suc, ◌+◌, ◌^◌, ◌≤◌, ◌<◌, ◌≡◌, refl}
use electrum_sv_mc.Prelude.{inl, inr}
use electrum_sv_mc.Prelude.{List, [], ◌∷◌, ◌++◌, arith, leb, if◌then◌else◌}
use electrum_sv_mc.Prelude.{ok, Bool-cases}
use electrum_sv_mc.Prelude.{leb→le, leb-false}
use electrum_sv_mc.Prelude.{length, take, sum_of}
use electrum_sv_mc.Transaction.Types.{SelectedUtxo, utxo_value}
use mathlib.Core.List.{append-nil, append_assoc}
use electrum_sv_mc.Transaction.Select.{accumulate}

-- The number of coins that bring `acc` up to `needed`, or all of them.
unfoldable pub reach : ℕ → ℕ → List SelectedUtxo → ℕ
reach needed acc [] = 0
reach needed acc (u ∷ us) =
    let more = reach needed (acc + u.satoshis) us in
    if leb needed (acc + u.satoshis) then 1 else suc more

pub reach-le-length : (needed acc : ℕ) (us : List SelectedUtxo) → reach needed acc us ≤ length us
unfolding reach
reach-le-length needed acc [] = omega arith
reach-le-length needed acc (u ∷ us) = ground (arith, reach-le-length needed (acc + u.satoshis) us)

pub reach-pos :
    (needed acc : ℕ) (u : SelectedUtxo) (us : List SelectedUtxo) → 1 ≤ reach needed acc (u ∷ us)
unfolding reach
reach-pos needed acc u us = ground arith

pub reach_mono : (n m acc : ℕ) (us : List SelectedUtxo) → n ≤ m → reach n acc us ≤ reach m acc us
unfolding reach
reach_mono n m acc [] h = omega arith
reach_mono n m acc (u ∷ us) h = ground (arith, reach_mono n m (acc + u.satoshis) us h)

pub reach_covers :
    (needed acc : ℕ) (us : List SelectedUtxo)
    → needed ≤ acc + sum_of utxo_value us
    → needed ≤ acc + sum_of utxo_value (take (reach needed acc us) us)
unfolding reach
reach_covers needed acc [] h = h
reach_covers needed acc (u ∷ us) h = elim (Bool-cases (leb needed (acc + u.satoshis))) [
  | inl e ↦ rw e (omega (arith, leb→le needed (acc + u.satoshis) e))
  | inr e ↦ rw e (omega (arith, reach_covers needed (acc + u.satoshis) us (omega arith)))
]

pub reach_short :
    (needed acc : ℕ) (us : List SelectedUtxo)
    → acc + sum_of utxo_value us < needed
    → reach needed acc us ≡ length us
unfolding reach
reach_short needed acc [] h = refl
reach_short needed acc (u ∷ us) h = elim (Bool-cases (leb needed (acc + u.satoshis))) [
  | inl e ↦ absurd (omega (arith, leb→le needed (acc + u.satoshis) e))
  | inr e ↦ rw e (omega (arith, reach_short needed (acc + u.satoshis) us (omega arith)))
]

-- Fewer coins of the same order do not suffice.
pub reach_least :
    (needed acc k : ℕ) (us : List SelectedUtxo)
    → acc < needed
    → k < reach needed acc us
    → acc + sum_of utxo_value (take k us) < needed
unfolding reach
reach_least needed acc zero us h lt = omega arith
reach_least needed acc (suc k) [] h lt = absurd (omega arith)
reach_least needed acc (suc k) (u ∷ us) h lt = elim (Bool-cases (leb needed (acc + u.satoshis))) [
  | inl e ↦ absurd (omega (arith, (rw e at lt)))
  | inr e ↦ omega (
    arith,
    reach_least needed (acc + u.satoshis) k us (leb-false needed (acc + u.satoshis) e)
        (omega (arith, (rw e at lt))),
  )
]

-- Without an overflow the loop returns the first `reach` coins and their value.
pub accumulate-reach :
    (needed acc : ℕ) (selected us : List SelectedUtxo)
    → acc + sum_of utxo_value us < 2 ^ 64
    → accumulate needed acc selected us
      ≡ ok (
        selected ++ take (reach needed acc us) us,
        acc + sum_of utxo_value (take (reach needed acc us) us),
      )
unfolding accumulate reach
accumulate-reach needed acc selected [] h = ground (arith, append-nil selected)
accumulate-reach needed acc selected (u ∷ us) h = ground (
  arith,
  accumulate-reach needed (acc + u.satoshis) (selected ++ (u ∷ [])) us (omega arith),
  append_assoc selected (u ∷ []) (take (reach needed (acc + u.satoshis) us) us),
)

-- Whatever the values, what the loop returns is a first part of the list, with its value.
pub accumulate-ok :
    (needed acc : ℕ) (selected us s : List SelectedUtxo) (a : ℕ)
    → acc < 2 ^ 64
    → accumulate needed acc selected us ≡ ok (s, a)
    → (s ≡ selected ++ take (reach needed acc us) us)
      × (a ≡ acc + sum_of utxo_value (take (reach needed acc us) us))
      × (a < 2 ^ 64)
unfolding accumulate reach
accumulate-ok needed acc selected [] s a b h = ground (arith, append-nil selected)
accumulate-ok needed acc selected (u ∷ us) s a b h = ground (
  arith,
  accumulate-ok needed (acc + u.satoshis) (selected ++ (u ∷ [])) us s a,
  append_assoc selected (u ∷ []) (take (reach needed (acc + u.satoshis) us) us),
)
