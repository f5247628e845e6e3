-- ===== src/Transaction/Build/Laws.antt =====
-- Where the money of an unsigned transaction of core/transaction.rs goes.
use electrum_sv_mc.Prelude.{ℕ, zero, suc, ◌+◌, ◌^◌, ◌<◌, ◌≡◌, refl}
use electrum_sv_mc.Prelude.{inl, inr, Bool, true, false, Option, none, some}
use electrum_sv_mc.Prelude.{List, [], ◌∷◌, ◌++◌, map, arith, ltb, ◌==◌, if◌then◌else◌}
use electrum_sv_mc.Prelude.{Result, ok, err, ◌>>=◌, Result-cases, >>=-eq-ok, Bool-cases}
use electrum_sv_mc.Prelude.{length, sum_of}
use electrum_sv_mc.Prelude.{sum_of-append}
use electrum_sv_mc.CoinChooser.Types.{
  Text, Coin, wrap_sum, CoinChooserError, SelectionResult, Strategy,
}
use electrum_sv_mc.Transaction.Types.{TransactionError, estimate_fee}
use electrum_sv_mc.Transaction.Types.{PaymentOutput, SelectedUtxo, CoinSelectionResult}
use electrum_sv_mc.Transaction.Select.{Outcome, select}
use electrum_sv_mc.Transaction.Select.Laws.{select-IsCover}
use electrum_sv_mc.Transaction.Build.{UnsignedTx, TransactionOutput, fee_loop, map_back}
use electrum_sv_mc.Transaction.Build.{
  reconcile, from_chooser, select_coins, to_input, payment_outputs,
}
use electrum_sv_mc.Transaction.Build.{
  op_return_outputs, change_outputs, assemble_tx, build_unsigned, one_if,
}

-- Input is payment plus fee plus change.
abbrev pub IsBalanced : ℕ → CoinSelectionResult → Type 0
IsBalanced total_payment r = r.total_input ≡ total_payment + r.fee + r.change

fee_loop-IsBalanced :
    (fuel : ℕ) (utxos : List SelectedUtxo) (t k rate fee : ℕ) (r : CoinSelectionResult)
    → fee_loop fuel utxos t k rate fee ≡ some (ok r)
    → IsBalanced t r
unfolding fee_loop
fee_loop-IsBalanced zero utxos t k rate fee r h = cc
fee_loop-IsBalanced (suc fuel) utxos t k rate fee r h = elim (Result-cases (select utxos t fee)) [
  | inr (e, he) ↦ cc (rw (he, fee_loop) at h)
  | inl (s, hs) ↦
      let c = (select-IsCover utxos t fee s hs).balance in
      let n = estimate_fee (length s.selected) k rate in
      ground (arith, fee_loop-IsBalanced fuel utxos t k rate n r, rw (hs, fee_loop) at h)
]

reconcile-IsBalanced :
    (t k rate input : ℕ) (s : List SelectedUtxo) (r : CoinSelectionResult)
    → reconcile t k rate input s ≡ ok r
    → IsBalanced t r × (r.selected ≡ s)
unfolding reconcile
reconcile-IsBalanced t k rate input s r h = ground arith

from_chooser-IsBalanced :
    (utxos : List SelectedUtxo) (t k rate : ℕ) (chosen : Result CoinChooserError SelectionResult)
    (r : CoinSelectionResult)
    → from_chooser utxos t k rate chosen ≡ ok r
    → IsBalanced t r
unfolding from_chooser
from_chooser-IsBalanced utxos t k rate (err e) r h = cc
from_chooser-IsBalanced utxos t k rate (ok result) r h =
    let (s, hs, hr) = >>=-eq-ok (map_back utxos result.coins) _ h in
    (reconcile-IsBalanced t k rate result.total_input s r hr).0

abbrev pub output_total : UnsignedTx → ℕ
output_total tx = sum_of (λ o. o.satoshis) tx.outputs

abbrev pub paid_total : List PaymentOutput → ℕ
paid_total outputs = sum_of (λ o. o.satoshis) outputs

-- The change that no output receives.
abbrev pub left_to_miners : Option Text → ℕ → ℕ
left_to_miners none change = change
left_to_miners (some address) change = 0

select_coins_chosen :
    (utxos : List SelectedUtxo) (t k rate : ℕ)
    (chosen : Option (Result CoinChooserError SelectionResult)) (r : CoinSelectionResult)
    → ◌≡◌ {A = Option (Outcome CoinSelectionResult)}
        (elim chosen [ none ↦ none | some c ↦ some (from_chooser utxos t k rate c) ])
        (some (ok r))
    → IsBalanced t r
select_coins_chosen utxos t k rate none r h = cc
select_coins_chosen utxos t k rate (some c) r h = from_chooser-IsBalanced utxos t k rate c r (cc h)

module _ (sha256 : Text → Text) (iterated : List (ℕ × List Coin) → List (ℕ × List Coin)) where
  select_coins-IsBalanced :
      (utxos : List SelectedUtxo) (t k rate : ℕ) (strategy : Option Strategy)
      (r : CoinSelectionResult)
      → select_coins sha256 iterated utxos t k rate strategy ≡ some (ok r)
      → IsBalanced t r
  unfolding select_coins
  select_coins-IsBalanced utxos t k rate none r h = fee_loop-IsBalanced _ utxos t k rate _ r h
  select_coins-IsBalanced utxos t k rate (some strategy) r h =
      select_coins_chosen utxos t k rate _ r h

abbrev satoshis : TransactionOutput → ℕ
satoshis o = o.satoshis

module _ (lock_address : Text → Outcome Text) where
  payment_outputs-total :
      (outputs : List PaymentOutput) (l : List TransactionOutput)
      → payment_outputs lock_address outputs ≡ ok l
      → sum_of satoshis l ≡ paid_total outputs
  unfolding payment_outputs
  payment_outputs-total [] l h = ground arith
  payment_outputs-total (o ∷ outputs) l h =
      let (script, hs, h') = >>=-eq-ok (lock_address o.address) _ h in
      let (rest, hr, h'') = >>=-eq-ok (payment_outputs lock_address outputs) _ h' in
      ground (arith, payment_outputs-total outputs rest hr, h'')

  change_outputs-total :
      (change : ℕ) (address : Option Text) (l : List TransactionOutput)
      → change_outputs lock_address change address ≡ ok l
      → sum_of satoshis l + left_to_miners address change ≡ change
  unfolding change_outputs
  change_outputs-total change none l h = ground arith
  change_outputs-total change (some a) l h = elim (Bool-cases (ltb 0 change)) [
    | inr e ↦ ground (arith, rw e at h)
    | inl e ↦ let (script, hs, h') = >>=-eq-ok (lock_address a) _ (rw e at h) in ground (arith, h')
  ]

  module _ (op_return_data : Text → Text) where
    op_return-total : (o : Option Text) → sum_of satoshis (op_return_outputs op_return_data o) ≡ 0
    unfolding op_return_outputs
    op_return-total none = refl
    op_return-total (some bytes) = omega arith

    assemble_tx-ok :
        (outputs : List PaymentOutput) (address op_return : Option Text) (s r : CoinSelectionResult)
        (tx : UnsignedTx)
        → assemble_tx lock_address op_return_data outputs address op_return s ≡ ok (tx, r)
        → (r ≡ s)
          × (tx.inputs ≡ map to_input s.selected)
          × (output_total tx + left_to_miners address s.change ≡ paid_total outputs + s.change)
    unfolding assemble_tx
    assemble_tx-ok outputs address op_return s r tx h =
        let (paid, hp, h') = >>=-eq-ok (payment_outputs lock_address outputs) _ h in
        let (back, hb, h'') = >>=-eq-ok (change_outputs lock_address s.change address) _ h' in
        ground (
          arith,
          h'',
          payment_outputs-total outputs paid hp,
          change_outputs-total s.change address back hb,
          op_return-total op_return,
          sum_of-append satoshis paid (op_return_outputs op_return_data op_return ++ back),
          sum_of-append satoshis (op_return_outputs op_return_data op_return) back,
        )

abbrev pub Built : Type 0
Built = UnsignedTx × CoinSelectionResult

selection_inversion :
    (f : CoinSelectionResult → Outcome Built) (zero? : Bool) (e : TransactionError)
    (selected : Option (Outcome CoinSelectionResult)) (b : Built)
    → (if zero?
        then some (err e)
        else elim selected [ none ↦ none | some selection ↦ some (selection >>= f) ])
      ≡ some (ok b)
    → (s : CoinSelectionResult) × (selected ≡ some (ok s)) × (f s ≡ ok b)
selection_inversion f true e selected b h = cc
selection_inversion f false e none b h = cc
selection_inversion f false e (some (err x)) b h = cc
selection_inversion f false e (some (ok s)) b h = (s, refl, cc h)

module _ (sha256 : Text → Text) (iterated : List (ℕ × List Coin) → List (ℕ × List Coin))
    (lock_address : Text → Outcome Text) (op_return_data : Text → Text) where
  pub build_unsigned-inputs :
      (utxos : List SelectedUtxo) (outputs : List PaymentOutput) (change_address : Option Text)
      (fee_rate : ℕ) (op_return : Option Text) (strategy : Option Strategy) (tx : UnsignedTx)
      (r : CoinSelectionResult)
      → build_unsigned sha256 iterated lock_address op_return_data utxos outputs change_address
          fee_rate op_return strategy
        ≡ some (ok (tx, r))
      → tx.inputs ≡ map to_input r.selected
  unfolding build_unsigned
  build_unsigned-inputs utxos outputs change_address fee_rate op_return strategy tx r h =
      let t : ℕ = wrap_sum (λ (o : PaymentOutput). o.satoshis) outputs in
      let k : ℕ = length outputs + one_if op_return + one_if change_address in
      let (s, hs, ha) =
        selection_inversion
          (assemble_tx lock_address op_return_data outputs change_address op_return) (t == 0) _
          (select_coins sha256 iterated utxos t k fee_rate strategy) (tx, r) h in
      let (same, inputs, sums) =
        assemble_tx-ok lock_address op_return_data outputs change_address op_return s r tx ha in
      rw same inputs

  -- Whatever the strategy, an unsigned transaction spends the selected coins in order, and if the payments
  -- sum to less than 2 ^ 64, its outputs and its fee add up to the input of the selection; without
  -- a change address the change is missing from the outputs and goes to the miners.
  pub build_unsigned_conserves :
      (utxos : List SelectedUtxo) (outputs : List PaymentOutput) (change_address : Option Text)
      (fee_rate : ℕ) (op_return : Option Text) (strategy : Option Strategy) (tx : UnsignedTx)
      (r : CoinSelectionResult)
      → paid_total outputs < 2 ^ 64
      → build_unsigned sha256 iterated lock_address op_return_data utxos outputs change_address
          fee_rate op_return strategy
        ≡ some (ok (tx, r))
      → (tx.inputs ≡ map to_input r.selected)
        × (output_total tx + left_to_miners change_address r.change + r.fee ≡ r.total_input)
  unfolding build_unsigned
  build_unsigned_conserves utxos outputs change_address fee_rate op_return strategy tx r b h =
      let t : ℕ = wrap_sum (λ (o : PaymentOutput). o.satoshis) outputs in
      let k : ℕ = length outputs + one_if op_return + one_if change_address in
      let (s, hs, ha) =
        selection_inversion
          (assemble_tx lock_address op_return_data outputs change_address op_return) (t == 0) _
          (select_coins sha256 iterated utxos t k fee_rate strategy) (tx, r) h in
      let (same, inputs, sums) =
        assemble_tx-ok lock_address op_return_data outputs change_address op_return s r tx ha in
      let balance = select_coins-IsBalanced sha256 iterated utxos t k fee_rate strategy s hs in
      ground arith
