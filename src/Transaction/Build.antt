-- ===== src/Transaction/Build.antt =====
-- TxBuilder::build_unsigned of core/transaction.rs. An outer `none` is a panic, or a loop that has
-- used up its fuel. The SDK's scripts are parameters, as are those of the coin chooser.
pub mod FeeLoop
pub mod Laws
pub mod Matched
use electrum_sv_mc.Prelude.{
  ℕ, zero, suc, ◌+◌, ◌-◌, ◌*◌, ◌/◌, ◌%◌, ◌^◌, ◌≤◌, ◌<◌, ◌≡◌, refl, sym, ap, ◌∙◌,
}
use electrum_sv_mc.Prelude.{
  ◌≢◌, ◌↔◌, ◌⊎◌, inl, inr, Bool, true, false, ◌&&◌, ◌||◌, not, Option, none, some,
}
use electrum_sv_mc.Prelude.{List, [], ◌∷◌, ◌++◌, map, arith, ltb, leb, ◌==◌, if◌then◌else◌}
use electrum_sv_mc.Prelude.{
  Result, ok, err, ◌>>=◌, ok_or, Result-cases, >>=-eq-ok, Bool-cases, Option-cases, if-elim,
}
use electrum_sv_mc.Prelude.{ltb→lt, lt→ltb, leb→le, le→leb, ltb-false, leb-false, ==_iff}
use electrum_sv_mc.Prelude.{length, get_elem?, set, take, drop, replicate, sum_of, All}
use electrum_sv_mc.Prelude.{
  length-append, sum_of-append, take-append-drop, length-take, length-drop, sum_of-take_le,
}
use electrum_sv_mc.Prelude.Word.{IsU64, wrap, wrap_small, checked_add}
use electrum_sv_mc.Prelude.Bytes.{bytes_eq}
use electrum_sv_mc.CoinChooser.Types.{
  Text, Coin, new_coin, wrap_sum, CoinChooserError, SelectionResult, Strategy,
}
use electrum_sv_mc.CoinChooser.Chooser
use electrum_sv_mc.Transaction.Types.{
  TransactionError, insufficient_funds, no_utxos, invalid_output,
}
use electrum_sv_mc.Transaction.Types.{
  total_payment_zero, needed_overflow, unknown_utxo, chooser_failed,
}
use electrum_sv_mc.Transaction.Types.{
  PaymentOutput, SelectedUtxo, CoinSelectionResult, estimate_fee,
}
use electrum_sv_mc.Transaction.Select.{Outcome, select}

-- The fields that the builder gives the SDK's inputs, outputs and transaction.
pub record TransactionInput : Type 0 where
  pub source_txid : Text
  pub source_output_index : ℕ
  pub sequence : ℕ

pub record TransactionOutput : Type 0 where
  pub satoshis : ℕ
  pub locking_script : Text
  pub change : Bool

pub record UnsignedTx : Type 0 where
  pub inputs : List TransactionInput
  pub outputs : List TransactionOutput

-- The `loop { … }` of the default strategy; `none` when the fuel runs out.
unfoldable pub fee_loop :
    ℕ → List SelectedUtxo → ℕ → ℕ → ℕ → ℕ → Option (Outcome CoinSelectionResult)
fee_loop zero utxos total_payment num_outputs fee_rate fee = none
fee_loop (suc fuel) utxos total_payment num_outputs fee_rate fee =
    elim (select utxos total_payment fee) [
      | err e ↦ some (err e)
      | ok result ↦
          let actual_fee = estimate_fee (length result.selected) num_outputs fee_rate in
          let again = fee_loop fuel utxos total_payment num_outputs fee_rate actual_fee in
          if actual_fee == fee then some (ok result) else again
    ]

unfoldable pub utxo_to_coin : SelectedUtxo → Coin
unfolding new_coin
utxo_to_coin u = new_coin u.tx_hash_hex u.tx_index u.satoshis u.keyinstance_id

-- `map_err` of the coin chooser's errors.
unfoldable pub chooser_error : CoinChooserError → TransactionError
chooser_error (CoinChooserError.insufficient_funds needed available) =
    insufficient_funds needed available
chooser_error CoinChooserError.no_coins = no_utxos
chooser_error CoinChooserError.overflow = invalid_output (chooser_failed CoinChooserError.overflow)

-- `lookup.get`: of several coins with one outpoint the map holds the last.
unfoldable pub lookup_utxo : Text → ℕ → List SelectedUtxo → Option SelectedUtxo
lookup_utxo hash index [] = none
lookup_utxo hash index (u ∷ us) = elim (lookup_utxo hash index us) [
  | some v ↦ some v
  | none ↦ if bytes_eq u.tx_hash_hex hash && u.tx_index == index then some u else none
]

unfoldable pub map_back : List SelectedUtxo → List Coin → Outcome (List SelectedUtxo)
map_back utxos [] = ok []
map_back utxos (c ∷ coins) = do
  utxo ←
      ok_or (lookup_utxo c.tx_hash_hex c.tx_index utxos)
        (invalid_output (unknown_utxo c.tx_hash_hex c.tx_index))
  selected ← map_back utxos coins
  ok (utxo ∷ selected)

-- The fee is computed again from the real number of outputs.
unfoldable pub reconcile : ℕ → ℕ → ℕ → ℕ → List SelectedUtxo → Outcome CoinSelectionResult
reconcile total_payment num_outputs fee_rate total_input selected =
    let actual_fee = estimate_fee (length selected) num_outputs fee_rate in
    let needed = total_payment + actual_fee in
    if ltb needed (2 ^ 64)
    then (if ltb total_input needed
        then err (insufficient_funds needed total_input)
        else ok (record {
          selected = selected;
          total_input = total_input;
          total_output = wrap (total_payment + (total_input - needed));
          fee = actual_fee;
          change = total_input - needed;
        }))
    else err (invalid_output needed_overflow)

unfoldable pub from_chooser :
    List SelectedUtxo
    → ℕ
    → ℕ
    → ℕ
    → Result CoinChooserError SelectionResult
    → Outcome CoinSelectionResult
from_chooser utxos total_payment num_outputs fee_rate (err e) = err (chooser_error e)
from_chooser utxos total_payment num_outputs fee_rate (ok result) = do
  selected ← map_back utxos result.coins
  reconcile total_payment num_outputs fee_rate result.total_input selected

unfoldable pub to_input : SelectedUtxo → TransactionInput
to_input u = record {
  source_txid = u.tx_hash_hex;
  source_output_index = u.tx_index;
  sequence = 0xFFFFFFFF;
}

abbrev pub one_if {ℓ} : {A : Type ℓ} → Option A → ℕ
one_if none = 0
one_if (some a) = 1

-- SHA-256 and the order of a map are those of the coin chooser.
module _ (sha256 : Text → Text) (iterated : List (ℕ × List Coin) → List (ℕ × List Coin)) where
  unfoldable pub select_coins :
      List SelectedUtxo → ℕ → ℕ → ℕ → Option Strategy → Option (Outcome CoinSelectionResult)
  select_coins utxos total_payment num_outputs fee_rate none =
      fee_loop (length utxos + 1) utxos total_payment num_outputs fee_rate
        (estimate_fee 1 num_outputs fee_rate)
  select_coins utxos total_payment num_outputs fee_rate (some strategy) =
      elim (Chooser.select sha256 iterated (record { strategy = strategy; fee_rate = fee_rate })
        (map utxo_to_coin utxos) total_payment) [
          | none ↦ none
          | some chosen ↦ some (from_chooser utxos total_payment num_outputs fee_rate chosen)
        ]

-- The SDK's locking script of an address, which may fail.
module _ (lock_address : Text → Outcome Text) where
  unfoldable pub payment_outputs : List PaymentOutput → Outcome (List TransactionOutput)
  payment_outputs [] = ok []
  payment_outputs (output ∷ outputs) = do
    lock_script ← lock_address output.address
    rest ← payment_outputs outputs
    ok (record { satoshis = output.satoshis; locking_script = lock_script; change = false } ∷ rest)

  unfoldable pub change_outputs : ℕ → Option Text → Outcome (List TransactionOutput)
  change_outputs change none = ok []
  change_outputs change (some address) =
      if ltb 0 change
      then (do
        lock_script ← lock_address address
        ok (record { satoshis = change; locking_script = lock_script; change = true } ∷ []))
      else ok []

-- The SDK's OP_RETURN script.
unfoldable pub op_return_outputs : (Text → Text) → Option Text → List TransactionOutput
op_return_outputs op_return_data none = []
op_return_outputs op_return_data (some bytes) =
    record { satoshis = 0; locking_script = op_return_data bytes; change = false } ∷ []

module _ (lock_address : Text → Outcome Text) (op_return_data : Text → Text) where
  -- The transaction of a selection.
  unfoldable pub assemble_tx :
      List PaymentOutput
      → Option Text
      → Option Text
      → CoinSelectionResult
      → Outcome (UnsignedTx × CoinSelectionResult)
  assemble_tx outputs change_address op_return selection = do
    paid ← payment_outputs lock_address outputs
    returned ← change_outputs lock_address selection.change change_address
    ok (
      record {
        inputs = map to_input selection.selected;
        outputs = paid ++ (op_return_outputs op_return_data op_return ++ returned);
      },
      selection,
    )

module _ (sha256 : Text → Text) (iterated : List (ℕ × List Coin) → List (ℕ × List Coin))
    (lock_address : Text → Outcome Text) (op_return_data : Text → Text) where
  unfoldable pub build_unsigned :
      List SelectedUtxo
      → List PaymentOutput
      → Option Text
      → ℕ
      → Option Text
      → Option Strategy
      → Option (Outcome (UnsignedTx × CoinSelectionResult))
  build_unsigned utxos outputs change_address fee_rate op_return strategy =
      let total_payment = wrap_sum (λ o. o.satoshis) outputs in
      let num_outputs = length outputs + one_if op_return + one_if change_address in
      let selected =
        select_coins sha256 iterated utxos total_payment num_outputs fee_rate strategy in
      if total_payment == 0 then some (err (invalid_output total_payment_zero)) else elim selected [
        | none ↦ none
        | some selection ↦
            some (
              selection
              >>= assemble_tx lock_address op_return_data outputs change_address op_return)
      ]
