-- ===== src/Transaction/Types.antt =====
-- The data of core/transaction.rs. A Rust `String` is the list of its bytes.
use electrum_sv_mc.Prelude.{ℕ, ◌+◌, ◌*◌}
use electrum_sv_mc.Prelude.{List}
use electrum_sv_mc.Prelude.Word.{wrap}
use electrum_sv_mc.CoinChooser.Types.{Text, CoinChooserError}

-- What `InvalidOutput` says, one constructor for each text of the source.
pub data InvalidReason : Type 0 where
  payment_overflow total_payment_zero target_fee_overflow accumulation_overflow : InvalidReason
  needed_overflow : InvalidReason
  unknown_utxo : Text → ℕ → InvalidReason
  chooser_failed : CoinChooserError → InvalidReason

pub data TransactionError : Type 0 where
  insufficient_funds : ℕ → ℕ → TransactionError
  no_utxos : TransactionError
  invalid_output : InvalidReason → TransactionError
  bsv_sdk serialization : Text → TransactionError

pub record PaymentOutput : Type 0 where
  pub address : Text
  pub satoshis : ℕ

-- `keyinstance_id` is an `i64`, carried by its bit pattern.
pub record SelectedUtxo : Type 0 where
  pub tx_hash_hex : Text
  pub tx_index : ℕ
  pub satoshis : ℕ
  pub keyinstance_id : ℕ
  pub subpath : ℕ × ℕ

abbrev pub utxo_value : SelectedUtxo → ℕ
utxo_value u = u.satoshis

pub record CoinSelectionResult : Type 0 where
  pub selected : List SelectedUtxo
  pub total_input : ℕ
  pub total_output : ℕ
  pub fee : ℕ
  pub change : ℕ

-- FeeEstimator::estimate_fee: bytes of the transaction times satoshis per byte, in wrapping `u64`.
unfoldable pub estimate_fee : ℕ → ℕ → ℕ → ℕ
estimate_fee num_inputs num_outputs fee_rate =
    let base_size : ℕ = 10 in
    let input_size = wrap (148 * num_inputs) in
    let output_size = wrap (34 * num_outputs) in
    let total_size = wrap (wrap (base_size + input_size) + output_size) in
    wrap (total_size * fee_rate)

-- FeeEstimator::estimate_fee_default, at the rate DEFAULT_FEE_RATE.
unfoldable pub estimate_fee_default : ℕ → ℕ → ℕ
unfolding estimate_fee
estimate_fee_default num_inputs num_outputs = estimate_fee num_inputs num_outputs 1
