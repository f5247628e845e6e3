-- ===== src/Plans/Broadcast.antt =====
-- broadcast_tx and estimate_fee of commands/transactions.rs.
use electrum_sv_mc.Prelude.{ℕ, zero, suc, ◌+◌}
use electrum_sv_mc.Prelude.{Option, none, some}
use electrum_sv_mc.Prelude.{List, if◌then◌else◌}
use electrum_sv_mc.Prelude.{Result, ok, err, ◌>>=◌, ok_or}
use electrum_sv_mc.Prelude.{length}
use electrum_sv_mc.Prelude.Bytes.{bytes_eq}
use electrum_sv_mc.CoinChooser.Types.{Text}
use electrum_sv_mc.Transaction.Types.{PaymentOutput}
use electrum_sv_mc.Transaction.Types
use electrum_sv_mc.Transaction.Build.{one_if}
use electrum_sv_mc.Signer
use electrum_sv_mc.Plans.{
  CmdError, not_connected, sdk, invalid_hex, network, database, local_mismatch, server_mismatch,
}
use electrum_sv_mc.Plans.{AppState, get_wallet_data}

-- The clients that `state.network` holds, as their answers to raw bytes: the txid the server returns.
pub record Clients : Type 0 where
  pub client : Option (List ℕ → Result Text Text)
  pub woc_client : Option (List ℕ → Result Text Text)

-- The ElectrumX client where there is one, else the WhatsOnChain client.
unfoldable pub broadcaster : Clients → Result CmdError (List ℕ → Result Text Text)
broadcaster c = elim c.client [ some send ↦ ok send | none ↦ ok_or c.woc_client not_connected ]

module _ {Tx Key Xkey : Type 0} (api : Signer.Sdk Tx Key Xkey)
    (decode : Text → Result Text (List ℕ)) where
  -- The answer of the server, compared with the local txid.
  unfoldable pub confirm : Text → Text → Result CmdError Text
  confirm local_txid server_txid =
      if bytes_eq server_txid local_txid
      then ok server_txid
      else err (server_mismatch server_txid local_txid)

  unfoldable pub send : Clients → Text → Text → Result CmdError Text
  send clients signed_tx_hex local_txid = do
    backend ← broadcaster clients
    raw_bytes ← Signer.map_err invalid_hex (decode signed_tx_hex)
    server_txid ← Signer.map_err network (backend raw_bytes)
    confirm local_txid server_txid

  unfoldable pub broadcast_tx : Clients → Text → Text → Result CmdError Text
  broadcast_tx clients signed_tx_hex expected_txid = do
    tx ← Signer.map_err sdk (api.from_hex signed_tx_hex)
    local_txid ← Signer.map_err sdk (api.tx_id tx)
    (if bytes_eq local_txid expected_txid
        then send clients signed_tx_hex local_txid
        else err (local_mismatch local_txid expected_txid))

pub record EstimateFeeResult : Type 0 where
  pub fee : ℕ
  pub num_inputs : ℕ
  pub num_outputs : ℕ
  pub fee_rate : ℕ

-- `fee_rate`, or the default that features/mapi.rs fetches.
abbrev pub rate_or : ℕ → Option ℕ → ℕ
rate_or default_fee_rate none = default_fee_rate
rate_or default_fee_rate (some r) = r

-- `.max(1)`
abbrev pub at_least_one : ℕ → ℕ
at_least_one zero = 1
at_least_one (suc n) = suc n

-- estimate_fee, with the number of UTXOs in the database.
unfoldable pub estimate_fee :
    ℕ
    → Result Text ℕ
    → List PaymentOutput
    → Option ℕ
    → Option Text
    → AppState
    → Result CmdError EstimateFeeResult
estimate_fee default_fee_rate utxo_count outputs fee_rate op_return state = do
  wallet ← get_wallet_data state
  count ← Signer.map_err database utxo_count
  ok (record {
    fee =
        Types.estimate_fee (at_least_one count) (length outputs + 1 + one_if op_return)
          (rate_or default_fee_rate fee_rate);
    num_inputs = at_least_one count;
    num_outputs = length outputs + 1 + one_if op_return;
    fee_rate = rate_or default_fee_rate fee_rate;
  })
