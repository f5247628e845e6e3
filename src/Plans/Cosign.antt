-- ===== src/Plans/Cosign.antt =====
-- sign_multisig_tx of commands/transactions.rs.
use electrum_sv_mc.Prelude.{ℕ}
use electrum_sv_mc.Prelude.{Option, none, some}
use electrum_sv_mc.Prelude.{List, [], ◌∷◌}
use electrum_sv_mc.Prelude.{Result, ok, err, ◌>>=◌, ok_or}
use electrum_sv_mc.Prelude.Int.{ℤ}
use electrum_sv_mc.CoinChooser.Types.{Text}
use electrum_sv_mc.Multisig.{AccumulatorMultiSigOutput, new_multisig}
use electrum_sv_mc.Signer
use electrum_sv_mc.Plans.{
  TxPlan, ActiveWallet, AppState, CmdError, unlocked, consume, find_plan, check_plan, Answers,
  check_totp, SignTxResult, sign_result, database, sdk, invalid_hex, signer, multisig,
  not_a_multisig_account,
}

module _ {Tx Key Xkey : Type 0} (api : Signer.Sdk Tx Key Xkey) where
  -- Every key of the configuration, from hex.
  unfoldable pub decode_keys :
      (Text → Result Text (List ℕ)) → List Text → Result CmdError (List (List ℕ))
  decode_keys decode [] = ok []
  decode_keys decode (h ∷ keys) = do
    key ← Signer.map_err invalid_hex (decode h)
    rest ← decode_keys decode keys
    ok (key ∷ rest)

  -- The account's multisig configuration: its keys in hex, and its threshold.
  unfoldable pub multisig_output :
      (Text → Result Text (List ℕ))
      → Result Text (Option (List Text × ℤ))
      → Result CmdError AccumulatorMultiSigOutput
  multisig_output decode config = do
    found ← Signer.map_err database config
    msig_config ← ok_or found not_a_multisig_account
    pk_bytes ← decode_keys decode (msig_config.0)
    Signer.map_err multisig (new_multisig pk_bytes (msig_config.1))

  abbrev pub or_panic :
      Option (Result Signer.SignerError Tx) → Option (Result CmdError SignTxResult)
  or_panic none = none
  or_panic (some (err e)) = some (err (signer e))
  or_panic (some (ok tx)) = some (sign_result api tx)

  -- MultisigSigner::new and sign_tx on the parsed transaction; `none` is a panic.
  unfoldable pub cosign_plan :
      (List ℕ → List ℕ)
      → Text
      → ℕ
      → TxPlan
      → AccumulatorMultiSigOutput × Tx
      → Option (Result CmdError SignTxResult)
  cosign_plan hash160 xprv local_key_index plan parsed =
      elim (Signer.new_signer xprv (parsed.0) local_key_index) [
        | err e ↦ some (err (signer e))
        | ok s ↦ or_panic (Signer.multisig_sign_tx api hash160 s (parsed.1) plan.inputs)
      ]

  -- What sign_multisig_tx does before it makes its signer.
  unfoldable pub multisig_checked :
      (Text → Result Text (List ℕ))
      → Result Text (Option (List Text × ℤ))
      → Answers
      → Text
      → ActiveWallet
      → TxPlan
      → Result CmdError (AccumulatorMultiSigOutput × Tx)
  multisig_checked decode config answers totp_code wallet plan = do
    checked ← check_plan plan wallet.wallet_path answers.check_now
    verified ← check_totp answers totp_code
    output ← multisig_output decode config
    tx ← Signer.map_err sdk (api.from_hex plan.unsigned_tx_hex)
    ok (output, tx)

  unfoldable pub cosign_found :
      (List ℕ → List ℕ)
      → (Text → Result Text (List ℕ))
      → Result Text (Option (List Text × ℤ))
      → Answers
      → Text
      → ℕ
      → ActiveWallet × Text
      → TxPlan
      → Option (Result CmdError SignTxResult)
  cosign_found hash160 decode config answers totp_code local_key_index w plan =
      elim (multisig_checked decode config answers totp_code (w.0) plan) [
        | err e ↦ some (err e)
        | ok parsed ↦ cosign_plan hash160 (w.1) local_key_index plan parsed
      ]

  unfoldable pub cosign_lookup :
      (List ℕ → List ℕ)
      → (Text → Result Text (List ℕ))
      → Result Text (Option (List Text × ℤ))
      → Answers
      → Text
      → Text
      → ℕ
      → AppState
      → ActiveWallet × Text
      → Option (Result CmdError SignTxResult)
  cosign_lookup hash160 decode config answers plan_id totp_code local_key_index state w =
      elim (find_plan answers.lookup_now plan_id state) [
        | err e ↦ some (err e)
        | ok plan ↦ cosign_found hash160 decode config answers totp_code local_key_index w plan
      ]

  -- sign_multisig_tx, with HASH160, the decoder of hex and the account's configuration; `none` is a panic.
  unfoldable pub sign_multisig_tx :
      (List ℕ → List ℕ)
      → (Text → Result Text (List ℕ))
      → Result Text (Option (List Text × ℤ))
      → Answers
      → Text
      → Text
      → ℕ
      → AppState
      → AppState × Option (Result CmdError SignTxResult)
  sign_multisig_tx hash160 decode config answers plan_id totp_code local_key_index state =
      elim (unlocked state) [
        | err e ↦ (state, some (err e))
        | ok w ↦ (
          consume answers.lookup_now plan_id state,
          cosign_lookup hash160 decode config answers plan_id totp_code local_key_index state w,
        )
      ]
