-- ===== src/Plans.antt =====
-- The plans of commands/transactions.rs and state.rs: prepare_tx stores one, and sign_tx takes it out
-- and signs it. The clock, the database, the TOTP check and the SDK answer through arguments.
pub mod Cosign
pub mod Prepare
pub mod Broadcast
pub mod Sign
pub mod Handover
pub mod Signed
pub mod Txid
pub mod Held
pub mod Trace
use electrum_sv_mc.Prelude.{
  ℕ, zero, suc, ◌+◌, ◌-◌, ◌*◌, ◌/◌, ◌%◌, ◌^◌, ◌≤◌, ◌<◌, ◌≡◌, refl, sym, ap, ◌∙◌,
}
use electrum_sv_mc.Prelude.{
  ◌≢◌, ◌↔◌, ◌⊎◌, inl, inr, Bool, true, false, ◌&&◌, ◌||◌, not, Option, none, some,
}
use electrum_sv_mc.Prelude.{List, [], ◌∷◌, ◌++◌, map, arith, ltb, leb, ◌==◌, if◌then◌else◌}
use electrum_sv_mc.Prelude.{
  Result, ok, err, ◌>>=◌, ok_or, Result-cases, >>=-eq-ok, Bool-cases, Option-cases, if-elim,
}
use electrum_sv_mc.Prelude.{ltb→lt, lt→ltb, leb→le, le→leb, ltb-false, leb-false, ==_iff}
use electrum_sv_mc.Prelude.{length, get_elem?, set, take, drop, replicate, sum_of, All}
use electrum_sv_mc.Prelude.{
  length-append, sum_of-append, take-append-drop, length-take, length-drop, sum_of-take_le,
}
use electrum_sv_mc.Prelude.Word.{IsU64, wrap, wrap_small, checked_add}
use electrum_sv_mc.Prelude.Assoc.{lookup, insert, take_out, retain}
use electrum_sv_mc.Prelude.Bytes.{bytes_eq}
use electrum_sv_mc.Prelude.Int.{ℤ}
use electrum_sv_mc.CoinChooser.Types.{Text, Coin, Strategy}
use electrum_sv_mc.Transaction.Types.{
  PaymentOutput, SelectedUtxo, CoinSelectionResult, TransactionError, no_utxos, bsv_sdk,
  estimate_fee,
}
use electrum_sv_mc.Transaction.Build.{UnsignedTx, build_unsigned, one_if}
use electrum_sv_mc.Multisig.{MultisigError, AccumulatorMultiSigOutput, new_multisig}
use electrum_sv_mc.Signer

-- An `i64` id is carried by its bit pattern, and times are seconds since the epoch.
pub record TxPlan : Type 0 where
  pub unsigned_tx_hex : Text
  pub outputs : List PaymentOutput
  pub inputs : List SelectedUtxo
  pub fee : ℕ
  pub change : ℕ
  pub change_address : Option Text
  pub total_input : ℕ
  pub total_output : ℕ
  pub wallet_path : Text
  pub account_id : ℕ
  pub created_at : ℕ
  pub expires_at : ℕ
  pub signed : Bool
  pub signed_tx_hex : Option Text
  pub txid : Option Text
  pub op_return : Option Text

pub record PendingPlan : Type 0 where
  pub plan : TxPlan
  pub created_at : ℕ

-- The fields of state.rs that the commands of this file read.
pub record ActiveWallet : Type 0 where
  pub account_id : ℕ
  pub wallet_path : Text
  pub decrypted_xprv : Option Text

pub record AppState : Type 0 where
  pub active_wallet : Option ActiveWallet
  pub pending_plans : List (Text × PendingPlan)

abbrev pub plan_store_ttl : ℕ
plan_store_ttl = 600

abbrev pub tx_plan_ttl : ℕ
tx_plan_ttl = 300

-- The errors, whose texts the commands return.
pub data CmdError : Type 0 where
  no_wallet_open wallet_locked not_connected totp_not_enabled : CmdError
  totp_verification_failed plan_expired wallet_mismatch already_signed plan_not_found : CmdError
  transaction : TransactionError → CmdError
  database sdk totp json invalid_hex network : Text → CmdError
  signer : Signer.SignerError → CmdError
  multisig : MultisigError → CmdError
  not_a_multisig_account : CmdError
  invalid_strategy : Text → CmdError
  local_mismatch server_mismatch : Text → Text → CmdError

-- get_wallet_data
unfoldable pub get_wallet_data : AppState → Result CmdError ActiveWallet
get_wallet_data state = ok_or state.active_wallet no_wallet_open

-- `ok_or` on the key, of get_wallet_data's answer.
unfoldable pub unlocked : AppState → Result CmdError (ActiveWallet × Text)
unlocked state = do
  wallet ← get_wallet_data state
  xprv ← ok_or wallet.decrypted_xprv wallet_locked
  ok (wallet, xprv)

-- `now - pp.created_at < PLAN_STORE_TTL`: where the clock went back, both differences pass.
abbrev pub is_fresh : ℕ → PendingPlan → Bool
is_fresh now pp = ltb (now - pp.created_at) plan_store_ttl

unfoldable pub with_plans : AppState → List (Text × PendingPlan) → AppState
with_plans state plans = record { active_wallet = state.active_wallet; pending_plans = plans }

-- `plans.retain(…); plans.remove(&plan_id)`: the store that is left.
unfoldable pub consume : ℕ → Text → AppState → AppState
consume now plan_id state =
    with_plans state (take_out plan_id (retain (is_fresh now) state.pending_plans))

-- The plan that `remove` returns.
unfoldable pub find_plan : ℕ → Text → AppState → Result CmdError TxPlan
find_plan now plan_id state =
    ok_or (lookup plan_id (retain (is_fresh now) state.pending_plans)) plan_not_found >>= λ pp.
    ok pp.plan

-- The checks on the plan.
unfoldable pub check_plan : TxPlan → Text → ℕ → Result CmdError Unit
check_plan plan wallet_path now =
    if bytes_eq plan.wallet_path wallet_path
    then (if ltb plan.expires_at now
        then err plan_expired
        else if plan.signed
        then err already_signed
        else ok tt)
    else err wallet_mismatch

-- What the clock and the database answer in one call, and the TOTP instance of a secret.
pub record Answers : Type 0 where
  pub lookup_now : ℕ
  pub check_now : ℕ
  pub is_totp_enabled : Result Text Bool
  pub load_totp_secret : Result Text (Option (List ℕ))
  pub verify_current : List ℕ → Text → Result Text Bool

-- The mandatory TOTP check.
unfoldable pub check_totp : Answers → Text → Result CmdError Unit
check_totp answers totp_code = do
  totp_enabled ← Signer.map_err database answers.is_totp_enabled
  enabled ← (if totp_enabled then ok tt else err totp_not_enabled)
  stored ← Signer.map_err database answers.load_totp_secret
  encrypted_secret ← ok_or stored totp_not_enabled
  valid ← Signer.map_err totp (answers.verify_current encrypted_secret totp_code)
  if valid then ok tt else err totp_verification_failed

pub record SignTxResult : Type 0 where
  pub txid : Text
  pub signed_tx_hex : Text

module _ {Tx Key Xkey : Type 0} (api : Signer.Sdk Tx Key Xkey) where
  -- The txid and the hex of a signed transaction.
  unfoldable pub sign_result : Tx → Result CmdError SignTxResult
  sign_result tx = do
    txid ← Signer.map_err sdk (api.tx_id tx)
    signed_hex ← Signer.map_err sdk (api.to_hex tx)
    ok (record { txid = txid; signed_tx_hex = signed_hex })

  -- Parse, sign with the local signer, and take the result.
  unfoldable pub sign_plan : Text → TxPlan → Result CmdError SignTxResult
  sign_plan xprv plan = do
    tx ← Signer.map_err sdk (api.from_hex plan.unsigned_tx_hex)
    signed ← Signer.map_err signer (Signer.local_sign_tx api xprv tx plan.inputs)
    sign_result signed

  -- What sign_tx does with the plan it took out.
  unfoldable pub sign_checked :
      Answers → Text → ActiveWallet × Text → TxPlan → Result CmdError SignTxResult
  sign_checked answers totp_code w plan = do
    checked ← check_plan plan ((w.0).wallet_path) answers.check_now
    verified ← check_totp answers totp_code
    sign_plan (w.1) plan

  abbrev pub sign_found :
      Answers → Text → Text → AppState → ActiveWallet × Text → Result CmdError SignTxResult
  sign_found answers plan_id totp_code state w =
      find_plan answers.lookup_now plan_id state >>= sign_checked answers totp_code w

  -- The store changes as soon as the wallet is unlocked.
  unfoldable pub sign_tx :
      Answers → Text → Text → AppState → AppState × Result CmdError SignTxResult
  sign_tx answers plan_id totp_code state = elim (unlocked state) [
    | err e ↦ (state, err e)
    | ok w ↦
        (consume answers.lookup_now plan_id state, sign_found answers plan_id totp_code state w)
  ]
