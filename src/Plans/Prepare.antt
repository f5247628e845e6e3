-- ===== src/Plans/Prepare.antt =====
-- prepare_tx of commands/transactions.rs, with TxBuilder::create_plan of core/transaction.rs.
use electrum_sv_mc.Prelude.{ℕ, ◌+◌, ◌%◌, ◌^◌}
use electrum_sv_mc.Prelude.{false, ◌&&◌, ◌||◌, Option, none, some}
use electrum_sv_mc.Prelude.{List, [], ◌∷◌, ltb, ◌==◌, if◌then◌else◌}
use electrum_sv_mc.Prelude.{Result, ok, err, ◌>>=◌, ok_or}
use electrum_sv_mc.Prelude.{length}
use electrum_sv_mc.Prelude.Assoc.{insert, retain}
use electrum_sv_mc.Prelude.Bytes.{bytes_eq}
use electrum_sv_mc.CoinChooser.Types.{Text, Coin, Strategy}
use electrum_sv_mc.Transaction.Types.{
  PaymentOutput, SelectedUtxo, CoinSelectionResult, TransactionError, no_utxos, bsv_sdk,
}
use electrum_sv_mc.Transaction.Select.{Outcome}
use electrum_sv_mc.Transaction.Build.{UnsignedTx, build_unsigned, one_if}
use electrum_sv_mc.Signer
use electrum_sv_mc.Plans.{CmdError, transaction, database, sdk, json, invalid_strategy, tx_plan_ttl}
use electrum_sv_mc.Plans.{AppState, ActiveWallet, TxPlan, unlocked, is_fresh, with_plans}
use electrum_sv_mc.Plans.Broadcast.{rate_or}

-- largest_first
abbrev pub largest_first_name : Text
largest_first_name = 108 ∷ 97 ∷ 114 ∷ 103 ∷ 101 ∷ 115 ∷ 116 ∷ 95 ∷ 102 ∷ 105 ∷ 114 ∷ 115 ∷ 116 ∷ []

-- branch_and_bound
abbrev pub branch_and_bound_name : Text
branch_and_bound_name =
    98 ∷ 114 ∷ 97 ∷ 110 ∷ 99 ∷ 104 ∷ 95 ∷ 97 ∷ 110 ∷ 100 ∷ 95 ∷ 98 ∷ 111 ∷ 117 ∷ 110 ∷ 100 ∷ []

-- random_subset
abbrev pub random_subset_name : Text
random_subset_name = 114 ∷ 97 ∷ 110 ∷ 100 ∷ 111 ∷ 109 ∷ 95 ∷ 115 ∷ 117 ∷ 98 ∷ 115 ∷ 101 ∷ 116 ∷ []

-- privacy
abbrev pub privacy_name : Text
privacy_name = 112 ∷ 114 ∷ 105 ∷ 118 ∷ 97 ∷ 99 ∷ 121 ∷ []

unfoldable pub parse_strategy : Option Text → Result CmdError (Option Strategy)
parse_strategy none = ok none
parse_strategy (some s) =
    if bytes_eq s largest_first_name
    then ok none
    else if bytes_eq s branch_and_bound_name
    then ok (some Strategy.branch_and_bound)
    else if bytes_eq s random_subset_name
    then ok (some Strategy.random_subset)
    else if bytes_eq s privacy_name
    then ok (some Strategy.privacy)
    else err (invalid_strategy s)

-- The bytes of `hex`, or else those of the text itself.
abbrev pub bytes_or_text : Option (List ℕ) → Text → List ℕ
bytes_or_text none s = s
bytes_or_text (some bytes) s = bytes

-- An OP_RETURN text: hex after 0x or 0X, or without it, or UTF-8.
unfoldable pub op_return_bytes : (Text → Option (List ℕ)) → Text → List ℕ
op_return_bytes decode [] = []
op_return_bytes decode (c ∷ []) = bytes_or_text (decode (c ∷ [])) (c ∷ [])
op_return_bytes decode (c ∷ d ∷ s) =
    let whole = c ∷ d ∷ s in
    if c == 48 && (d == 120 || d == 88)
    then bytes_or_text (decode s) whole
    else bytes_or_text (decode whole) whole

-- UtxoInfo of db/repositories.rs, the fields that prepare_tx reads; the `i64` columns are carried by their bit patterns.
pub record UtxoInfo : Type 0 where
  pub tx_hash_hex : Text
  pub tx_index : ℕ
  pub value : ℕ
  pub keyinstance_id : ℕ

-- SelectedUtxo::from_utxo_info
unfoldable pub from_utxo_info : UtxoInfo → ℕ × ℕ → SelectedUtxo
from_utxo_info info subpath = record {
  tx_hash_hex = info.tx_hash_hex;
  tx_index = info.tx_index % 2 ^ 32;
  satoshis = info.value;
  keyinstance_id = info.keyinstance_id;
  subpath = subpath;
}

-- `subpath[0]` and `subpath[1]` as `u32`; `none` is the panic of an index out of range.
unfoldable pub read_subpath : List (Option ℕ) → Option (Result CmdError (ℕ × ℕ))
read_subpath [] = none
read_subpath (none ∷ rest) = some (err (transaction (bsv_sdk [])))
read_subpath (some type_idx ∷ []) = none
read_subpath (some type_idx ∷ none ∷ rest) = some (err (transaction (bsv_sdk [])))
read_subpath (some type_idx ∷ some addr_idx ∷ rest) =
    some (ok (type_idx % 2 ^ 32, addr_idx % 2 ^ 32))

-- `?` where a panic is possible.
abbrev pub and_then :
    {E X Y : Type 0} → Option (Result E X) → (X → Option (Result E Y)) → Option (Result E Y)
and_then none next = none
and_then (some (err e)) next = some (err e)
and_then (some (ok x)) next = next x

-- The derivation data of a key instance, and the "subpath" array of its JSON with `as_u64` of each element.
pub record KeyData : Type 0 where
  pub get_keyinstance : ℕ → Result Text (Option (List ℕ))
  pub subpath_array : List ℕ → Result Text (Option (List (Option ℕ)))

unfoldable pub subpath_of : KeyData → ℕ → Result CmdError (List (Option ℕ))
subpath_of keys id = do
  found ← Signer.map_err database (keys.get_keyinstance id)
  derivation_data ← ok_or found (transaction (bsv_sdk []))
  value ← Signer.map_err json (keys.subpath_array derivation_data)
  ok_or value (transaction (bsv_sdk []))

-- The loop that converts the UTXOs. The messages of its errors are left empty.
unfoldable pub to_selected : KeyData → List UtxoInfo → Option (Result CmdError (List SelectedUtxo))
to_selected keys [] = some (ok [])
to_selected keys (info ∷ infos) = and_then (some (subpath_of keys info.keyinstance_id)) λ array.
    and_then (read_subpath array) λ subpath.
      and_then (to_selected keys infos) λ rest. some (ok (from_utxo_info info subpath ∷ rest))

-- TxBuilder::create_plan
unfoldable pub create_plan :
    (UnsignedTx → Result Text Text)
    → ℕ
    → UnsignedTx
    → List PaymentOutput
    → CoinSelectionResult
    → Option Text
    → Text
    → ℕ
    → ℕ
    → Option Text
    → Result TransactionError TxPlan
create_plan to_hex now tx outputs selection change_address wallet_path account_id ttl_seconds
      op_return =
    do
      unsigned_tx_hex ← Signer.map_err bsv_sdk (to_hex tx)
      ok (record {
        unsigned_tx_hex = unsigned_tx_hex;
        outputs = outputs;
        inputs = selection.selected;
        fee = selection.fee;
        change = selection.change;
        change_address = change_address;
        total_input = selection.total_input;
        total_output = selection.total_output;
        wallet_path = wallet_path;
        account_id = account_id;
        created_at = now;
        expires_at = now + ttl_seconds;
        signed = false;
        signed_tx_hex = none;
        txid = none;
        op_return = op_return;
      })

pub record PrepareTxResult : Type 0 where
  pub plan_id : Text
  pub fee : ℕ
  pub total_input : ℕ
  pub total_output : ℕ
  pub change : ℕ
  pub num_inputs : ℕ
  pub num_outputs : ℕ

unfoldable pub prepare_result : Text → TxPlan → PrepareTxResult
prepare_result plan_id plan = record {
  plan_id = plan_id;
  fee = plan.fee;
  total_input = plan.total_input;
  total_output = plan.total_output;
  change = plan.change;
  num_inputs = length plan.inputs;
  num_outputs = length plan.outputs + (if ltb 0 plan.change then 1 else 0) + one_if plan.op_return;
}

-- `plans.retain(…); plans.insert(…)`
unfoldable pub store_plan : ℕ → Text → TxPlan → AppState → AppState
store_plan now plan_id plan state = with_plans state (
    insert plan_id (record { plan = plan; created_at = now })
      (retain (is_fresh now) state.pending_plans))

-- What the SDK, the hash function and the traversal of a map give one call of prepare_tx.
pub record Tools (Xkey : Type 0) : Type 0 where
  pub sha256 : Text → Text
  pub iterated : List (ℕ × List Coin) → List (ℕ × List Coin)
  pub lock_address : Text → Outcome Text
  pub op_return_data : Text → Text
  pub to_hex : UnsignedTx → Result Text Text
  pub decode : Text → Option (List ℕ)
  pub from_string : Text → Result Text Xkey
  pub derive : Xkey → ℕ × ℕ → Result Text Xkey
  pub address_of : Xkey → Result Text Text

-- What the fee source, the database, the clock and the generator of ids answer in one call.
pub record PrepareAnswers : Type 0 where
  pub default_fee_rate : ℕ
  pub utxo_infos : Result Text (List UtxoInfo)
  pub keys : KeyData
  pub plan_now : ℕ
  pub store_now : ℕ
  pub plan_id : Text

pub record PrepareRequest : Type 0 where
  pub outputs : List PaymentOutput
  pub fee_rate : Option ℕ
  pub op_return : Option Text
  pub coin_selection_strategy : Option Text

-- An empty list of UTXOs is an error.
unfoldable pub fetch_utxos : PrepareAnswers → Option (Result CmdError (List SelectedUtxo))
fetch_utxos answers = and_then (some (Signer.map_err database answers.utxo_infos)) λ infos.
    if length infos == 0 then some (err (transaction no_utxos)) else to_selected answers.keys infos

-- `op_return.map(…)`
abbrev pub decoded_op_return : (Text → Option (List ℕ)) → Option Text → Option (List ℕ)
decoded_op_return decode none = none
decoded_op_return decode (some s) = some (op_return_bytes decode s)

abbrev pub lift_outcome : {A : Type 0} → Option (Outcome A) → Option (Result CmdError A)
lift_outcome none = none
lift_outcome (some r) = some (Signer.map_err transaction r)

-- The plan, if there is one, is stored.
unfoldable pub finish_prepare :
    PrepareAnswers
    → AppState
    → Option (Result CmdError TxPlan)
    → AppState × Option (Result CmdError PrepareTxResult)
finish_prepare answers state none = (state, none)
finish_prepare answers state (some (err e)) = (state, some (err e))
finish_prepare answers state (some (ok plan)) = (
  store_plan answers.store_now answers.plan_id plan state,
  some (ok (prepare_result answers.plan_id plan)),
)

module _ {Xkey : Type 0} (tools : Tools Xkey) where
  -- The address at path 1/0.
  unfoldable pub derive_change_address : Text → Result CmdError Text
  derive_change_address xprv = do
    account_key ← Signer.map_err sdk (tools.from_string xprv)
    child ← Signer.map_err sdk (tools.derive account_key (1, 0))
    Signer.map_err sdk (tools.address_of child)

  -- The transaction that the builder makes of the request.
  unfoldable pub built :
      PrepareAnswers
      → PrepareRequest
      → List SelectedUtxo
      → Text
      → Option Strategy
      → Option (Result CmdError (UnsignedTx × CoinSelectionResult))
  built answers req utxos change_address strategy = lift_outcome (
      build_unsigned tools.sha256 tools.iterated tools.lock_address tools.op_return_data utxos
        req.outputs (some change_address) (rate_or answers.default_fee_rate req.fee_rate)
        (decoded_op_return tools.decode req.op_return) strategy)

  unfoldable pub plan_of :
      PrepareAnswers
      → PrepareRequest
      → ActiveWallet
      → Text
      → UnsignedTx × CoinSelectionResult
      → Result TransactionError TxPlan
  plan_of answers req wallet change_address tx =
      create_plan tools.to_hex answers.plan_now (tx.0) req.outputs (tx.1) (some change_address)
        wallet.wallet_path wallet.account_id tx_plan_ttl
        (decoded_op_return tools.decode req.op_return)

  unfoldable pub prepare_plan :
      PrepareAnswers → PrepareRequest → ActiveWallet × Text → Option (Result CmdError TxPlan)
  prepare_plan answers req w = and_then (fetch_utxos answers) λ utxos.
      and_then (some (derive_change_address (w.1))) λ change_address.
        and_then (some (parse_strategy req.coin_selection_strategy)) λ strategy.
          and_then (built answers req utxos change_address strategy)
            λ tx. some (Signer.map_err transaction (plan_of answers req (w.0) change_address tx))

  unfoldable pub prepare_tx :
      PrepareAnswers
      → PrepareRequest
      → AppState
      → AppState × Option (Result CmdError PrepareTxResult)
  prepare_tx answers req state =
      finish_prepare answers state (and_then (some (unlocked state)) (prepare_plan answers req))
