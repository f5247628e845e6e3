-- ===== src/Examples/Plans.antt =====
-- Runs of the plan store, commands/transactions.rs, with a small SDK: texts are their own transactions and keys.
use electrum_sv_mc.Prelude.{ℕ, ◌≤◌, ◌≡◌, refl, sym, ap}
use electrum_sv_mc.Prelude.{◌≢◌, true, false, none, some}
use electrum_sv_mc.Prelude.{List, [], ◌∷◌, arith}
use electrum_sv_mc.Prelude.{Result, ok, err, ◌>>=◌, length}
use electrum_sv_mc.Prelude.{take, replicate}
use electrum_sv_mc.Prelude.Int.{pos}
use electrum_sv_mc.Prelude.Assoc.{lookup, retain}
use electrum_sv_mc.Prelude.Bytes.{bytes_eq}
use electrum_sv_mc.CoinChooser.Types.{Text}
use electrum_sv_mc.Transaction.Types.{SelectedUtxo}
use electrum_sv_mc.Transaction.Build.{
  UnsignedTx, build_unsigned, select_coins, fee_loop, assemble_tx, payment_outputs, change_outputs,
}
use electrum_sv_mc.Transaction.Select.{select, accumulate}
use electrum_sv_mc.Transaction.Types.{estimate_fee}
use electrum_sv_mc.Prelude.Sort.{sort_desc}
use electrum_sv_mc.Multisig.{AccumulatorMultiSigOutput}
use electrum_sv_mc.Signer
use electrum_sv_mc.Signer.{Sdk, MultisigSigner, multisig_sign_tx}
use electrum_sv_mc.Signer.Threshold.{multisig_sign_tx-fails}
use electrum_sv_mc.Plans
use electrum_sv_mc.Plans.{
  CmdError, ActiveWallet, AppState, TxPlan, PendingPlan, Answers, SignTxResult, unlocked, sign_tx,
}
use electrum_sv_mc.Plans.Prepare
use electrum_sv_mc.Plans.Prepare.{
  PrepareAnswers, PrepareRequest, PrepareTxResult, Tools, UtxoInfo, KeyData, prepare_tx,
  prepare_plan, prepare_result,
}
use electrum_sv_mc.Plans.Broadcast.{Clients, broadcast_tx}
use electrum_sv_mc.Plans.Broadcast
use electrum_sv_mc.Plans.Sign.{IsAuthorised, sign_tx-IsAuthorised, sign_tx-consumes}
use electrum_sv_mc.Plans.Trace.{sign, prepare, times_signed, times_stored, times_signed-le_stored}
use electrum_sv_mc.Plans.Signed.{Values, IsWorking, IsPlanOf, signed_result, prepare_tx-signs}
use electrum_sv_mc.Plans.Txid.{IsAccepted, broadcast_tx-ok}

-- Every key is 78 zero bytes, each input has a source, and a signature is a byte before the transaction.
abbrev sdk : Sdk Text Text Text
sdk = record {
  from_string = λ s. ok s;
  derive = λ k p. ok k;
  base58_payload = λ k. ok (replicate 78 0);
  from_bytes = λ b. ok b;
  public_der = λ k. k;
  p2pkh_lock = λ k. ok k;
  num_inputs = λ tx. 1;
  source_txid = λ tx i. some [];
  sign_input = λ tx i k h v s. ok (9 ∷ tx);
  sighash_preimage = λ tx i h v s. ok tx;
  hash256 = λ b. b;
  sign_hash = λ k h. ok h;
  set_unlocking_script = λ tx i s. s;
  from_hex = λ t. ok t;
  tx_id = λ tx. ok tx;
  to_hex = λ tx. ok tx;
}

abbrev hash160 : List ℕ → List ℕ
hash160 b = take 20 b

abbrev hex : Text → Result Text (List ℕ)
hex t = ok t

abbrev utxo : SelectedUtxo
utxo = record {
  tx_hash_hex = 1 ∷ [];
  tx_index = 0;
  satoshis = 5000;
  keyinstance_id = 1;
  subpath = (0, 3);
}

abbrev two_of_two : AccumulatorMultiSigOutput
two_of_two = record { public_keys = replicate 32 0 ∷ (1 ∷ []) ∷ []; threshold = pos 2 }

abbrev cosigner : MultisigSigner
cosigner = record { xprv = 7 ∷ []; multisig = two_of_two; local_key_index = 0 }

multisig_sign_tx-fails_example :
    multisig_sign_tx sdk hash160 cosigner (8 ∷ []) (utxo ∷ []) ≢ some (ok (9 ∷ []))
multisig_sign_tx-fails_example =
    multisig_sign_tx-fails sdk hash160 cosigner 0 (8 ∷ []) (9 ∷ []) (utxo ∷ []) refl

abbrev wallet : ActiveWallet
wallet = record { account_id = 1; wallet_path = 4 ∷ []; decrypted_xprv = some (7 ∷ []) }

abbrev plan : TxPlan
plan = record {
  unsigned_tx_hex = 8 ∷ [];
  outputs = [];
  inputs = utxo ∷ [];
  fee = 96;
  change = 0;
  change_address = none;
  total_input = 5000;
  total_output = 4904;
  wallet_path = 4 ∷ [];
  account_id = 1;
  created_at = 100;
  expires_at = 400;
  signed = false;
  signed_tx_hex = none;
  txid = none;
  op_return = none;
}

abbrev no_plans : AppState
no_plans = record { active_wallet = some wallet; pending_plans = [] }

abbrev one_plan : AppState
one_plan = record {
  active_wallet = some wallet;
  pending_plans = (5 ∷ [], record { plan = plan; created_at = 100 }) ∷ [];
}

-- The secret is the code.
abbrev answers : Answers
answers = record {
  lookup_now = 300;
  check_now = 301;
  is_totp_enabled = ok true;
  load_totp_secret = ok (some (1 ∷ 2 ∷ []));
  verify_current = λ secret code. ok true;
}

sign_tx-IsAuthorised_example :
    IsAuthorised sdk answers
      (5 ∷ [])
      (1 ∷ 2 ∷ [])
      one_plan
      (record { txid = 9 ∷ 8 ∷ []; signed_tx_hex = 9 ∷ 8 ∷ [] })
unfolding sign_tx unlocked Plans.get_wallet_data Plans.find_plan Plans.sign_checked Plans.check_plan
    Plans.check_totp Plans.sign_plan Plans.sign_result Signer.local_sign_tx Signer.checked
    Signer.sign_each Signer.sign_one Signer.derive_private_key Signer.key_of_payload lookup retain
    bytes_eq
sign_tx-IsAuthorised_example =
    sign_tx-IsAuthorised sdk answers (5 ∷ []) (1 ∷ 2 ∷ []) one_plan
      (record { txid = 9 ∷ 8 ∷ []; signed_tx_hex = 9 ∷ 8 ∷ [] }) (refl, tt) refl

sign_tx-consumes_example :
    (lookup (5 ∷ []) (sign_tx sdk answers (5 ∷ []) (1 ∷ []) one_plan).0.pending_plans ≡ none)
    × ((sign_tx sdk answers
          (5 ∷ [])
          (1 ∷ 2 ∷ [])
          (sign_tx sdk answers (5 ∷ []) (1 ∷ []) one_plan).0).1
        ≡ err CmdError.plan_not_found)
unfolding unlocked Plans.get_wallet_data lookup
sign_tx-consumes_example =
    sign_tx-consumes sdk answers answers (5 ∷ []) (1 ∷ []) (1 ∷ 2 ∷ []) one_plan (wallet, 7 ∷ [])
      (refl, tt) refl

abbrev tools : Tools Text
tools = record {
  sha256 = λ t. t;
  iterated = λ l. l;
  lock_address = λ a. ok a;
  op_return_data = λ b. b;
  to_hex = λ tx. ok (8 ∷ []);
  decode = λ t. none;
  from_string = λ s. ok s;
  derive = λ k p. ok k;
  address_of = λ k. ok k;
}

abbrev prepared : PrepareAnswers
prepared = record {
  default_fee_rate = 1;
  utxo_infos =
      ok (record { tx_hash_hex = 1 ∷ []; tx_index = 0; value = 5000; keyinstance_id = 1 } ∷ []);
  keys = record {
    get_keyinstance = λ id. ok (some []);
    subpath_array = λ d. ok (some (some 0 ∷ some 3 ∷ []));
  };
  plan_now = 100;
  store_now = 100;
  plan_id = 5 ∷ [];
}

abbrev request : PrepareRequest
request = record {
  outputs = record { address = 6 ∷ []; satoshis = 1000 } ∷ [];
  fee_rate = some 1;
  op_return = none;
  coin_selection_strategy = none;
}

times_signed-le_stored_example :
    times_signed sdk tools hash160 hex (5 ∷ []) no_plans (
      prepare prepared request
      ∷ sign answers (5 ∷ []) (1 ∷ [])
      ∷ sign answers (5 ∷ []) (1 ∷ [])
      ∷ [])
    ≤ times_stored sdk tools hash160 hex (5 ∷ []) no_plans (
        prepare prepared request
        ∷ sign answers (5 ∷ []) (1 ∷ [])
        ∷ sign answers (5 ∷ []) (1 ∷ [])
        ∷ [])
times_signed-le_stored_example =
    times_signed-le_stored sdk tools hash160 hex (5 ∷ []) no_plans
      (prepare prepared request
        ∷ sign answers (5 ∷ []) (1 ∷ [])
        ∷ sign answers (5 ∷ []) (1 ∷ [])
        ∷ [])
      refl

abbrev clients : Clients
clients = record { client = none; woc_client = some (λ raw. ok raw) }

broadcast_tx-ok_example :
    (◌≡◌ {A = Text} (8 ∷ []) (8 ∷ []))
    × (((tx : Text) × ((sdk.from_hex (8 ∷ []) ≡ ok tx) × (sdk.tx_id tx ≡ ok (8 ∷ []))))
        × IsAccepted hex clients (8 ∷ []) (8 ∷ []))
unfolding broadcast_tx Plans.Broadcast.send Plans.Broadcast.confirm Plans.Broadcast.broadcaster
    bytes_eq
broadcast_tx-ok_example = broadcast_tx-ok sdk hex clients (8 ∷ []) (8 ∷ []) (8 ∷ []) refl

abbrev figures : PrepareTxResult
figures = record {
  plan_id = 5 ∷ [];
  fee = 226;
  total_input = 5000;
  total_output = 4774;
  change = 3774;
  num_inputs = 1;
  num_outputs = 2;
}

-- Transactions are their number of inputs and their signatures.
abbrev read_count : Text → Result Text (ℕ × Text)
read_count [] = err []
read_count (n ∷ rest) = ok (n, rest)

abbrev counting_sdk : Sdk (ℕ × Text) Text Text
counting_sdk = record {
  from_string = λ s. ok s;
  derive = λ k p. ok k;
  base58_payload = λ k. ok (replicate 78 0);
  from_bytes = λ b. ok b;
  public_der = λ k. k;
  p2pkh_lock = λ k. ok k;
  num_inputs = λ tx. tx.0;
  source_txid = λ tx i. some [];
  sign_input = λ tx i k h v s. ok (tx.0, v ∷ tx.1);
  sighash_preimage = λ tx i h v s. ok (tx.1);
  hash256 = λ b. b;
  sign_hash = λ k h. ok h;
  set_unlocking_script = λ tx i s. (tx.0, s);
  from_hex = read_count;
  tx_id = λ tx. ok (tx.1);
  to_hex = λ tx. ok (tx.0 ∷ tx.1);
}

abbrev values : Values (ℕ × Text) Text
values = record {
  key_at = λ p. replicate 32 0;
  lock = λ k. k;
  load = λ tx. (length tx.inputs, []);
  sign_at = λ tx i k v s. (tx.0, v ∷ tx.1);
  id = λ tx. tx.1;
  print = λ tx. tx.0 ∷ tx.1;
}

abbrev count_hex : UnsignedTx → Result Text Text
count_hex tx = ok (length tx.inputs ∷ [])

abbrev counting_tools : Tools Text
counting_tools = record tools { to_hex = count_hex }

counting-IsWorking : IsWorking counting_sdk count_hex (7 ∷ []) values
counting-IsWorking = record {
  some_key = refl;
  account = 7 ∷ [];
  opened = refl;
  derives = λ path. record {
    child = 7 ∷ [];
    payload = replicate 78 0;
    derived = refl;
    encoded = refl;
    size = omega arith;
    prefix = refl;
    private = refl;
  };
  locks = λ k. refl;
  reads = λ tx hex h. ap (λ r. r >>= read_count) (sym h);
  loaded = λ tx. refl;
  sourced = λ tx i h. ([], refl);
  signs = λ tx i k v s h. refl;
  kept = λ tx i k v s. refl;
  identified = λ tx. refl;
  printed = λ tx. refl;
}

prepare_tx-signs_example :
    (made : TxPlan) × (tx : UnsignedTx) × (prepare_plan counting_tools prepared request
        (wallet, 7 ∷ [])
      ≡ some (ok made))
    × IsPlanOf counting_tools made tx
    × (figures ≡ prepare_result prepared.plan_id made)
    × ((sign_tx counting_sdk answers figures.plan_id
          (1 ∷ [])
          (prepare_tx counting_tools prepared request no_plans).0).1
        ≡ ok (signed_result values tx made.inputs))
unfolding unlocked Plans.get_wallet_data Plans.check_totp Prepare.prepare_tx Prepare.prepare_plan
    Prepare.finish_prepare Prepare.fetch_utxos Prepare.to_selected Prepare.subpath_of
    Prepare.read_subpath Prepare.from_utxo_info Prepare.derive_change_address Prepare.parse_strategy
    Prepare.built Prepare.plan_of Prepare.create_plan Prepare.store_plan Prepare.prepare_result
    build_unsigned select_coins fee_loop select estimate_fee accumulate sort_desc assemble_tx
    payment_outputs change_outputs
prepare_tx-signs_example =
    prepare_tx-signs counting_sdk counting_tools values prepared request answers (1 ∷ []) no_plans
      (wallet, 7 ∷ []) figures counting-IsWorking refl refl (omega arith) (omega arith) refl
