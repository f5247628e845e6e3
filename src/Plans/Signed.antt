-- ===== src/Plans/Signed.antt =====
-- From prepare_tx to the signed transaction that sign_tx returns, with an SDK that does what its documents say.
use electrum_sv_mc.Prelude.{ℕ, suc, ◌+◌, ◌≤◌, ◌<◌, ◌≡◌, refl, sym, ap, ◌∙◌}
use electrum_sv_mc.Prelude.{true, false, Option, none, some}
use electrum_sv_mc.Prelude.{List, [], ◌∷◌, map, arith, ltb, ◌==◌, ==_iff}
use electrum_sv_mc.Prelude.{Result, ok, >>=-eq-ok}
use electrum_sv_mc.Prelude.{length, take, drop, get_elem?}
use electrum_sv_mc.CoinChooser.Types.{Text}
use electrum_sv_mc.Transaction.Types.{SelectedUtxo, CoinSelectionResult, bsv_sdk}
use electrum_sv_mc.Transaction.Select.{Outcome}
use electrum_sv_mc.Transaction.Build.{UnsignedTx, to_input}
use electrum_sv_mc.Transaction.Build.Laws.{build_unsigned-inputs}
use electrum_sv_mc.Signer
use electrum_sv_mc.Signer.{
  Sdk, can_sign, derive_private_key, key_of_payload, sign_one, sign_each, checked, local_sign_tx,
}
use electrum_sv_mc.Plans.{
  ActiveWallet, AppState, TxPlan, Answers, SignTxResult, unlocked, check_totp, sign_plan,
  sign_result, sign_tx,
}
use electrum_sv_mc.Plans.Broadcast.{rate_or}
use electrum_sv_mc.Plans.Prepare.{
  PrepareAnswers, PrepareRequest, PrepareTxResult, Tools, prepare_tx, prepare_result, prepare_plan,
  plan_of, create_plan, fetch_utxos, derive_change_address, parse_strategy, built, lift_outcome,
  decoded_op_return,
}
use electrum_sv_mc.Plans.Sign.{map_err-ok}
use electrum_sv_mc.Plans.Handover.{ok-injective, and_then-ok, prepare_tx-sign_tx}
use mathlib.Core.Option.{some-injective}

-- The values that the calls of a working SDK give: keys by their paths, scripts, loaded and signed transactions.
pub record Values (Tx Key : Type 0) : Type 0 where
  pub key_at : ℕ × ℕ → Key
  pub lock : Key → List ℕ
  pub load : UnsignedTx → Tx
  pub sign_at : Tx → ℕ → Key → ℕ → List ℕ → Tx
  pub id : Tx → Text
  pub print : Tx → Text

-- An extended key opens, and a path leads to a private key: its payload has the 78 bytes of the format, with the
-- zero before the key.
pub record Derives {Tx Key Xkey : Type 0} (api : Sdk Tx Key Xkey) (account : Xkey) (path : ℕ × ℕ)
    (key : Key) : Type 0 where
  pub child : Xkey
  pub payload : List ℕ
  pub derived : api.derive account path ≡ ok child
  pub encoded : api.base58_payload child ≡ ok payload
  pub size : 78 ≤ length payload
  pub prefix : get_elem? payload 45 ≡ some 0
  pub private : api.from_bytes (take 32 (drop 46 payload)) ≡ ok key

-- What is documented of the SDK: a transaction reads back from its hex, each input is signed in its place, and the
-- number of inputs stays.
pub record IsWorking {Tx Key Xkey : Type 0} (api : Sdk Tx Key Xkey)
    (to_hex : UnsignedTx → Result Text Text) (xprv : Text) (v : Values Tx Key) : Type 0 where
  pub some_key : can_sign xprv ≡ true
  pub account : Xkey
  pub opened : api.from_string xprv ≡ ok account
  pub derives : (path : ℕ × ℕ) → Derives api account path (v.key_at path)
  pub locks : (k : Key) → api.p2pkh_lock k ≡ ok (v.lock k)
  pub reads :
      (tx : UnsignedTx) (hex : Text) → to_hex tx ≡ ok hex → api.from_hex hex ≡ ok (v.load tx)
  pub loaded : (tx : UnsignedTx) → api.num_inputs (v.load tx) ≡ length tx.inputs
  pub sourced :
      (tx : Tx) (i : ℕ) → i < api.num_inputs tx → (t : Text) × (api.source_txid tx i ≡ some t)
  pub signs :
      (tx : Tx) (i : ℕ) (k : Key) (value : ℕ) (script : List ℕ)
      → i < api.num_inputs tx
      → api.sign_input tx i k 0x41 value script ≡ ok (v.sign_at tx i k value script)
  pub kept :
      (tx : Tx) (i : ℕ) (k : Key) (value : ℕ) (script : List ℕ)
      → api.num_inputs (v.sign_at tx i k value script) ≡ api.num_inputs tx
  pub identified : (tx : Tx) → api.tx_id tx ≡ ok (v.id tx)
  pub printed : (tx : Tx) → api.to_hex tx ≡ ok (v.print tx)

module _ {Tx Key : Type 0} (v : Values Tx Key) where
  -- Input `i` is signed for the first coin, with the key of its path, its value and its script; and so on.
  pub signed_from : ℕ → List SelectedUtxo → Tx → Tx
  signed_from i [] tx = tx
  signed_from i (u ∷ us) tx =
      signed_from (i + 1) us
        (v.sign_at tx i (v.key_at u.subpath) u.satoshis (v.lock (v.key_at u.subpath)))

  -- The plan's transaction with every input signed.
  abbrev pub signed_result : UnsignedTx → List SelectedUtxo → SignTxResult
  signed_result tx inputs = record {
    txid = v.id (signed_from 0 inputs (v.load tx));
    signed_tx_hex = v.print (signed_from 0 inputs (v.load tx));
  }

module _ {Tx Key Xkey : Type 0} (api : Sdk Tx Key Xkey) (to_hex : UnsignedTx → Result Text Text)
    (xprv : Text) (v : Values Tx Key) (works : IsWorking api to_hex xprv v) where
  derive_private_key-ok : (path : ℕ × ℕ) → derive_private_key api xprv path ≡ ok (v.key_at path)
  unfolding derive_private_key key_of_payload
  derive_private_key-ok path =
      let d = works.derives path in
      let long : ltb (length d.payload) 78 ≡ false = ground (arith, d.size) in
      rw (works.opened, d.derived, d.encoded, long, d.prefix, d.private) refl

  sign_one-ok :
      (i : ℕ) (u : SelectedUtxo) (tx : Tx)
      → i < api.num_inputs tx
      → sign_one api xprv i u tx
        ≡ ok (v.sign_at tx i (v.key_at u.subpath) u.satoshis (v.lock (v.key_at u.subpath)))
  unfolding sign_one
  sign_one-ok i u tx h =
      let (t, e) = works.sourced tx i h in
      rw
        (
          e,
          sign_one,
          derive_private_key-ok u.subpath,
          works.locks (v.key_at u.subpath),
          works.signs tx i (v.key_at u.subpath) u.satoshis (v.lock (v.key_at u.subpath)) h,
        )
        refl

  sign_each-ok :
      (i : ℕ) (us : List SelectedUtxo) (tx : Tx)
      → i + length us ≤ api.num_inputs tx
      → sign_each api xprv i us tx ≡ ok (signed_from v i us tx)
  unfolding sign_each signed_from
  sign_each-ok i [] tx h = refl
  sign_each-ok i (u ∷ us) tx h =
      let k = v.key_at u.subpath in
      rw (sign_one-ok i u tx (omega arith)) (
        sign_each-ok (i + 1) us (v.sign_at tx i k u.satoshis (v.lock k))
          (omega (arith, works.kept tx i k u.satoshis (v.lock k))))

  local_sign_tx-ok :
      (us : List SelectedUtxo) (tx : Tx)
      → api.num_inputs tx ≡ length us
      → local_sign_tx api xprv tx us ≡ ok (signed_from v 0 us tx)
  unfolding local_sign_tx checked
  local_sign_tx-ok us tx same =
      let counted : (api.num_inputs tx == length us) ≡ true = (==_iff _ _).1 same in
      rw (works.some_key, counted) (sign_each-ok 0 us tx (omega arith))

  sign_plan-ok :
      (plan : TxPlan) (tx : UnsignedTx)
      → to_hex tx ≡ ok plan.unsigned_tx_hex
      → length tx.inputs ≡ length plan.inputs
      → sign_plan api xprv plan ≡ ok (signed_result v tx plan.inputs)
  unfolding sign_plan sign_result
  sign_plan-ok plan tx e same =
      rw
        (
          works.reads tx plan.unsigned_tx_hex e,
          local_sign_tx-ok plan.inputs (v.load tx) (works.loaded tx ∙ same),
          works.identified (signed_from v 0 plan.inputs (v.load tx)),
          works.printed (signed_from v 0 plan.inputs (v.load tx)),
        )
        refl

lift_outcome-ok :
    {A : Type 0} (o : Option (Outcome A)) (a : A) → lift_outcome o ≡ some (ok a) → o ≡ some (ok a)
lift_outcome-ok none a h = cc h
lift_outcome-ok (some r) a h = ap some (map_err-ok _ r a (some-injective _ _ h))

length-map_input : (l : List SelectedUtxo) → length (map to_input l) ≡ length l
length-map_input [] = refl
length-map_input (u ∷ l) = ap suc (length-map_input l)

module _ {Xkey : Type 0} (tools : Tools Xkey) where
  -- The plan is that of an unsigned transaction, which spends its inputs in order.
  abbrev pub IsPlanOf : TxPlan → UnsignedTx → Type 0
  IsPlanOf plan tx =
      (tools.to_hex tx ≡ ok plan.unsigned_tx_hex) × (tx.inputs ≡ map to_input plan.inputs)

  plan_of-IsPlanOf :
      (answers : PrepareAnswers) (req : PrepareRequest) (w : ActiveWallet) (change : Text)
      (tx : UnsignedTx) (r : CoinSelectionResult) (plan : TxPlan)
      → tx.inputs ≡ map to_input r.selected
      → plan_of tools answers req w change (tx, r) ≡ ok plan
      → IsPlanOf plan tx
  unfolding plan_of create_plan
  plan_of-IsPlanOf answers req w change tx r plan spends h =
      let (hex, e, h') = >>=-eq-ok (Signer.map_err bsv_sdk (tools.to_hex tx)) _ h in
      rw (sym (ok-injective h')) (map_err-ok _ _ hex e, spends)

  prepare_plan-IsPlanOf :
      (answers : PrepareAnswers) (req : PrepareRequest) (w : ActiveWallet × Text) (plan : TxPlan)
      → prepare_plan tools answers req w ≡ some (ok plan)
      → (tx : UnsignedTx) × IsPlanOf plan tx
  unfolding prepare_plan built
  prepare_plan-IsPlanOf answers req w plan h =
      let (utxos, (e₁, h₁)) = and_then-ok (fetch_utxos answers) _ plan h in
      let (change, (e₂, h₂)) = and_then-ok (some (derive_change_address tools (w.1))) _ plan h₁ in
      let (strategy, (e₃, h₃)) =
        and_then-ok (some (parse_strategy req.coin_selection_strategy)) _ plan h₂ in
      let ((tx, r), (e₄, h₄)) =
        and_then-ok (built tools answers req utxos change strategy) _ plan h₃ in
      let spends =
        build_unsigned-inputs tools.sha256 tools.iterated tools.lock_address tools.op_return_data
          utxos req.outputs (some change) (rate_or answers.default_fee_rate req.fee_rate)
          (decoded_op_return tools.decode req.op_return) strategy tx r
          (lift_outcome-ok _ (tx, r) e₄) in
      (
        tx,
        plan_of-IsPlanOf answers req (w.0) change tx r plan spends
            (map_err-ok _ _ plan (some-injective _ _ h₄)),
      )

-- With an SDK that works for the wallet's key: where prepare_tx succeeds, it answers with the id and the figures of a
-- plan of the request, which is that of an unsigned transaction that spends the plan's inputs in order. If sign_tx is
-- then called with that id, less than 600 seconds after the plan was stored and at most 300 seconds after it was
-- made, with a code that passes the TOTP check, and the same wallet, it succeeds: it returns the id and the hex of
-- that transaction with every input signed, each with the key of its coin's path, and its coin's value.
pub prepare_tx-signs :
    {Tx Key Xkey : Type 0} (api : Sdk Tx Key Xkey) (tools : Tools Xkey) (v : Values Tx Key)
    (prepared : PrepareAnswers) (req : PrepareRequest) (answers : Answers) (code : Text)
    (state : AppState) (w : ActiveWallet × Text) (result : PrepareTxResult)
    → IsWorking api tools.to_hex (w.1) v
    → unlocked state ≡ ok w
    → (prepare_tx tools prepared req state).1 ≡ some (ok result)
    → answers.lookup_now < prepared.store_now + 600
    → answers.check_now ≤ prepared.plan_now + 300
    → check_totp answers code ≡ ok tt
    → (plan : TxPlan) × (tx : UnsignedTx) × (prepare_plan tools prepared req w ≡ some (ok plan))
      × IsPlanOf tools plan tx
      × (result ≡ prepare_result prepared.plan_id plan)
      × ((sign_tx api answers result.plan_id code (prepare_tx tools prepared req state).0).1
          ≡ ok (signed_result v tx plan.inputs))
prepare_tx-signs api tools v prepared req answers code state w result works u h l c totp =
    let (plan, (made, (figures, run))) =
      prepare_tx-sign_tx api tools prepared req answers code state w result u h l c totp in
    let (tx, of) = prepare_plan-IsPlanOf tools prepared req w plan made in
    let counted : length tx.inputs ≡ length plan.inputs =
      ap length (of.1) ∙ length-map_input plan.inputs in
    (
      plan,
      tx,
      made,
      of,
      figures,
      run ∙ sign_plan-ok api tools.to_hex (w.1) v works plan tx (of.0) counted,
    )
