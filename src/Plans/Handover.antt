-- ===== src/Plans/Handover.antt =====
-- From prepare_tx to sign_tx: the plan that is signed.
use electrum_sv_mc.Prelude.{ℕ, ◌+◌, ◌≤◌, ◌<◌, ◌≡◌, refl, sym, ap, ◌∙◌}
use electrum_sv_mc.Prelude.{false, Option, none, some}
use electrum_sv_mc.Prelude.{arith, ltb}
use electrum_sv_mc.Prelude.{Result, ok, err, >>=-eq-ok}
use electrum_sv_mc.Prelude.Assoc.{retain, lookup-retain-some, lookup-insert}
use electrum_sv_mc.Prelude.Bytes.{bytes_eq_refl}
use electrum_sv_mc.CoinChooser.Types.{Text}
use electrum_sv_mc.Transaction.Types.{CoinSelectionResult, bsv_sdk}
use electrum_sv_mc.Transaction.Build.{UnsignedTx}
use electrum_sv_mc.Signer
use electrum_sv_mc.Plans.{CmdError, ActiveWallet, AppState, TxPlan, Answers}
use electrum_sv_mc.Plans.{
  unlocked, get_wallet_data, is_fresh, with_plans, find_plan, check_plan, check_totp, sign_plan,
  sign_checked, sign_tx,
}
use electrum_sv_mc.Plans.Prepare.{
  PrepareAnswers, PrepareRequest, PrepareTxResult, Tools, prepare_tx, finish_prepare,
  prepare_result, store_plan, and_then, prepare_plan, plan_of, create_plan, fetch_utxos,
  derive_change_address, parse_strategy, built,
}
use electrum_sv_mc.Plans.Sign.{map_err-ok, sign_tx-unlocked}
use mathlib.Core.Option.{some-injective}

pub ok-injective : {E A : Type 0} {a b : A} → ◌≡◌ {A = Result E A} (ok a) (ok b) → a ≡ b
ok-injective h = cc h

pub and_then-ok :
    {E X Y : Type 0} (r : Option (Result E X)) (next : X → Option (Result E Y)) (y : Y)
    → and_then r next ≡ some (ok y)
    → (x : X) × ((r ≡ some (ok x)) × (next x ≡ some (ok y)))
and_then-ok none next y h = cc h
and_then-ok (some (err e)) next y h = cc (some-injective _ _ h)
and_then-ok (some (ok x)) next y h = (x, (refl, h))

-- The plan is bound to the wallet, unsigned, and expires 300 seconds after it was made.
abbrev pub IsBound : Text → ℕ → TxPlan → Type 0
IsBound path now plan =
    (plan.wallet_path ≡ path) × ((plan.expires_at ≡ now + 300) × (plan.signed ≡ false))

module _ {Xkey : Type 0} (tools : Tools Xkey) where
  plan_of-IsBound :
      (answers : PrepareAnswers) (req : PrepareRequest) (w : ActiveWallet) (change : Text)
      (tx : UnsignedTx × CoinSelectionResult) (plan : TxPlan)
      → plan_of tools answers req w change tx ≡ ok plan
      → IsBound w.wallet_path answers.plan_now plan
  unfolding plan_of create_plan
  plan_of-IsBound answers req w change tx plan h =
      let (hex, e, h') = >>=-eq-ok (Signer.map_err bsv_sdk (tools.to_hex (tx.0))) _ h in
      let same = ok-injective h' in rw (sym same) (refl, (refl, refl))

  prepare_plan-IsBound :
      (answers : PrepareAnswers) (req : PrepareRequest) (w : ActiveWallet × Text) (plan : TxPlan)
      → prepare_plan tools answers req w ≡ some (ok plan)
      → IsBound (w.0).wallet_path answers.plan_now plan
  unfolding prepare_plan
  prepare_plan-IsBound answers req w plan h =
      let (utxos, (e₁, h₁)) = and_then-ok (fetch_utxos answers) _ plan h in
      let (change, (e₂, h₂)) = and_then-ok (some (derive_change_address tools (w.1))) _ plan h₁ in
      let (strategy, (e₃, h₃)) =
        and_then-ok (some (parse_strategy req.coin_selection_strategy)) _ plan h₂ in
      let (tx, (e₄, h₄)) = and_then-ok (built tools answers req utxos change strategy) _ plan h₃ in
      plan_of-IsBound answers req (w.0) change tx plan (map_err-ok _ _ plan (some-injective _ _ h₄))

module _ {Tx Key Xkey : Type 0} (api : Signer.Sdk Tx Key Xkey) where
  find_plan-stored :
      (now later : ℕ) (id : Text) (plan : TxPlan) (state : AppState)
      → later < now + 600
      → find_plan later id (store_plan now id plan state) ≡ ok plan
  unfolding find_plan store_plan with_plans
  find_plan-stored now later id plan state t =
      rw
        (lookup-retain-some (is_fresh later) id _ (record { plan = plan; created_at = now })
          (lookup-insert id (record { plan = plan; created_at = now })
            (retain (is_fresh now) state.pending_plans))
          (ground arith))
        refl

  check_plan-bound :
      (plan : TxPlan) (path : Text) (now check_now : ℕ)
      → IsBound path now plan
      → check_now ≤ now + 300
      → check_plan plan path check_now ≡ ok tt
  unfolding check_plan
  check_plan-bound plan path now check_now (p, (x, s)) t =
      let late : ltb plan.expires_at check_now ≡ false = ground (arith, x, t) in
      rw (p, bytes_eq_refl path, s, late) refl

  sign_checked-bound :
      (answers : Answers) (code : Text) (w : ActiveWallet × Text) (plan : TxPlan) (now : ℕ)
      → IsBound (w.0).wallet_path now plan
      → answers.check_now ≤ now + 300
      → check_totp answers code ≡ ok tt
      → sign_checked api answers code w plan ≡ sign_plan api (w.1) plan
  unfolding sign_checked
  sign_checked-bound answers code w plan now b t totp =
      rw (check_plan-bound plan _ now answers.check_now b t, totp) refl

  module _ (tools : Tools Xkey) where
    finish-ok :
        (answers : PrepareAnswers) (state : AppState) (r : Option (Result CmdError TxPlan))
        (result : PrepareTxResult)
        → (finish_prepare answers state r).1 ≡ some (ok result)
        → (plan : TxPlan) × ((r ≡ some (ok plan))
            × (((finish_prepare answers state r).0
                  ≡ store_plan answers.store_now answers.plan_id plan state)
                × (result ≡ prepare_result answers.plan_id plan)))
    unfolding finish_prepare
    finish-ok answers state none result h = cc h
    finish-ok answers state (some (err e)) result h = cc (some-injective _ _ h)
    finish-ok answers state (some (ok plan)) result h =
        (plan, (refl, (refl, cc (some-injective _ _ h))))

    store_plan-unlocked :
        (now : ℕ) (id : Text) (plan : TxPlan) (state : AppState) (w : ActiveWallet × Text)
        → unlocked state ≡ ok w
        → unlocked (store_plan now id plan state) ≡ ok w
    unfolding store_plan with_plans unlocked get_wallet_data
    store_plan-unlocked now id plan state w h = h

    sign_stored :
        (answers : Answers) (code : Text) (w : ActiveWallet × Text) (plan : TxPlan) (now : ℕ)
        (id : Text) (state : AppState) (made : ℕ)
        → unlocked state ≡ ok w
        → IsBound (w.0).wallet_path made plan
        → answers.lookup_now < now + 600
        → answers.check_now ≤ made + 300
        → check_totp answers code ≡ ok tt
        → (sign_tx api answers id code (store_plan now id plan state)).1 ≡ sign_plan api (w.1) plan
    sign_stored answers code w plan now id state made u b l c totp =
        ap (λ r. r.1)
          (sign_tx-unlocked api answers id code _ w (store_plan-unlocked now id plan state w u))
        ∙ rw
            (
              find_plan-stored now answers.lookup_now id plan state l,
              sign_checked-bound answers code w plan made b c totp,
            )
            refl

    -- Where prepare_tx succeeds, sign_tx comes to sign the plan it made, if it is called in time with the id and a
    -- code that passes.
    pub prepare_tx-sign_tx :
        (prepared : PrepareAnswers) (req : PrepareRequest) (answers : Answers) (code : Text)
        (state : AppState) (w : ActiveWallet × Text) (result : PrepareTxResult)
        → unlocked state ≡ ok w
        → (prepare_tx tools prepared req state).1 ≡ some (ok result)
        → answers.lookup_now < prepared.store_now + 600
        → answers.check_now ≤ prepared.plan_now + 300
        → check_totp answers code ≡ ok tt
        → (plan : TxPlan) × ((prepare_plan tools prepared req w ≡ some (ok plan))
            × ((result ≡ prepare_result prepared.plan_id plan)
                × ((sign_tx api answers result.plan_id code
                      (prepare_tx tools prepared req state).0).1
                    ≡ sign_plan api (w.1) plan)))
    unfolding prepare_tx prepare_result
    prepare_tx-sign_tx prepared req answers code state w result u h l c totp =
        let (plan, (e, (kept, r))) =
          finish-ok prepared state
            (and_then (some (unlocked state)) (prepare_plan tools prepared req)) result h in
        let made : prepare_plan tools prepared req w ≡ some (ok plan) = rw (u) at e in
        let bound = prepare_plan-IsBound tools prepared req w plan made in
        let signed =
          sign_stored answers code w plan prepared.store_now prepared.plan_id state
            prepared.plan_now u bound l c totp in
        (plan, (made, (r, rw (r, kept) signed)))
