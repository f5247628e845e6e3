-- ===== src/Plans/Sign.antt =====
-- When sign_tx signs, and what it leaves in the store.
use electrum_sv_mc.Prelude.{ℕ, ◌+◌, ◌≤◌, ◌<◌, ◌≡◌, refl, sym, ap, ◌∙◌}
use electrum_sv_mc.Prelude.{inl, inr, Bool, true, false, Option, none, some}
use electrum_sv_mc.Prelude.{List, arith, if◌then◌else◌}
use electrum_sv_mc.Prelude.{Result, ok, err, ok_or, Result-cases, >>=-eq-ok}
use electrum_sv_mc.Prelude.Assoc.{
  lookup, retain, IsMap, lookup-retain, lookup-take_out, lookup-retain-none, retain-IsMap,
}
use electrum_sv_mc.Prelude.Bytes.{bytes_eq_iff}
use electrum_sv_mc.CoinChooser.Types.{Text}
use electrum_sv_mc.Signer
use electrum_sv_mc.Plans.{
  CmdError, ActiveWallet, AppState, TxPlan, PendingPlan, Answers, SignTxResult,
}
use electrum_sv_mc.Plans.{totp_not_enabled, database, totp}
use electrum_sv_mc.Plans.{
  unlocked, get_wallet_data, is_fresh, with_plans, consume, find_plan, check_plan, check_totp,
  sign_plan, sign_checked, sign_found, sign_tx,
}

ok_or-ok : {E A : Type 0} (o : Option A) (e : E) (a : A) → ok_or o e ≡ ok a → o ≡ some a
ok_or-ok none e a h = cc h
ok_or-ok (some b) e a h = cc h

pub map_err-ok :
    {E F A : Type 0} (f : E → F) (r : Result E A) (a : A) → Signer.map_err f r ≡ ok a → r ≡ ok a
map_err-ok f (err e) a h = cc h
map_err-ok f (ok b) a h = cc h

pub unlocked-ok :
    (state : AppState) (w : ActiveWallet × Text)
    → unlocked state ≡ ok w
    → (state.active_wallet ≡ some (w.0)) × ((w.0).decrypted_xprv ≡ some (w.1))
unfolding unlocked get_wallet_data
unlocked-ok state w h =
    let (wallet, e₁, h₁) = >>=-eq-ok (ok_or state.active_wallet CmdError.no_wallet_open) _ h in
    let (xprv, e₂, h₂) = >>=-eq-ok (ok_or wallet.decrypted_xprv CmdError.wallet_locked) _ h₁ in
    (cc (ok_or-ok _ _ wallet e₁, h₂), cc (ok_or-ok _ _ xprv e₂, h₂))

pub find_plan-ok :
    (now : ℕ) (id : Text) (state : AppState) (plan : TxPlan)
    → IsMap state.pending_plans
    → find_plan now id state ≡ ok plan
    → (pp : PendingPlan) × ((lookup id state.pending_plans ≡ some pp)
        × ((now < pp.created_at + 600) × (pp.plan ≡ plan)))
unfolding find_plan
find_plan-ok now id state plan m h =
    let (pp, e, h') =
      >>=-eq-ok
        (ok_or (lookup id (retain (is_fresh now) state.pending_plans)) CmdError.plan_not_found) _
        h in
    let (found, fresh) =
      lookup-retain (is_fresh now) id state.pending_plans pp m (ok_or-ok _ _ pp e) in
    (pp, (found, (ground (arith, fresh), cc h')))

check_plan-ok :
    (plan : TxPlan) (path : Text) (now : ℕ) (u : Unit)
    → check_plan plan path now ≡ ok u
    → (plan.wallet_path ≡ path) × ((now ≤ plan.expires_at) × (plan.signed ≡ false))
unfolding check_plan
check_plan-ok plan path now u h = ground (arith, h, bytes_eq_iff plan.wallet_path path)

-- A test that is passed.
passed : (b : Bool) (e : CmdError) (u : Unit) → (if b then ok tt else err e) ≡ ok u → b ≡ true
passed true e u h = refl
passed false e u h = cc h

check_totp-ok :
    (answers : Answers) (code : Text) (u : Unit)
    → check_totp answers code ≡ ok u
    → (answers.is_totp_enabled ≡ ok true)
      × ((secret : List ℕ) × ((answers.load_totp_secret ≡ ok (some secret))
            × (answers.verify_current secret code ≡ ok true)))
unfolding check_totp
check_totp-ok answers code u h =
    let (enabled, e₁, h₁) = >>=-eq-ok (Signer.map_err database answers.is_totp_enabled) _ h in
    let (v, e₂, h₂) = >>=-eq-ok (if enabled then ok tt else err totp_not_enabled) _ h₁ in
    let (stored, e₃, h₃) = >>=-eq-ok (Signer.map_err database answers.load_totp_secret) _ h₂ in
    let (secret, e₄, h₄) = >>=-eq-ok (ok_or stored totp_not_enabled) _ h₃ in
    let (valid, e₅, h₅) =
      >>=-eq-ok (Signer.map_err totp (answers.verify_current secret code)) _ h₄ in
    (
      map_err-ok _ _ _ e₁ ∙ ap ok (passed enabled _ v e₂),
      (
        secret,
        (
          map_err-ok _ _ _ e₃ ∙ ap ok (ok_or-ok stored _ secret e₄),
          map_err-ok _ _ _ e₅ ∙ ap ok (passed valid _ u h₅),
        ),
      ),
    )

-- The conditions under which a call of sign_tx may sign, and what it then signs: the plan that is stored under the
-- id.
abbrev pub IsAuthorised :
    {Tx Key Xkey : Type 0}
    → Signer.Sdk Tx Key Xkey
    → Answers
    → Text
    → Text
    → AppState
    → SignTxResult
    → Type 0
IsAuthorised api answers plan_id code state r =
    (w : ActiveWallet × Text) × (((state.active_wallet ≡ some (w.0))
        × ((w.0).decrypted_xprv ≡ some (w.1)))
      × ((pp : PendingPlan) × (((lookup plan_id state.pending_plans ≡ some pp)
              × (answers.lookup_now < pp.created_at + 600))
            × ((((pp.plan).wallet_path ≡ (w.0).wallet_path)
                  × ((answers.check_now ≤ (pp.plan).expires_at) × ((pp.plan).signed ≡ false)))
                × (((answers.is_totp_enabled ≡ ok true)
                      × ((secret : List ℕ) × ((answers.load_totp_secret ≡ ok (some secret))
                            × (answers.verify_current secret code ≡ ok true))))
                    × (sign_plan api (w.1) pp.plan ≡ ok r))))))

module _ {Tx Key Xkey : Type 0} (api : Signer.Sdk Tx Key Xkey) where
  sign_checked-ok :
      (answers : Answers) (plan_id code : Text) (state : AppState) (w : ActiveWallet × Text)
      (plan : TxPlan) (r : SignTxResult)
      → sign_checked api answers code w plan ≡ ok r
      → ((plan.wallet_path ≡ (w.0).wallet_path)
          × ((answers.check_now ≤ plan.expires_at) × (plan.signed ≡ false)))
        × (((answers.is_totp_enabled ≡ ok true)
              × ((secret : List ℕ) × ((answers.load_totp_secret ≡ ok (some secret))
                    × (answers.verify_current secret code ≡ ok true))))
            × (sign_plan api (w.1) plan ≡ ok r))
  unfolding sign_checked
  sign_checked-ok answers plan_id code state w plan r h =
      let (u, e₁, h₁) = >>=-eq-ok (check_plan plan ((w.0).wallet_path) answers.check_now) _ h in
      let (v, e₂, h₂) = >>=-eq-ok (check_totp answers code) _ h₁ in
      (check_plan-ok plan _ _ u e₁, (check_totp-ok answers code v e₂, h₂))

  -- sign_tx signs only if a wallet is open and unlocked, a plan is stored under the id since less than 600 seconds,
  -- it names this wallet's path, has not expired and is unsigned, TOTP is enabled with a stored secret, and the code
  -- verifies against that secret. What it returns is the stored plan, signed with the wallet's key.
  pub sign_tx-IsAuthorised :
      (answers : Answers) (plan_id code : Text) (state : AppState) (r : SignTxResult)
      → IsMap state.pending_plans
      → (sign_tx api answers plan_id code state).1 ≡ ok r
      → IsAuthorised api answers plan_id code state r
  unfolding sign_tx
  sign_tx-IsAuthorised answers plan_id code state r m h = elim (Result-cases (unlocked state)) [
    | inr (x, e) ↦ cc (rw (e, sign_tx) at h)
    | inl (w, e) ↦
        let (plan, e₁, h₁) =
          >>=-eq-ok (find_plan answers.lookup_now plan_id state) (sign_checked api answers code w)
            (rw (e, sign_tx) at h) in
        let (pp, (found, (fresh, same))) =
          find_plan-ok answers.lookup_now plan_id state plan m e₁ in
        (
          w,
          (
            unlocked-ok state w e,
            (
              pp,
              (
                (found, fresh),
                sign_checked-ok answers plan_id code state w pp.plan r (rw (sym same) at h₁),
              ),
            ),
          ),
        )
  ]

  pub sign_tx-locked :
      (answers : Answers) (id code : Text) (state : AppState) (x : CmdError)
      → unlocked state ≡ err x
      → sign_tx api answers id code state ≡ (state, err x)
  unfolding sign_tx
  sign_tx-locked answers id code state x e = rw (e, sign_tx) refl

  pub sign_tx-unlocked :
      (answers : Answers) (id code : Text) (state : AppState) (w : ActiveWallet × Text)
      → unlocked state ≡ ok w
      → sign_tx api answers id code state
        ≡ (consume answers.lookup_now id state, sign_found api answers id code state w)
  unfolding sign_tx
  sign_tx-unlocked answers id code state w e = rw (e, sign_tx) refl

  pub sign_tx-store :
      (answers : Answers) (plan_id code : Text) (state : AppState) (w : ActiveWallet × Text)
      → unlocked state ≡ ok w
      → (sign_tx api answers plan_id code state).0 ≡ consume answers.lookup_now plan_id state
  unfolding sign_tx
  sign_tx-store answers plan_id code state w h = rw (h, sign_tx) refl

  sign_tx-missing :
      (answers : Answers) (plan_id code : Text) (state : AppState) (w : ActiveWallet × Text)
      → unlocked state ≡ ok w
      → lookup plan_id state.pending_plans ≡ none
      → (sign_tx api answers plan_id code state).1 ≡ err CmdError.plan_not_found
  unfolding sign_tx find_plan
  sign_tx-missing answers plan_id code state w h f =
      rw
        (h, sign_tx, lookup-retain-none (is_fresh answers.lookup_now) plan_id state.pending_plans f)
        refl

  consume-gone :
      (now : ℕ) (plan_id : Text) (state : AppState)
      → IsMap state.pending_plans
      → lookup plan_id (consume now plan_id state).pending_plans ≡ none
  unfolding consume with_plans
  consume-gone now plan_id state m =
      lookup-take_out plan_id _ (retain-IsMap (is_fresh now) state.pending_plans m)

  consume-unlocked :
      (now : ℕ) (plan_id : Text) (state : AppState) (w : ActiveWallet × Text)
      → unlocked state ≡ ok w
      → unlocked (consume now plan_id state) ≡ ok w
  unfolding consume with_plans unlocked get_wallet_data
  consume-unlocked now plan_id state w h = h

  -- Once the wallet is unlocked, a call of sign_tx leaves no plan under its id, whether it signs or fails, and
  -- a second call with the id, whatever its answers and code, finds no plan.
  pub sign_tx-consumes :
      (answers again : Answers) (plan_id code code' : Text) (state : AppState)
      (w : ActiveWallet × Text)
      → IsMap state.pending_plans
      → unlocked state ≡ ok w
      → let later = (sign_tx api answers plan_id code state).0 in
        (lookup plan_id later.pending_plans ≡ none)
        × ((sign_tx api again plan_id code' later).1 ≡ err CmdError.plan_not_found)
  sign_tx-consumes answers again plan_id code code' state w m h =
      let kept = sign_tx-store answers plan_id code state w h in
      let gone = consume-gone answers.lookup_now plan_id state m in
      rw (kept) (
        gone,
        sign_tx-missing again plan_id code' _ w
            (consume-unlocked answers.lookup_now plan_id state w h) gone,
      )
