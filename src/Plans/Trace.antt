-- ===== src/Plans/Trace.antt =====
-- Sequences of calls that change the wallet or the plan store, and how often a plan id signs.
use electrum_sv_mc.Prelude.{ℕ, ◌+◌, ◌≤◌, ◌≡◌, refl, ap}
use electrum_sv_mc.Prelude.{inl, inr, Bool, true, false, Option, none, some}
use electrum_sv_mc.Prelude.{List, [], ◌∷◌, arith, if◌then◌else◌}
use electrum_sv_mc.Prelude.{Result, ok, err, Result-cases, Bool-cases}
use electrum_sv_mc.Prelude.Assoc.{lookup, retain, IsMap}
use electrum_sv_mc.Prelude.Assoc.{lookup-insert, lookup-insert_ne, retain-IsMap, insert-IsMap}
use electrum_sv_mc.Prelude.Bytes.{bytes_eq, bytes_eq_iff}
use electrum_sv_mc.Prelude.Int.{ℤ}
use electrum_sv_mc.CoinChooser.Types.{Text}
use electrum_sv_mc.Transaction.Build.{one_if}
use electrum_sv_mc.Signer
use electrum_sv_mc.Plans.{CmdError, ActiveWallet, AppState, TxPlan, Answers}
use electrum_sv_mc.Plans.{unlocked, is_fresh, with_plans, consume, find_plan, sign_tx, sign_found}
use electrum_sv_mc.Plans.Prepare.{
  PrepareAnswers, PrepareRequest, Tools, prepare_tx, finish_prepare, store_plan, and_then,
  prepare_plan,
}
use electrum_sv_mc.Plans.Sign.{sign_tx-locked, sign_tx-unlocked}
use electrum_sv_mc.Plans.Cosign.{cosign_lookup, sign_multisig_tx}
use electrum_sv_mc.Plans.Held.{held, held-retain, consume-IsMap, found-held, consume-bound}

-- A wallet is opened, closed, locked or unlocked, or a command is called.
pub data Event : Type 0 where
  set_wallet : Option ActiveWallet → Event
  prepare : PrepareAnswers → PrepareRequest → Event
  sign : Answers → Text → Text → Event
  cosign : Result Text (Option (List Text × ℤ)) → Answers → Text → Text → ℕ → Event

abbrev pub one_if_ok : {E A : Type 0} → Result E A → ℕ
one_if_ok (ok a) = 1
one_if_ok (err e) = 0

abbrev pub one_if_done : {E A : Type 0} → Option (Result E A) → ℕ
one_if_done none = 0
one_if_done (some r) = one_if_ok r

one_if_ok_le : {E A : Type 0} (r : Result E A) → one_if_ok r ≤ 1
one_if_ok_le (ok a) = omega arith
one_if_ok_le (err e) = omega arith

one_if_done_le : {E A : Type 0} (r : Option (Result E A)) → one_if_done r ≤ 1
one_if_done_le none = omega arith
one_if_done_le (some r) = one_if_ok_le r

module _ {Tx Key Xkey : Type 0} (api : Signer.Sdk Tx Key Xkey) (tools : Tools Xkey)
    (hash160 : List ℕ → List ℕ) (decode : Text → Result Text (List ℕ)) where
  abbrev pub with_wallet : AppState → Option ActiveWallet → AppState
  with_wallet state w = record { active_wallet = w; pending_plans = state.pending_plans }

  unfoldable pub step : AppState → Event → AppState
  step state (set_wallet w) = with_wallet state w
  step state (prepare answers req) = (prepare_tx tools answers req state).0
  step state (sign answers plan_id code) = (sign_tx api answers plan_id code state).0
  step state (cosign config answers plan_id code index) =
      (sign_multisig_tx api hash160 decode config answers plan_id code index state).0

  -- The plans stored under the id, and the signatures made with it, in one call.
  unfoldable pub stored_by : Text → AppState → Event → ℕ
  stored_by id state (set_wallet w) = 0
  stored_by id state (prepare answers req) =
      if bytes_eq answers.plan_id id then one_if_done (prepare_tx tools answers req state).1 else 0
  stored_by id state (sign answers plan_id code) = 0
  stored_by id state (cosign config answers plan_id code index) = 0

  unfoldable pub signed_by : Text → AppState → Event → ℕ
  signed_by id state (set_wallet w) = 0
  signed_by id state (prepare answers req) = 0
  signed_by id state (sign answers plan_id code) =
      if bytes_eq plan_id id then one_if_ok (sign_tx api answers plan_id code state).1 else 0
  signed_by id state (cosign config answers plan_id code index) =
      if bytes_eq plan_id id
      then one_if_done
          (sign_multisig_tx api hash160 decode config answers plan_id code index state).1
      else 0

  unfoldable pub times_stored : Text → AppState → List Event → ℕ
  times_stored id state [] = 0
  times_stored id state (e ∷ es) = stored_by id state e + times_stored id (step state e) es

  unfoldable pub times_signed : Text → AppState → List Event → ℕ
  times_signed id state [] = 0
  times_signed id state (e ∷ es) = signed_by id state e + times_signed id (step state e) es

  cosign-locked :
      (config : Result Text (Option (List Text × ℤ))) (answers : Answers) (id code : Text)
      (index : ℕ) (state : AppState) (x : CmdError)
      → unlocked state ≡ err x
      → sign_multisig_tx api hash160 decode config answers id code index state
        ≡ (state, some (err x))
  unfolding sign_multisig_tx
  cosign-locked config answers id code index state x e = rw (e, sign_multisig_tx) refl

  cosign-unlocked :
      (config : Result Text (Option (List Text × ℤ))) (answers : Answers) (id code : Text)
      (index : ℕ) (state : AppState) (w : ActiveWallet × Text)
      → unlocked state ≡ ok w
      → sign_multisig_tx api hash160 decode config answers id code index state ≡ (
        consume answers.lookup_now id state,
        cosign_lookup api hash160 decode config answers id code index state w,
      )
  unfolding sign_multisig_tx
  cosign-unlocked config answers id code index state w e = rw (e, sign_multisig_tx) refl

  sign_found-held :
      (answers : Answers) (id code : Text) (state : AppState) (w : ActiveWallet × Text)
      → IsMap state.pending_plans
      → one_if_ok (sign_found api answers id code state w) ≤ held id state
  sign_found-held answers id code state w m =
      elim (Result-cases (find_plan answers.lookup_now id state)) [
        | inl (plan, e) ↦
            rw (found-held id answers.lookup_now state plan m e)
              (one_if_ok_le (sign_found api answers id code state w))
        | inr (x, e) ↦ rw (e) (omega arith)
      ]

  cosign_lookup-held :
      (config : Result Text (Option (List Text × ℤ))) (answers : Answers) (id code : Text)
      (index : ℕ) (state : AppState) (w : ActiveWallet × Text)
      → IsMap state.pending_plans
      → one_if_done (cosign_lookup api hash160 decode config answers id code index state w)
        ≤ held id state
  unfolding cosign_lookup
  cosign_lookup-held config answers id code index state w m =
      elim (Result-cases (find_plan answers.lookup_now id state)) [
        | inl (plan, e) ↦
            rw (found-held id answers.lookup_now state plan m e) (
              one_if_done_le
                (cosign_lookup api hash160 decode config answers id code index state w))
        | inr (x, e) ↦ rw (e, cosign_lookup) (omega arith)
      ]

  if_zero : (b : Bool) (n k : ℕ) → n ≡ 0 → (if b then n else 0) + k ≤ k
  if_zero true n k e = omega (arith, e)
  if_zero false n k e = omega arith

  if_grows : (b : Bool) (n k : ℕ) → k ≤ (if b then n else 0) + k
  if_grows true n k = omega arith
  if_grows false n k = omega arith

  sign-bound :
      (id : Text) (state : AppState) (answers : Answers) (plan_id code : Text)
      → IsMap state.pending_plans
      → signed_by id state (sign answers plan_id code)
          + held id (step state (sign answers plan_id code))
        ≤ held id state
  unfolding signed_by step
  sign-bound id state answers plan_id code m = elim (Result-cases (unlocked state)) [
    | inr (x, e) ↦
        rw (sign_tx-locked api answers plan_id code state x e, step, signed_by)
          (if_zero (bytes_eq plan_id id) 0 (held id state) refl)
    | inl (w, e) ↦
        rw (sign_tx-unlocked api answers plan_id code state w e, step, signed_by)
          (consume-bound id plan_id answers.lookup_now _ state m
            (sign_found-held answers plan_id code state w m))
  ]

  cosign-bound :
      (id : Text) (state : AppState) (config : Result Text (Option (List Text × ℤ)))
      (answers : Answers) (plan_id code : Text) (index : ℕ)
      → IsMap state.pending_plans
      → signed_by id state (cosign config answers plan_id code index)
          + held id (step state (cosign config answers plan_id code index))
        ≤ held id state
  unfolding signed_by step
  cosign-bound id state config answers plan_id code index m = elim (Result-cases (unlocked state)) [
    | inr (x, e) ↦
        rw (cosign-locked config answers plan_id code index state x e, step, signed_by)
          (if_zero (bytes_eq plan_id id) 0 (held id state) refl)
    | inl (w, e) ↦
        rw (cosign-unlocked config answers plan_id code index state w e, step, signed_by)
          (consume-bound id plan_id answers.lookup_now _ state m
            (cosign_lookup-held config answers plan_id code index state w m))
  ]

  -- What prepare_tx leaves of the store.
  finish-bound :
      (id : Text) (answers : PrepareAnswers) (state : AppState)
      (r : Option (Result CmdError TxPlan))
      → IsMap state.pending_plans
      → held id (finish_prepare answers state r).0
        ≤ (if bytes_eq answers.plan_id id
            then one_if_done (finish_prepare answers state r).1
            else 0)
          + held id state
  unfolding finish_prepare store_plan with_plans
  finish-bound id answers state none m = if_grows (bytes_eq answers.plan_id id) 0 (held id state)
  finish-bound id answers state (some (err e)) m =
      if_grows (bytes_eq answers.plan_id id) 0 (held id state)
  finish-bound id answers state (some (ok plan)) m =
      elim (Bool-cases (bytes_eq answers.plan_id id)) [
        | inl b ↦
            let same = (bytes_eq_iff answers.plan_id id).0 b in
            rw (b, same)
              (ground (
                arith,
                ap one_if (
                    lookup-insert id (record { plan = plan; created_at = answers.store_now })
                      (retain (is_fresh answers.store_now) state.pending_plans)),
              ))
        | inr b ↦
            rw
              (
                b,
                lookup-insert_ne answers.plan_id id
                    (record { plan = plan; created_at = answers.store_now })
                    (retain (is_fresh answers.store_now) state.pending_plans) b,
              )
              (ground (arith, held-retain id answers.store_now state.pending_plans m))
      ]

  finish-IsMap :
      (answers : PrepareAnswers) (state : AppState) (r : Option (Result CmdError TxPlan))
      → IsMap state.pending_plans
      → IsMap (finish_prepare answers state r).0.pending_plans
  unfolding finish_prepare store_plan with_plans
  finish-IsMap answers state none m = m
  finish-IsMap answers state (some (err e)) m = m
  finish-IsMap answers state (some (ok plan)) m =
      insert-IsMap answers.plan_id _ _
        (retain-IsMap (is_fresh answers.store_now) state.pending_plans m)

  step-IsMap :
      (state : AppState) (e : Event)
      → IsMap state.pending_plans
      → IsMap (step state e).pending_plans
  unfolding step prepare_tx
  step-IsMap state (set_wallet w) m = m
  step-IsMap state (prepare answers req) m =
      finish-IsMap answers state (and_then (some (unlocked state)) (prepare_plan tools answers req))
        m
  step-IsMap state (sign answers plan_id code) m = elim (Result-cases (unlocked state)) [
    | inr (x, e) ↦ rw (sign_tx-locked api answers plan_id code state x e, step) m
    | inl (w, e) ↦
        rw (sign_tx-unlocked api answers plan_id code state w e, step)
          (consume-IsMap plan_id answers.lookup_now state m)
  ]
  step-IsMap state (cosign config answers plan_id code index) m =
      elim (Result-cases (unlocked state)) [
        | inr (x, e) ↦ rw (cosign-locked config answers plan_id code index state x e, step) m
        | inl (w, e) ↦
            rw (cosign-unlocked config answers plan_id code index state w e, step)
              (consume-IsMap plan_id answers.lookup_now state m)
      ]

  -- One call signs at most what the store held, and adds at most what it stored.
  step-bound :
      (id : Text) (state : AppState) (e : Event)
      → IsMap state.pending_plans
      → signed_by id state e + held id (step state e) ≤ stored_by id state e + held id state
  unfolding step stored_by signed_by prepare_tx
  step-bound id state (set_wallet w) m = omega arith
  step-bound id state (prepare answers req) m = ground (
    arith,
    finish-bound id answers state
        (and_then (some (unlocked state)) (prepare_plan tools answers req)) m,
  )
  step-bound id state (sign answers plan_id code) m =
      ground (arith, sign-bound id state answers plan_id code m)
  step-bound id state (cosign config answers plan_id code index) m =
      ground (arith, cosign-bound id state config answers plan_id code index m)

  pub times_signed-bound :
      (id : Text) (state : AppState) (es : List Event)
      → IsMap state.pending_plans
      → times_signed id state es ≤ times_stored id state es + held id state
  unfolding times_signed times_stored
  times_signed-bound id state [] m = omega arith
  times_signed-bound id state (e ∷ es) m =
      let now = step-bound id state e m in
      let later = times_signed-bound id (step state e) es (step-IsMap state e m) in
      omega (arith, now, later)

  -- In every sequence of wallet changes and calls of prepare_tx, sign_tx and sign_multisig_tx, from a store without
  -- plans, an id signs at most as often as prepare_tx has stored a plan under it.
  pub times_signed-le_stored :
      (id : Text) (state : AppState) (es : List Event)
      → state.pending_plans ≡ []
      → times_signed id state es ≤ times_stored id state es
  unfolding lookup
  times_signed-le_stored id state es empty =
      let m : IsMap state.pending_plans = rw (empty) tt in
      let nothing : held id state ≡ 0 = ap (λ l. one_if (lookup id l)) empty in
      ground (arith, times_signed-bound id state es m)
