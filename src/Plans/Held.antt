-- ===== src/Plans/Held.antt =====
-- The plan that the store of commands/transactions.rs holds under an id.
use electrum_sv_mc.Prelude.{ℕ, ◌+◌, ◌≤◌, ◌≡◌, ap}
use electrum_sv_mc.Prelude.{inl, inr, false}
use electrum_sv_mc.Prelude.{List, arith, if◌then◌else◌}
use electrum_sv_mc.Prelude.{ok, Bool-cases, Option-cases}
use electrum_sv_mc.Prelude.Assoc.{
  lookup, retain, IsMap, lookup-retain, lookup-take_out, lookup-take_out_ne,
}
use electrum_sv_mc.Prelude.Assoc.{retain-IsMap, take_out-IsMap}
use electrum_sv_mc.Prelude.Bytes.{bytes_eq, bytes_eq_iff}
use electrum_sv_mc.CoinChooser.Types.{Text}
use electrum_sv_mc.Transaction.Build.{one_if}
use electrum_sv_mc.Plans.{AppState, TxPlan, PendingPlan}
use electrum_sv_mc.Plans.{is_fresh, with_plans, consume, find_plan}
use electrum_sv_mc.Plans.Sign.{find_plan-ok}

-- Whether the store holds a plan under the id.
abbrev pub held : Text → AppState → ℕ
held id state = one_if (lookup id state.pending_plans)

pub held-retain :
    (id : Text) (now : ℕ) (l : List (Text × PendingPlan))
    → IsMap l
    → one_if (lookup id (retain (is_fresh now) l)) ≤ one_if (lookup id l)
held-retain id now l m = elim (Option-cases (lookup id (retain (is_fresh now) l))) [
  | inl e ↦ rw (e) (omega arith)
  | inr (pp, e) ↦
      let (found, fresh) = lookup-retain (is_fresh now) id l pp m e in rw (e, found) (omega arith)
]

pub held-consume_same :
    (id : Text) (now : ℕ) (state : AppState)
    → IsMap state.pending_plans
    → held id (consume now id state) ≡ 0
unfolding consume with_plans
held-consume_same id now state m =
    ap one_if (lookup-take_out id _ (retain-IsMap (is_fresh now) state.pending_plans m))

pub held-consume :
    (id other : Text) (now : ℕ) (state : AppState)
    → IsMap state.pending_plans
    → bytes_eq other id ≡ false
    → held id (consume now other state) ≤ held id state
unfolding consume with_plans
held-consume id other now state m ne =
    rw (lookup-take_out_ne other id (retain (is_fresh now) state.pending_plans) ne)
      (held-retain id now state.pending_plans m)

pub consume-IsMap :
    (id : Text) (now : ℕ) (state : AppState)
    → IsMap state.pending_plans
    → IsMap (consume now id state).pending_plans
unfolding consume with_plans
consume-IsMap id now state m =
    take_out-IsMap id _ (retain-IsMap (is_fresh now) state.pending_plans m)

-- A plan that is found is held.
pub found-held :
    (id : Text) (now : ℕ) (state : AppState) (plan : TxPlan)
    → IsMap state.pending_plans
    → find_plan now id state ≡ ok plan
    → held id state ≡ 1
found-held id now state plan m h =
    let (pp, (found, rest)) = find_plan-ok now id state plan m h in ap one_if found

-- A call that makes at most as many signatures as there are plans under its id, and takes them out.
pub consume-bound :
    (id plan_id : Text) (now n : ℕ) (state : AppState)
    → IsMap state.pending_plans
    → n ≤ held plan_id state
    → (if bytes_eq plan_id id then n else 0) + held id (consume now plan_id state) ≤ held id state
consume-bound id plan_id now n state m h = elim (Bool-cases (bytes_eq plan_id id)) [
  | inl b ↦
      let same = (bytes_eq_iff plan_id id).0 b in
      rw (b, same, held-consume_same id now state m) (ground (arith, rw (same) at h))
  | inr b ↦ rw (b) (ground (arith, held-consume id plan_id now state m b))
]
