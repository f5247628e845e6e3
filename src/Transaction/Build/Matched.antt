-- ===== src/Transaction/Build/Matched.antt =====
-- The branch and bound strategy through TxBuilder::build_unsigned in core/transaction.rs.
use electrum_sv_mc.Prelude.{ℕ, suc, ◌+◌, ◌*◌, ◌^◌, ◌≤◌, ◌<◌, ◌≡◌, refl, ap, ◌∙◌}
use electrum_sv_mc.Prelude.{inl, inr, Bool, true, false, Option, none, some}
use electrum_sv_mc.Prelude.{List, [], ◌∷◌, map, arith, ltb, ◌==◌, if◌then◌else◌}
use electrum_sv_mc.Prelude.{Result, ok, err, ◌>>=◌, Bool-cases, Option-cases}
use electrum_sv_mc.Prelude.{lt→ltb}
use electrum_sv_mc.Prelude.{length, All}
use electrum_sv_mc.Prelude.Word.{wrap_small}
use electrum_sv_mc.Prelude.Sort.{
  sort_desc, Part, All-sort_desc, All-Part, sum_of-sort_desc, length-sort_desc,
}
use electrum_sv_mc.Prelude.Parts.{length-Part, sum_of-Part}
use electrum_sv_mc.Prelude.Bytes.{bytes_eq_refl}
use electrum_sv_mc.CoinChooser.Types.{Text, Coin, coin_value, wrap_sum, CoinChooserError}
use electrum_sv_mc.CoinChooser.Types.{SelectionResult, branch_and_bound}
use electrum_sv_mc.CoinChooser.Bnb.{search, matched, select_bnb, finish_bnb}
use electrum_sv_mc.CoinChooser.Bnb.Best.{value, IsMatch, BestIs}
use electrum_sv_mc.CoinChooser.Bnb.Match.{search-BestIs}
use electrum_sv_mc.CoinChooser.Chooser
use electrum_sv_mc.CoinChooser.Chooser.{select_by}
use electrum_sv_mc.CoinChooser.Chooser.Laws.{finish_bnb_match, select_bnb_cases}
use electrum_sv_mc.Transaction.Types.{
  TransactionError, invalid_output, insufficient_funds, estimate_fee,
}
use electrum_sv_mc.Transaction.Types.{PaymentOutput, SelectedUtxo, CoinSelectionResult, no_utxos}
use electrum_sv_mc.Transaction.Types.{needed_overflow}
use electrum_sv_mc.Transaction.Select.{Outcome}
use electrum_sv_mc.Transaction.Select.Laws.{total}
use electrum_sv_mc.Transaction.Build.{lookup_utxo, map_back, utxo_to_coin, chooser_error}
use electrum_sv_mc.Transaction.Build.{
  reconcile, from_chooser, select_coins, build_unsigned, one_if, assemble_tx,
}
use electrum_sv_mc.Transaction.Build.FeeLoop.{FeeFits, estimate_fee-exact}
use electrum_sv_mc.Transaction.Build.Laws.{paid_total, Built}

-- The coin's outpoint is one of the given ones.
abbrev IsKnown : List SelectedUtxo → Coin → Type 0
IsKnown utxos c = (v : SelectedUtxo) × (lookup_utxo c.tx_hash_hex c.tx_index utxos ≡ some v)

lookup_utxo-cons :
    (h : Text) (i : ℕ) (u : SelectedUtxo) (us : List SelectedUtxo) (v : SelectedUtxo)
    → lookup_utxo h i us ≡ some v
    → lookup_utxo h i (u ∷ us) ≡ some v
unfolding lookup_utxo
lookup_utxo-cons h i u us v e = rw (e, lookup_utxo)

lookup_utxo-head :
    (u : SelectedUtxo) (us : List SelectedUtxo)
    → (v : SelectedUtxo) × (lookup_utxo u.tx_hash_hex u.tx_index (u ∷ us) ≡ some v)
lookup_utxo-head u us = elim (Option-cases (lookup_utxo u.tx_hash_hex u.tx_index us)) [
  | inl e ↦
      (u, unfold lookup_utxo in rw (e, lookup_utxo) (ground (arith, bytes_eq_refl u.tx_hash_hex)))
  | inr (v, e) ↦ (v, lookup_utxo-cons u.tx_hash_hex u.tx_index u us v e)
]

All-IsKnown : (us : List SelectedUtxo) → All (IsKnown us) (map utxo_to_coin us)
unfolding utxo_to_coin
All-IsKnown [] = tt
All-IsKnown (u ∷ us) = (lookup_utxo-head u us, weaken (map utxo_to_coin us) (All-IsKnown us))
  where
    weaken : (cs : List Coin) → All (IsKnown us) cs → All (IsKnown (u ∷ us)) cs
    weaken [] h = tt
    weaken (c ∷ cs) ((v, e), h) =
        ((v, lookup_utxo-cons c.tx_hash_hex c.tx_index u us v e), weaken cs h)

map_back-cons :
    (utxos : List SelectedUtxo) (c : Coin) (coins : List Coin) (v : SelectedUtxo)
    (l : List SelectedUtxo)
    → lookup_utxo c.tx_hash_hex c.tx_index utxos ≡ some v
    → map_back utxos coins ≡ ok l
    → map_back utxos (c ∷ coins) ≡ ok (v ∷ l)
unfolding map_back
map_back-cons utxos c coins v l e f = rw (e, f, map_back)

map_back-total :
    (utxos : List SelectedUtxo) (coins : List Coin)
    → All (IsKnown utxos) coins
    → (l : List SelectedUtxo) × (map_back utxos coins ≡ ok l) × (length l ≡ length coins)
map_back-total utxos [] h = ([], unfold map_back in refl, refl)
map_back-total utxos (c ∷ coins) ((v, e), h) =
    let (l, el, same) = map_back-total utxos coins h in
    (v ∷ l, map_back-cons utxos c coins v l e el, ap suc same)

reconcile_short :
    (t k rate input : ℕ) (s : List SelectedUtxo)
    → input < t + estimate_fee (length s) k rate
    → (e : TransactionError) × (reconcile t k rate input s ≡ err e)
unfolding reconcile
reconcile_short t k rate input s h =
    elim (Bool-cases (ltb (t + estimate_fee (length s) k rate) (2 ^ 64))) [
      | inl e ↦
          (insufficient_funds (t + estimate_fee (length s) k rate) input, rw (e, lt→ltb _ _ h))
      | inr e ↦ (invalid_output needed_overflow, rw e)
    ]

from_chooser_step :
    (utxos : List SelectedUtxo) (t k rate : ℕ) (result : SelectionResult) (s : List SelectedUtxo)
    → map_back utxos result.coins ≡ ok s
    → from_chooser utxos t k rate (ok result) ≡ reconcile t k rate result.total_input s
unfolding from_chooser
from_chooser_step utxos t k rate result s e = rw e

length-coins : (us : List SelectedUtxo) → length (map utxo_to_coin us) ≡ length us
length-coins [] = refl
length-coins (u ∷ us) = ap suc (length-coins us)

value-coins : (us : List SelectedUtxo) → value (map utxo_to_coin us) ≡ total us
unfolding utxo_to_coin
value-coins [] = refl
value-coins (u ∷ us) = omega (arith, value-coins us)

value-length : (cs : List Coin) → 0 < value cs → 1 ≤ length cs
value-length [] h = absurd (omega arith)
value-length (c ∷ cs) h = omega arith

-- What `build_unsigned` makes of the coin chooser's answer.
abbrev chosen :
    List SelectedUtxo
    → ℕ
    → ℕ
    → ℕ
    → Option (Result CoinChooserError SelectionResult)
    → Option (Outcome CoinSelectionResult)
chosen utxos t k rate o = elim o [ none ↦ none | some c ↦ some (from_chooser utxos t k rate c) ]

abbrev IsRejected : Option (Outcome CoinSelectionResult) → Type 0
IsRejected o = (e : TransactionError) × (o ≡ some (err e))

module _ (utxos : List SelectedUtxo) (t k rate : ℕ) (pos : 0 < t) (some_output : 1 ≤ k)
    (paying : 0 < rate) (fits : FeeFits (length utxos) k rate) where
  abbrev sorted : List Coin
  sorted = sort_desc coin_value (map utxo_to_coin utxos)

  fee_exceeds : (n : ℕ) → 1 ≤ n → n ≤ length utxos → 34 * rate < estimate_fee n k rate
  fee_exceeds n lo hi = rw (estimate_fee-exact (length utxos) n k rate hi fits) (grind arith)

  length-sorted : length sorted ≡ length utxos
  length-sorted = length-sort_desc coin_value (map utxo_to_coin utxos) ∙ length-coins utxos

  match_rejected :
      (cs : List Coin)
      → Part cs sorted
      → t ≤ value cs
      → value cs ≤ t + 34 * rate
      → value cs < 2 ^ 64
      → (e : TransactionError) × (from_chooser utxos t k rate (ok (matched rate t cs)) ≡ err e)
  match_rejected cs part lo hi b =
      let (l, el, same) = map_back-total utxos cs (
        All-Part (IsKnown utxos) part (
          All-sort_desc (IsKnown utxos) coin_value (map utxo_to_coin utxos) (All-IsKnown utxos))) in
      let input : (matched rate t cs).total_input ≡ value cs = unfold matched in wrap_small _ b in
      let (e, r) = reconcile_short t k rate (matched rate t cs).total_input l (
        rw same (
          omega (
            arith,
            fee_exceeds (length cs) (value-length cs (omega arith))
                (omega (arith, length-Part part, length-sorted)),
          ))) in
      (e, from_chooser_step utxos t k rate (matched rate t cs) l (unfold matched in el) ∙ r)

  -- A match of the search comes out as an error.
  bnb-IsRejected :
      (indices : List ℕ)
      → total utxos < 2 ^ 64
      → (search sorted t (t + 34 * rate)).best ≡ some indices
      → IsRejected (chosen utxos t k rate (select_bnb rate (map utxo_to_coin utxos) t))
  unfolding from_chooser
  bnb-IsRejected indices b found =
      select_bnb_cases rate (map utxo_to_coin utxos) t (λ o. IsRejected (chosen utxos t k rate o))
        (_, refl)
        λ twc e small.
          let same : twc ≡ t + 34 * rate = omega (arith, cost_fits) in
          rw same (found_rejected (search-BestIs sorted t (t + 34 * rate) bounded))
    where
      cost_fits : 34 * rate < 2 ^ 64
      cost_fits = grind arith

      bounded : value sorted < 2 ^ 64
      bounded = omega (
        arith,
        sum_of-sort_desc coin_value coin_value (map utxo_to_coin utxos),
        value-coins utxos,
      )

      found_rejected :
          BestIs sorted t
            (t + 34 * rate)
            (search sorted t (t + 34 * rate)).best
            (search sorted t (t + 34 * rate)).best_excess
          → IsRejected (
              chosen utxos t k rate (
                finish_bnb rate
                  (map utxo_to_coin utxos)
                  sorted
                  t
                  (search sorted t (t + 34 * rate)).best))
      found_rejected h =
          let m : IsMatch sorted t (t + 34 * rate) indices
              (search sorted t (t + 34 * rate)).best_excess =
            rw found at h in
          let (e, r) =
            match_rejected m.coins m.part m.enough m.close
              (omega (arith, bounded, sum_of-Part coin_value m.part)) in
          rw
            (
              found,
              finish_bnb_match rate (map utxo_to_coin utxos) sorted t indices m.coins m.picked,
            )
            (e, ap some r)

chooser-IsRejected :
    (sha256 : Text → Text) (iterated : List (ℕ × List Coin) → List (ℕ × List Coin))
    (utxos : List SelectedUtxo) (t k rate : ℕ)
    → IsRejected (chosen utxos t k rate (select_bnb rate (map utxo_to_coin utxos) t))
    → IsRejected (select_coins sha256 iterated utxos t k rate (some branch_and_bound))
unfolding select_coins Chooser.select select_by
chooser-IsRejected sha256 iterated [] t k rate h =
    (no_utxos, unfold from_chooser chooser_error in refl)
chooser-IsRejected sha256 iterated (u ∷ us) t k rate h = h

some_payment : (outputs : List PaymentOutput) → 0 < paid_total outputs → 1 ≤ length outputs
some_payment [] h = absurd (omega arith)
some_payment (o ∷ outputs) h = omega arith

build_rejected :
    (f : CoinSelectionResult → Outcome Built) (zero? : Bool) (e : TransactionError)
    (selected : Option (Outcome CoinSelectionResult))
    → IsRejected selected
    → (x : TransactionError) × ((if zero?
          then some (err e)
          else elim selected [ none ↦ none | some selection ↦ some (selection >>= f) ])
        ≡ some (err x))
build_rejected f true e selected h = (e, refl)
build_rejected f false e selected (x, same) = (x, rw same)

module _ (sha256 : Text → Text) (iterated : List (ℕ × List Coin) → List (ℕ × List Coin))
    (lock_address : Text → Outcome Text) (op_return_data : Text → Text) where
  -- Whenever the branch and bound search finds a match for a positive payment at a positive fee rate, whatever
  -- the other coins are worth, `build_unsigned` returns an error: the match is worth at most the payment
  -- and the cost of a change output, and the fee for one input is higher. (The coins are worth less
  -- than 2 ^ 64 together and the fee for all of them does not overflow.)
  pub build_unsigned_rejects_match :
      (utxos : List SelectedUtxo) (outputs : List PaymentOutput) (change_address : Option Text)
      (fee_rate : ℕ) (op_return : Option Text) (indices : List ℕ)
      → 0 < paid_total outputs
      → paid_total outputs < 2 ^ 64
      → 0 < fee_rate
      → FeeFits (length utxos) (length outputs + one_if op_return + one_if change_address) fee_rate
      → total utxos < 2 ^ 64
      → (search
          (sort_desc coin_value (map utxo_to_coin utxos))
          (paid_total outputs)
          (paid_total outputs + 34 * fee_rate)).best
        ≡ some indices
      → (e : TransactionError) × (build_unsigned sha256 iterated lock_address op_return_data utxos
            outputs change_address fee_rate op_return
            (some branch_and_bound)
          ≡ some (err e))
  unfolding build_unsigned
  build_unsigned_rejects_match utxos outputs change_address fee_rate op_return indices pos small
        paying fits bounded found =
      let k : ℕ = length outputs + one_if op_return + one_if change_address in
      let same : wrap_sum (λ (o : PaymentOutput). o.satoshis) outputs ≡ paid_total outputs =
        wrap_small _ small in
      let r = chooser-IsRejected sha256 iterated utxos (paid_total outputs) k fee_rate (
        bnb-IsRejected utxos (paid_total outputs) k fee_rate pos
          (omega (arith, some_payment outputs pos)) paying fits indices bounded found) in
      rw same (
        build_rejected (assemble_tx lock_address op_return_data outputs change_address op_return)
          (paid_total outputs == 0) _
          (select_coins sha256 iterated utxos (paid_total outputs) k fee_rate
            (some branch_and_bound))
          r)
