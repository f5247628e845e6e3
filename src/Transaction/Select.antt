-- ===== src/Transaction/Select.antt =====
-- CoinSelector::select of core/transaction.rs: largest first.
pub mod Reach
pub mod Laws
pub mod Shortest
pub mod Cheaper
use electrum_sv_mc.Prelude.{
  ℕ, zero, suc, ◌+◌, ◌-◌, ◌*◌, ◌/◌, ◌%◌, ◌^◌, ◌≤◌, ◌<◌, ◌≡◌, refl, sym, ap, ◌∙◌,
}
use electrum_sv_mc.Prelude.{
  ◌≢◌, ◌↔◌, ◌⊎◌, inl, inr, Bool, true, false, ◌&&◌, ◌||◌, not, Option, none, some,
}
use electrum_sv_mc.Prelude.{List, [], ◌∷◌, ◌++◌, map, arith, ltb, leb, ◌==◌, if◌then◌else◌}
use electrum_sv_mc.Prelude.{
  Result, ok, err, ◌>>=◌, ok_or, Result-cases, >>=-eq-ok, Bool-cases, Option-cases,
}
use electrum_sv_mc.Prelude.{ltb→lt, lt→ltb, leb→le, le→leb, ltb-false, leb-false, ==_iff}
use electrum_sv_mc.Prelude.{length, get_elem?, set, take, drop, replicate, sum_of, All}
use electrum_sv_mc.Prelude.{
  length-append, sum_of-append, take-append-drop, length-take, length-drop, sum_of-take_le,
}
use electrum_sv_mc.Prelude.Word.{IsU64, wrap, wrap_small, checked_add}
use electrum_sv_mc.Prelude.Sort.{sort_desc, insert_desc}
use electrum_sv_mc.Transaction.Types.{
  SelectedUtxo, utxo_value, CoinSelectionResult, TransactionError,
}
use electrum_sv_mc.Transaction.Types.{insufficient_funds, no_utxos, invalid_output}
use electrum_sv_mc.Transaction.Types.{target_fee_overflow, accumulation_overflow}

abbrev pub Outcome : Type 0 → Type 0
Outcome = Result TransactionError

-- `for utxo in &sorted { … }`: what was selected, and its accumulated value.
unfoldable pub accumulate :
    ℕ → ℕ → List SelectedUtxo → List SelectedUtxo → Outcome (List SelectedUtxo × ℕ)
accumulate needed accumulated selected [] = ok (selected, accumulated)
accumulate needed accumulated selected (utxo ∷ rest) =
    let selected' = selected ++ (utxo ∷ []) in
    let accumulated' = accumulated + utxo.satoshis in
    let more = accumulate needed accumulated' selected' rest in
    if ltb accumulated' (2 ^ 64)
    then (if leb needed accumulated' then ok (selected', accumulated') else more)
    else err (invalid_output accumulation_overflow)

-- The code behind the loop.
unfoldable pub conclude : ℕ → ℕ → ℕ → List SelectedUtxo × ℕ → Outcome CoinSelectionResult
conclude target_amount fee needed (selected, accumulated) =
    if ltb accumulated needed
    then err (insufficient_funds needed accumulated)
    else ok (record {
      selected = selected;
      total_input = accumulated;
      total_output = wrap (target_amount + (accumulated - needed));
      fee = fee;
      change = accumulated - needed;
    })

unfoldable pub select_sorted : List SelectedUtxo → ℕ → ℕ → Outcome CoinSelectionResult
unfolding conclude
select_sorted sorted target_amount fee = do
  needed ← ok_or (checked_add target_amount fee) (invalid_output target_fee_overflow)
  reached ← accumulate needed 0 [] sorted
  conclude target_amount fee needed reached

unfoldable pub select : List SelectedUtxo → ℕ → ℕ → Outcome CoinSelectionResult
unfolding select_sorted
select [] target_amount fee = err no_utxos
select (utxo ∷ utxos) target_amount fee =
    select_sorted (sort_desc utxo_value (utxo ∷ utxos)) target_amount fee
