-- ===== src/Examples/Payment.antt =====
-- Runs of the payment part, core/transaction.rs.
use electrum_sv_mc.Prelude.{ℕ, ◌+◌, ◌*◌, ◌^◌, ◌≤◌, ◌<◌, ◌≡◌, refl}
use electrum_sv_mc.Prelude.{true, false, none, some}
use electrum_sv_mc.Prelude.{List, [], ◌∷◌, map, arith}
use electrum_sv_mc.Prelude.{ok, err}
use electrum_sv_mc.Prelude.{length, replicate}
use electrum_sv_mc.CoinChooser.Types.{Text, coin_value, branch_and_bound}
use electrum_sv_mc.Transaction.Types.{
  SelectedUtxo, PaymentOutput, CoinSelectionResult, TransactionError,
}
use electrum_sv_mc.Transaction.Types.{estimate_fee}
use electrum_sv_mc.Transaction.Select.{Outcome, select, accumulate}
use electrum_sv_mc.Transaction.Select.Laws.{
  by_value, total, select_decides, select_fewest, select_mono,
}
use electrum_sv_mc.Transaction.Build.{fee_loop, build_unsigned, UnsignedTx, to_input, utxo_to_coin}
use electrum_sv_mc.Transaction.Build.{
  select_coins, assemble_tx, payment_outputs, change_outputs, op_return_outputs,
}
use electrum_sv_mc.CoinChooser.Bnb.{search, bnb_recursive}
use electrum_sv_mc.Transaction.Select.Shortest.{IsShortest, select-IsShortest}
use electrum_sv_mc.Transaction.Build.FeeLoop.{FeeFits, Settles, fee_loop_total}
use electrum_sv_mc.Transaction.Build.Laws.{build_unsigned_conserves, output_total, left_to_miners}
use electrum_sv_mc.Transaction.Build.Matched.{build_unsigned_rejects_match}
use electrum_sv_mc.Prelude.Sort.{done, keep, sort_desc}

abbrev utxo : ℕ → ℕ → SelectedUtxo
utxo index satoshis = record {
  tx_hash_hex = 97 ∷ [];
  tx_index = index;
  satoshis = satoshis;
  keyinstance_id = index;
  subpath = (0, index);
}

abbrev utxos : List SelectedUtxo
utxos = utxo 0 1000 ∷ utxo 1 5000 ∷ utxo 2 3000 ∷ []

abbrev cover : CoinSelectionResult
cover = record {
  selected = utxo 1 5000 ∷ utxo 2 3000 ∷ [];
  total_input = 8000;
  total_output = 7800;
  fee = 200;
  change = 1800;
}

select_run : select utxos 6000 200 ≡ ok cover
unfolding select accumulate sort_desc
select_run = refl

abbrev small_cover : CoinSelectionResult
small_cover = record {
  selected = utxo 1 5000 ∷ [];
  total_input = 5000;
  total_output = 4800;
  fee = 200;
  change = 800;
}

abbrev large_cover : CoinSelectionResult
large_cover = record {
  selected = utxo 1 5000 ∷ utxo 2 3000 ∷ [];
  total_input = 8000;
  total_output = 6000;
  fee = 2000;
  change = 2000;
}

small_run : select utxos 4000 200 ≡ ok small_cover
unfolding select accumulate sort_desc
small_run = refl

large_run : select utxos 4000 2000 ≡ ok large_cover
unfolding select accumulate sort_desc
large_run = refl

select-IsShortest_example : IsShortest (by_value utxos) 6000 200 cover
select-IsShortest_example = select-IsShortest utxos 6000 200 cover select_run

select_decides_example :
    (6000 + 200 ≤ total utxos → (r : CoinSelectionResult) × (select utxos 6000 200 ≡ ok r))
    × (6000 + 200 < 2 ^ 64
        → total utxos < 6000 + 200
        → select utxos 6000 200
          ≡ err (TransactionError.insufficient_funds (6000 + 200) (total utxos)))
select_decides_example =
    select_decides (utxo 0 1000) (utxo 1 5000 ∷ utxo 2 3000 ∷ []) 6000 200 (omega arith)

select_fewest_example : 2 ≤ 3
select_fewest_example =
    select_fewest utxos utxos 6000 200 cover select_run (omega arith) (keep (keep (keep done)))
      (omega arith)

select_mono_example : 1 ≤ 2
select_mono_example =
    select_mono utxos 4000 200 2000 small_cover large_cover (omega arith) small_run large_run

fits : FeeFits (length utxos) 2 1
fits = omega arith

fee_loop_total_example :
    (o : Outcome CoinSelectionResult) × (fee_loop 4 utxos 6000 2 1 (estimate_fee 1 2 1) ≡ some o)
    × Settles utxos 6000 2 1 fits o
fee_loop_total_example = fee_loop_total utxos 6000 2 1 fits

abbrev zeros : Text → Text
zeros t = replicate 32 0

abbrev same : {A : Type 0} → A → A
same a = a

abbrev lock : Text → Outcome Text
lock a = ok a

abbrev payment : PaymentOutput
payment = record { address = 98 ∷ []; satoshis = 6000 }

abbrev paid_tx : UnsignedTx
paid_tx = record {
  inputs = map to_input (utxo 1 5000 ∷ utxo 2 3000 ∷ []);
  outputs =
      record { satoshis = 6000; locking_script = 98 ∷ []; change = false }
      ∷ record { satoshis = 1626; locking_script = 99 ∷ []; change = true }
      ∷ [];
}

abbrev paid_cover : CoinSelectionResult
paid_cover = record {
  selected = utxo 1 5000 ∷ utxo 2 3000 ∷ [];
  total_input = 8000;
  total_output = 7626;
  fee = 374;
  change = 1626;
}

build_run :
    build_unsigned zeros same lock same utxos (payment ∷ []) (some (99 ∷ [])) 1 none none
    ≡ some (ok (paid_tx, paid_cover))
unfolding build_unsigned select_coins fee_loop select estimate_fee accumulate sort_desc assemble_tx
    payment_outputs change_outputs op_return_outputs
build_run = refl

build_unsigned_conserves_example :
    (paid_tx.inputs ≡ map to_input paid_cover.selected)
    × (output_total paid_tx + left_to_miners (some (99 ∷ [])) 1626 + 374 ≡ 8000)
build_unsigned_conserves_example =
    build_unsigned_conserves zeros same lock same utxos (payment ∷ []) (some (99 ∷ [])) 1 none none
      paid_tx paid_cover (omega arith) build_run

abbrev exact_utxos : List SelectedUtxo
exact_utxos = utxo 0 6000 ∷ utxo 1 50000 ∷ []

match_run :
    (search (sort_desc coin_value (map utxo_to_coin exact_utxos)) 6000 (6000 + 34 * 1)).best
    ≡ some (1 ∷ [])
unfolding search sort_desc utxo_to_coin bnb_recursive
match_run = refl

build_unsigned_rejects_match_example :
    (e : TransactionError) × (build_unsigned zeros same lock same exact_utxos
        (payment ∷ [])
        none
        1
        none
        (some branch_and_bound)
      ≡ some (err e))
build_unsigned_rejects_match_example =
    build_unsigned_rejects_match zeros same lock same exact_utxos (payment ∷ []) none 1 none
      (1 ∷ []) (omega arith) (omega arith) (omega arith) (omega arith) (omega arith) match_run
