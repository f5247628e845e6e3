-- ===== src/Transaction/Build/FeeLoop.antt =====
-- The fee loop of TxBuilder::build_unsigned in core/transaction.rs ends.
use electrum_sv_mc.Prelude.{ℕ, zero, suc, ◌+◌, ◌*◌, ◌^◌, ◌≤◌, ◌<◌, ◌≡◌, refl, sym, ◌∙◌}
use electrum_sv_mc.Prelude.{◌⊎◌, inl, inr, false, some}
use electrum_sv_mc.Prelude.{List, [], ◌∷◌, arith, ltb, ◌==◌, if◌then◌else◌}
use electrum_sv_mc.Prelude.{ok, err, Result-cases, Bool-cases}
use electrum_sv_mc.Prelude.{ltb→lt, ltb-false, ==_iff}
use electrum_sv_mc.Prelude.{length}
use electrum_sv_mc.Prelude.Word.{wrap, wrap_small}
use mathlib.Core.Path.{subst}
use native.Mathlib.Numerals.{add-one}
use electrum_sv_mc.Transaction.Types.{
  no_utxos, TransactionError, SelectedUtxo, CoinSelectionResult, estimate_fee,
}
use electrum_sv_mc.Transaction.Select.{Outcome, select}
use electrum_sv_mc.Transaction.Select.Laws.{by_value, select_mono, select_pos}
use electrum_sv_mc.Transaction.Select.Shortest.{IsShortest, select-IsShortest}
use electrum_sv_mc.Transaction.Select.Cheaper.{select_down}
use electrum_sv_mc.Transaction.Build.{fee_loop}

-- The size of a transaction with `n` inputs, and the fee for it, are computed without wrapping.
abbrev pub FeeFits : ℕ → ℕ → ℕ → Type 0
FeeFits n num_outputs fee_rate =
    (10 + 148 * n + 34 * num_outputs < 2 ^ 64)
    × ((10 + 148 * n + 34 * num_outputs) * fee_rate < 2 ^ 64)

pub estimate_fee-exact :
    (n m num_outputs fee_rate : ℕ)
    → m ≤ n
    → FeeFits n num_outputs fee_rate
    → estimate_fee m num_outputs fee_rate ≡ (10 + 148 * m + 34 * num_outputs) * fee_rate
unfolding estimate_fee
estimate_fee-exact n m num_outputs fee_rate h fits =
    let size : 10 + 148 * m + 34 * num_outputs < 2 ^ 64 = grind arith in
    let cost : (10 + 148 * m + 34 * num_outputs) * fee_rate < 2 ^ 64 = grind arith in
    let same : wrap (wrap (10 + wrap (148 * m)) + wrap (34 * num_outputs))
        ≡ 10 + 148 * m + 34 * num_outputs =
      omega arith in
    rw same (wrap_small _ cost)

pub estimate_fee_mono :
    (n m k num_outputs fee_rate : ℕ)
    → m ≤ k
    → k ≤ n
    → FeeFits n num_outputs fee_rate
    → estimate_fee m num_outputs fee_rate ≤ estimate_fee k num_outputs fee_rate
estimate_fee_mono n m k num_outputs fee_rate h h' fits =
    rw
      (
        estimate_fee-exact n m num_outputs fee_rate (omega arith) fits,
        estimate_fee-exact n k num_outputs fee_rate h' fits,
      )
      (grind arith)

select_empty :
    (utxos : List SelectedUtxo) (target fee : ℕ)
    → length utxos ≤ 0
    → select utxos target fee ≡ err no_utxos
unfolding select
select_empty [] target fee h = refl
select_empty (u ∷ us) target fee h = absurd (omega arith)

module _ (utxos : List SelectedUtxo) (total_payment num_outputs fee_rate : ℕ)
    (fits : FeeFits (length utxos) num_outputs fee_rate) where
  -- The fee of a transaction with `m` inputs.
  abbrev fee_of : ℕ → ℕ
  fee_of m = estimate_fee m num_outputs fee_rate

  -- Some selection pays exactly the fee of its own number of inputs.
  abbrev pub Affordable : Type 0
  Affordable =
      (r : CoinSelectionResult) × (select utxos total_payment (fee_of (length r.selected)) ≡ ok r)

  -- What the loop ends with: a selection that pays the fee of its own number of inputs; or, if there is no such
  -- selection, the error of a selection at the fee of one input or of some number of inputs that there are.
  abbrev pub Settles : Outcome CoinSelectionResult → Type 0
  Settles (err e) =
      ((m : ℕ) × ((m ≡ 1) ⊎ (m ≤ length utxos))
        × (select utxos total_payment (estimate_fee m num_outputs fee_rate) ≡ err e))
      × ¬ Affordable
  Settles (ok r) =
      IsShortest (by_value utxos) total_payment
        (estimate_fee (length r.selected) num_outputs fee_rate) r

  fee_loop_err :
      (fuel m : ℕ) (e : TransactionError)
      → select utxos total_payment (fee_of m) ≡ err e
      → fee_loop (suc fuel) utxos total_payment num_outputs fee_rate (fee_of m) ≡ some (err e)
  unfolding fee_loop
  fee_loop_err fuel m e h = rw (h, fee_loop)

  fee_loop_ok :
      (fuel m : ℕ) (r : CoinSelectionResult)
      → select utxos total_payment (fee_of m) ≡ ok r
      → fee_loop (suc fuel) utxos total_payment num_outputs fee_rate (fee_of m) ≡ (
          if fee_of (length r.selected) == fee_of m
          then some (ok r)
          else fee_loop fuel utxos total_payment num_outputs fee_rate (fee_of (length r.selected)))
  unfolding fee_loop
  fee_loop_ok fuel m r h = rw (h, fee_loop)

  grow_strict : (a b : ℕ) → a ≤ b → (fee_of b == fee_of a) ≡ false → a < b
  grow_strict a b h other = ground arith

  -- No selection pays its own fee if one with no more inputs already fails.
  hopeless :
      (m : ℕ) (e : TransactionError)
      → (m ≡ 1) ⊎ (m ≤ length utxos)
      → select utxos total_payment (fee_of m) ≡ err e
      → ((a : Affordable) → m ≤ length (a.0).selected)
      → ¬ Affordable
  hopeless m e bound he low (r, hr) =
      let room = select_pos utxos total_payment (fee_of (length r.selected)) r hr in
      let up =
        estimate_fee_mono (length utxos) m (length r.selected) num_outputs fee_rate (low (r, hr))
          room.1 fits in
      let (r', hr') =
        select_down utxos total_payment (fee_of m) (fee_of (length r.selected)) r up hr in
      cc (he, hr')

  below_affordable :
      (m : ℕ) (r : CoinSelectionResult)
      → select utxos total_payment (fee_of m) ≡ ok r
      → ((a : Affordable) → m ≤ length (a.0).selected)
      → (a : Affordable) → length r.selected ≤ length (a.0).selected
  below_affordable m r hr low (s, hs) =
      let room = select_pos utxos total_payment (fee_of (length s.selected)) s hs in
      let up =
        estimate_fee_mono (length utxos) m (length s.selected) num_outputs fee_rate (low (s, hs))
          room.1 fits in
      select_mono utxos total_payment (fee_of m) (fee_of (length s.selected)) r s up hr hs

  some_input : (a : Affordable) → 1 ≤ length (a.0).selected
  some_input (s, hs) = (select_pos utxos total_payment (fee_of (length s.selected)) s hs).0

  fee_loop-Settles :
      (fuel m : ℕ)
      → m ≤ length utxos
      → length utxos < fuel + m
      → ((r : CoinSelectionResult)
          → select utxos total_payment (fee_of m) ≡ ok r
          → m ≤ length r.selected)
      → ((a : Affordable) → m ≤ length (a.0).selected)
      → (o : Outcome CoinSelectionResult) × (fee_loop fuel utxos total_payment num_outputs fee_rate
            (fee_of m)
          ≡ some o)
        × Settles o
  fee_loop-Settles zero m h k grows low = absurd (omega arith)
  fee_loop-Settles (suc fuel) m h k grows low =
      elim (Result-cases (select utxos total_payment (fee_of m))) [
        | inr (e, he) ↦
            (err e, fee_loop_err fuel m e he, ((m, inr h, he), hopeless m e (inr h) he low))
        | inl (r, hr) ↦
            let m' = length r.selected in
            let c = select-IsShortest utxos total_payment (fee_of m) r hr in
            let room = select_pos utxos total_payment (fee_of m) r hr in
            elim (Bool-cases (fee_of m' == fee_of m)) [
              | inl same ↦
                  let eq : fee_of m' ≡ fee_of m = (==_iff _ _).0 same in
                  (
                    ok r,
                    fee_loop_ok fuel m r hr ∙ rw same,
                    subst (λ f. IsShortest (by_value utxos) total_payment f r) (sym eq) c,
                  )
              | inr other ↦
                  let le = grows r hr in
                  let up =
                    estimate_fee_mono (length utxos) m m' num_outputs fee_rate le room.1 fits in
                  let (o, e, s) =
                    fee_loop-Settles fuel m' room.1 (omega (arith, grow_strict m m' le other))
                      (λ r' h'.
                        select_mono utxos total_payment (fee_of m) (fee_of m') r r' up hr h')
                      (below_affordable m r hr low) in
                  (o, fee_loop_ok fuel m r hr ∙ rw other e, s)
            ]
      ]

  -- If neither the size nor the fee of a transaction with all coins overflows, the loop ends within one round more
  -- than there are coins. Either it ends with a selection that pays exactly the fee of its own number of inputs. Or
  -- no selection does, and it ends with the error of the selection at the fee of one input or of some number of
  -- inputs that there are.
  pub fee_loop_total :
      (o : Outcome CoinSelectionResult) × (fee_loop
          (length utxos + 1)
          utxos
          total_payment
          num_outputs
          fee_rate
          (estimate_fee 1 num_outputs fee_rate)
        ≡ some o)
      × Settles o
  fee_loop_total = elim (Bool-cases (ltb 0 (length utxos))) [
    | inl some_coin ↦
        fee_loop-Settles (length utxos + 1) 1 (ltb→lt _ _ some_coin) (omega arith)
          (λ r h. (select_pos utxos total_payment (fee_of 1) r h).0) some_input
    | inr empty ↦
        let none_left = select_empty utxos total_payment (fee_of 1) (ltb-false _ _ empty) in
        (
          err no_utxos,
          rw add-one (fee_loop_err (length utxos) 1 no_utxos none_left),
          ((1, inl refl, none_left), hopeless 1 no_utxos (inl refl) none_left some_input),
        )
  ]
