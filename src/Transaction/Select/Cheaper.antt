-- ===== src/Transaction/Select/Cheaper.antt =====
-- A selection by core/transaction.rs that succeeds at a fee succeeds at every lower one.
use electrum_sv_mc.Prelude.{ℕ, ◌+◌, ◌-◌, ◌^◌, ◌≤◌, ◌<◌, ◌≡◌, refl, ◌∙◌}
use electrum_sv_mc.Prelude.{inl, inr, false}
use electrum_sv_mc.Prelude.{List, [], ◌∷◌, ◌++◌, arith, ltb, leb}
use electrum_sv_mc.Prelude.{ok, Bool-cases, ltb→lt, lt→ltb, leb→le}
use electrum_sv_mc.Prelude.Word.{wrap}
use electrum_sv_mc.Transaction.Types.{SelectedUtxo, CoinSelectionResult}
use electrum_sv_mc.Transaction.Select.{accumulate, conclude, select_sorted, select}
use electrum_sv_mc.Transaction.Select.Reach.{accumulate-ok}
use electrum_sv_mc.Transaction.Select.Laws.{
  by_value, conclude-ok, select_cons, select_sorted_stages,
}

accumulate_down :
    (n n' acc : ℕ) (sel us s : List SelectedUtxo) (a : ℕ)
    → n ≤ n'
    → accumulate n' acc sel us ≡ ok (s, a)
    → n' ≤ a
    → (p : List SelectedUtxo × ℕ) × (accumulate n acc sel us ≡ ok p) × (n ≤ p.1)
unfolding accumulate
accumulate_down n n' acc sel [] s a le h enough = ((sel, acc), refl, ground arith)
accumulate_down n n' acc sel (u ∷ us) s a le h enough =
    elim (Bool-cases (ltb (acc + u.satoshis) (2 ^ 64))) [
      | inr over ↦ cc (rw over at h)
      | inl fits ↦ elim (Bool-cases (leb n (acc + u.satoshis))) [
        | inl there ↦ (
          (sel ++ (u ∷ []), acc + u.satoshis),
          rw (fits, there) refl,
          leb→le n (acc + u.satoshis) there,
        )
        | inr more ↦
            let more' : leb n' (acc + u.satoshis) ≡ false = ground (arith, more, le) in
            rw (fits, more)
              (accumulate_down n n' (acc + u.satoshis) (sel ++ (u ∷ [])) us s a le
                (rw (fits, more') at h) enough)
      ]
    ]

conclude_enough :
    (target fee needed : ℕ) (p : List SelectedUtxo × ℕ)
    → needed ≤ p.1
    → (r : CoinSelectionResult) × (conclude target fee needed p ≡ ok r)
unfolding conclude
conclude_enough target fee needed (s, a) h =
    let enough : ltb a needed ≡ false = ground arith in
    (
      record {
        selected = s;
        total_input = a;
        total_output = wrap (target + (a - needed));
        fee = fee;
        change = a - needed;
      },
      rw enough refl,
    )

select_sorted-fits :
    (sorted : List SelectedUtxo) (target fee : ℕ) (r : CoinSelectionResult)
    → select_sorted sorted target fee ≡ ok r
    → target + fee < 2 ^ 64
unfolding select_sorted
select_sorted-fits sorted target fee r h = elim (Bool-cases (ltb (target + fee) (2 ^ 64))) [
  | inl e ↦ ltb→lt _ _ e
  | inr e ↦ cc (rw e at h)
]

select_sorted_run :
    (sorted : List SelectedUtxo) (target fee : ℕ) (p : List SelectedUtxo × ℕ)
    → target + fee < 2 ^ 64
    → accumulate (target + fee) 0 [] sorted ≡ ok p
    → select_sorted sorted target fee ≡ conclude target fee (target + fee) p
unfolding select_sorted
select_sorted_run sorted target fee p fits run = rw (lt→ltb (target + fee) (2 ^ 64) fits, run) refl

select_sorted_down :
    (sorted : List SelectedUtxo) (target fee fee' : ℕ) (r' : CoinSelectionResult)
    → fee ≤ fee'
    → select_sorted sorted target fee' ≡ ok r'
    → (r : CoinSelectionResult) × (select_sorted sorted target fee ≡ ok r)
select_sorted_down sorted target fee fee' r' le h =
    let ((s, a), run, fin) = select_sorted_stages sorted target fee' r' h in
    let (taken, value, fits) = accumulate-ok (target + fee') 0 [] sorted s a (omega arith) run in
    let (same, input, balance, output, paid) = conclude-ok target fee' s a r' fits fin in
    let (p, run', enough) =
      accumulate_down (target + fee) (target + fee') 0 [] sorted s a (omega arith) run
        (omega arith) in
    let (r, done) = conclude_enough target fee (target + fee) p enough in
    let room : target + fee < 2 ^ 64 = omega (arith, select_sorted-fits sorted target fee' r' h) in
    (r, select_sorted_run sorted target fee p room run' ∙ done)

-- Where a fee can be paid, a lower one can.
pub select_down :
    (us : List SelectedUtxo) (target fee fee' : ℕ) (r' : CoinSelectionResult)
    → fee ≤ fee'
    → select us target fee' ≡ ok r'
    → (r : CoinSelectionResult) × (select us target fee ≡ ok r)
unfolding select
select_down [] target fee fee' r' le h = absurd (cc h)
select_down (u ∷ us) target fee fee' r' le h =
    select_sorted_down (by_value (u ∷ us)) target fee fee' r' le
      (select_cons (u ∷ us) target fee' r' h)
