-- ===== src/CoinChooser/Random/Strip.antt =====
-- `strip_unneeded` of core/coinchooser.rs keeps what it is given sufficient.
use electrum_sv_mc.Prelude.{ℕ, ◌≡◌, ◌∙◌}
use electrum_sv_mc.Prelude.{inl, inr, Bool, true, false}
use electrum_sv_mc.Prelude.{List, [], ◌∷◌, leb}
use electrum_sv_mc.Prelude.{Bool-cases}
use electrum_sv_mc.Prelude.Sort.{sort_by, sum_of-sort_by}
use electrum_sv_mc.CoinChooser.Random.{Bucket, bucket_value, bucket_size, sufficient_funds}
use electrum_sv_mc.CoinChooser.Random.{strip_from, strip_unneeded}

strip_from-sufficient :
    (sufficient : List Bucket → Bool) (bkts l : List Bucket)
    → sufficient bkts ≡ true
    → sufficient l ≡ true
    → sufficient (strip_from sufficient bkts l) ≡ true
unfolding strip_from
strip_from-sufficient sufficient bkts [] h k = h
strip_from-sufficient sufficient bkts (b ∷ rest) h k = elim (Bool-cases (sufficient rest)) [
  | inl e ↦ rw e (strip_from-sufficient sufficient bkts rest h e)
  | inr e ↦ rw e k
]

sufficient_funds-sort_by :
    (fee_rate target_amount : ℕ) (le : Bucket → Bucket → Bool) (bkts : List Bucket)
    → sufficient_funds fee_rate target_amount (sort_by le bkts)
      ≡ sufficient_funds fee_rate target_amount bkts
unfolding sufficient_funds
sufficient_funds-sort_by fee_rate target_amount le bkts =
    rw (sum_of-sort_by bucket_value le bkts, sum_of-sort_by bucket_size le bkts)

-- Buckets that suffice for the target and the fee still do when the unneeded ones are stripped.
pub strip_unneeded-sufficient :
    (fee_rate target_amount : ℕ) (bkts : List Bucket)
    → sufficient_funds fee_rate target_amount bkts ≡ true
    → sufficient_funds fee_rate target_amount
        (strip_unneeded (sufficient_funds fee_rate target_amount) bkts)
      ≡ true
unfolding strip_unneeded
strip_unneeded-sufficient fee_rate target_amount bkts h =
    let sorted = sort_by (λ (a b : Bucket). leb a.value b.value) bkts in
    let k = sufficient_funds-sort_by fee_rate target_amount (λ a b. leb a.value b.value) bkts ∙ h in
    strip_from-sufficient (sufficient_funds fee_rate target_amount) sorted sorted k k

-- Where nothing at all does not suffice, what is left has a first bucket without which the rest
-- does not suffice.
pub strip_from_tight :
    (sufficient : List Bucket → Bool) (bkts l : List Bucket)
    → sufficient [] ≡ false
    → sufficient l ≡ true
    → (b : Bucket) × (rest : List Bucket) × (strip_from sufficient bkts l ≡ b ∷ rest)
      × (sufficient rest ≡ false)
unfolding strip_from
strip_from_tight sufficient bkts [] h k = cc
strip_from_tight sufficient bkts (b ∷ l) h k = elim (Bool-cases (sufficient l)) [
  | inl e ↦ rw e (strip_from_tight sufficient bkts l h e)
  | inr e ↦ (b, l, rw e, e)
]
