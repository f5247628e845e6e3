-- ===== src/CoinChooser/Bnb/Match.antt =====
-- What the search of core/coinchooser.rs finds: `bnb_recursive` and `search`.
use electrum_sv_mc.Prelude.{ℕ, ◌+◌, ◌-◌, ◌^◌, ◌≤◌, ◌<◌, ◌≡◌, refl, ap, ◌∙◌}
use electrum_sv_mc.Prelude.{inl, inr, ◌&&◌}
use electrum_sv_mc.Prelude.{List, [], ◌∷◌, ◌++◌, arith, ltb, leb}
use electrum_sv_mc.Prelude.{Bool-cases, if-elim}
use electrum_sv_mc.Prelude.{ltb→lt, leb→le, ltb-false}
use electrum_sv_mc.Prelude.{length}
use electrum_sv_mc.Prelude.{length-append}
use electrum_sv_mc.Prelude.Word.{wrap}
use electrum_sv_mc.Prelude.Sort.{done}
use mathlib.Core.List.{append_assoc}
use electrum_sv_mc.CoinChooser.Types.{Coin, coin_value, wrap_sum, bnb_max_rounds}
use electrum_sv_mc.CoinChooser.Bnb.{
  SearchState, tick, improve, push, pop, bnb_recursive, pop_last, pick,
}
use electrum_sv_mc.CoinChooser.Bnb.{start_state, search}
use electrum_sv_mc.CoinChooser.Bnb.Search.{
  Restores, improve-tick-Restores, pop_last-append, bnb-Restores,
}
use electrum_sv_mc.CoinChooser.Bnb.Best.{
  value, IsPath, BestIs, IsPath-push, IsPath-skip, IsPath-IsMatch,
}

IsPath-same :
    {front : List Coin} {s t : SearchState} → Restores s t → IsPath front s → IsPath front t
IsPath-same r p = record {
  coins = p.coins;
  picked = rw (r.path) p.picked;
  part = p.part;
  worth = r.value ∙ p.worth;
}

improve-BestIs :
    (sorted front rest : List Coin) (target target_with_change : ℕ) (s : SearchState)
    → front ++ rest ≡ sorted
    → s.current_value ≤ target_with_change
    → IsPath front s
    → BestIs sorted target target_with_change s.best s.best_excess
    → BestIs sorted target target_with_change
        (improve target (tick s)).best
        (improve target (tick s)).best_excess
unfolding improve
improve-BestIs sorted front rest target target_with_change s whole le p h =
    elim (Bool-cases (leb target s.current_value && ltb (s.current_value - target) s.best_excess)) [
      | inl e ↦
          rw (e, ← whole)
            (IsPath-IsMatch front rest s target target_with_change (ground arith) le p)
      | inr e ↦ rw e h
    ]

module _ (target target_with_change : ℕ) where
  -- The branches of one call.
  pub bnb_cases :
      (start : ℕ) (c : Coin) (rest : List Coin) (s : SearchState) (P : SearchState → Type 0)
      → (bnb_max_rounds ≤ s.rounds → P s)
      → (target_with_change < s.current_value → P (tick s))
      → (s.current_value ≤ target_with_change
          → wrap ((improve target (tick s)).current_value + wrap_sum coin_value (c ∷ rest)) < target
          → P (improve target (tick s)))
      → (s.current_value ≤ target_with_change
          → P (
              bnb_recursive target target_with_change (start + 1) rest (
                pop (improve target (tick s)).current_value (
                  bnb_recursive target target_with_change
                    (start + 1)
                    rest
                    (push start c (improve target (tick s)))))))
      → P (bnb_recursive target target_with_change start (c ∷ rest) s)
  unfolding bnb_recursive
  bnb_cases start c rest s P a b d e =
      if-elim P _ _ _ (λ t. a (leb→le _ _ t))
        λ _.
          if-elim P _ _ _ (λ t. b (ltb→lt _ _ t))
            λ t. if-elim P _ _ _ (λ u. d (ltb-false _ _ t) (ltb→lt _ _ u)) λ u. e (ltb-false _ _ t)

  pub bnb_leaf_cases :
      (start : ℕ) (s : SearchState) (P : SearchState → Type 0)
      → P s
      → P (tick s)
      → (s.current_value ≤ target_with_change → P (improve target (tick s)))
      → P (bnb_recursive target target_with_change start [] s)
  unfolding bnb_recursive
  bnb_leaf_cases start s P a b d =
      if-elim P _ _ _ (λ _. a) λ _. if-elim P _ _ _ (λ _. b) λ t. d (ltb-false _ _ t)

  module _ (sorted : List Coin) (bounded : value sorted < 2 ^ 64) where
    abbrev Holds : SearchState → Type 0
    Holds t = BestIs sorted target target_with_change t.best t.best_excess

    bnb-BestIs :
        (front rest : List Coin) (start : ℕ) (s : SearchState)
        → front ++ rest ≡ sorted
        → start ≡ length front
        → IsPath front s
        → Holds s
        → Holds (bnb_recursive target target_with_change start rest s)
    bnb-BestIs front [] start s whole at p h =
        bnb_leaf_cases start s Holds h h
          (λ le. improve-BestIs sorted front [] target target_with_change s whole le p h)
    bnb-BestIs front (c ∷ rest) start s whole at p h =
        bnb_cases start c rest s Holds (λ _. h) (λ _. h)
          (λ le _. improve-BestIs sorted front (c ∷ rest) target target_with_change s whole le p h)
          λ le.
            let s' = improve target (tick s) in
            let p' = IsPath-same (improve-tick-Restores target s) p in
            let h' =
              improve-BestIs sorted front (c ∷ rest) target target_with_change s whole le p h in
            let whole' = append_assoc front (c ∷ []) rest ∙ whole in
            let longer : start + 1 ≡ length (front ++ (c ∷ [])) =
              omega (arith, length-append front (c ∷ [])) in
            let taken =
              bnb_recursive target target_with_change (start + 1) rest (push start c s') in
            let r = bnb-Restores target target_with_change (start + 1) rest (push start c s') in
            let back : (pop s'.current_value taken).current ≡ s'.current =
              ap pop_last r.path ∙ pop_last-append s'.current start in
            let pushed : IsPath (front ++ (c ∷ [])) (push start c s') =
              rw at (IsPath-push front c rest s' (rw whole bounded) p') in
            bnb-BestIs (front ++ (c ∷ [])) rest (start + 1) (pop s'.current_value taken) whole'
              longer (IsPath-skip front c s' (pop s'.current_value taken) back refl p')
              (bnb-BestIs (front ++ (c ∷ [])) rest (start + 1) (push start c s') whole' longer
                pushed h')

-- For coins worth less than 2 ^ 64 together, whatever the search records picks coins that are there, each at most once, and worth from the
-- target to the target with the cost of change; the recorded excess is what they exceed it by.
pub search-BestIs :
    (sorted : List Coin) (target target_with_change : ℕ)
    → value sorted < 2 ^ 64
    → BestIs sorted target target_with_change
        (search sorted target target_with_change).best
        (search sorted target target_with_change).best_excess
unfolding search
search-BestIs sorted target target_with_change b =
    bnb-BestIs target target_with_change sorted b [] sorted 0 start_state refl refl
      (record { coins = []; picked = unfold pick in refl; part = done; worth = refl }) tt
