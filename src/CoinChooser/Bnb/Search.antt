-- ===== src/CoinChooser/Bnb/Search.antt =====
-- What one call of `bnb_recursive` of core/coinchooser.rs leaves unchanged, and that its record only
-- improves.
use electrum_sv_mc.Prelude.{ℕ, ◌+◌, ◌≤◌, ◌≡◌, refl, ap, ◌∙◌}
use electrum_sv_mc.Prelude.{List, [], ◌∷◌, ◌++◌, arith}
use electrum_sv_mc.CoinChooser.Types.{Coin}
use electrum_sv_mc.CoinChooser.Bnb.{SearchState, pop_last, tick, improve, push, pop, bnb_recursive}

pub pop_last-append : (l : List ℕ) (x : ℕ) → pop_last (l ++ (x ∷ [])) ≡ l
pop_last-append [] x = refl
pop_last-append (y ∷ []) x = refl
pop_last-append (y ∷ z ∷ l) x = ap (λ (t : List ℕ). y ∷ t) (pop_last-append (z ∷ l) x)

-- The path is the caller's again, the excess is no larger and the count of rounds no smaller.
pub record Restores (s t : SearchState) : Type 0 where
  pub path : t.current ≡ s.current
  pub value : t.current_value ≡ s.current_value
  pub excess : t.best_excess ≤ s.best_excess
  pub counted : s.rounds ≤ t.rounds

pub improve-tick-Restores : (target : ℕ) (s : SearchState) → Restores s (improve target (tick s))
unfolding improve
improve-tick-Restores target s = ground arith

skipped-Restores :
    (start : ℕ) (c : Coin) (s s' taken skipped : SearchState)
    → Restores s s'
    → Restores (push start c s') taken
    → Restores (pop s'.current_value taken) skipped
    → Restores s skipped
skipped-Restores start c s s' taken skipped a b d = record {
  path = d.path ∙ ap pop_last b.path ∙ pop_last-append s'.current start ∙ a.path;
  value = d.value ∙ a.value;
  excess = omega arith;
  counted = omega arith;
}

module _ (target target_with_change : ℕ) where
  pub bnb-Restores :
      (start : ℕ) (rest : List Coin) (s : SearchState)
      → Restores s (bnb_recursive target target_with_change start rest s)
  unfolding bnb_recursive
  bnb-Restores start [] s = ground (arith, improve-tick-Restores target s)
  bnb-Restores start (c ∷ rest) s =
      let s' = improve target (tick s) in
      let taken = bnb_recursive target target_with_change (start + 1) rest (push start c s') in
      ground (
        arith,
        improve-tick-Restores target s,
        skipped-Restores start c s s' taken
            (bnb_recursive target target_with_change (start + 1) rest (pop s'.current_value taken))
            (improve-tick-Restores target s) (bnb-Restores (start + 1) rest (push start c s'))
            (bnb-Restores (start + 1) rest (pop s'.current_value taken)),
      )
