-- ===== src/CoinChooser/Bnb/Best.antt =====
-- The best match that `bnb_recursive` of core/coinchooser.rs records: it is sound, and the closest one.
use electrum_sv_mc.Prelude.{ℕ, zero, suc, ◌-◌, ◌^◌, ◌≤◌, ◌<◌, ◌≡◌, refl, sym, ap, ◌∙◌}
use electrum_sv_mc.Prelude.{inl, inr, Option, none, some}
use electrum_sv_mc.Prelude.{List, [], ◌∷◌, ◌++◌, arith}
use electrum_sv_mc.Prelude.{Option-cases}
use electrum_sv_mc.Prelude.{length, get_elem?, sum_of}
use electrum_sv_mc.Prelude.{sum_of-append}
use electrum_sv_mc.Prelude.Sort.{Part}
use electrum_sv_mc.Prelude.Parts.{sum_of-Part, Part-append, Part-snoc}
use electrum_sv_mc.CoinChooser.Types.{Coin, coin_value}
use electrum_sv_mc.CoinChooser.Bnb.{SearchState, push, pick}

abbrev pub value : List Coin → ℕ
value = sum_of coin_value

get_elem?-middle :
    (front : List Coin) (c : Coin) (rest : List Coin)
    → get_elem? (front ++ (c ∷ rest)) (length front) ≡ some c
get_elem?-middle [] c rest = refl
get_elem?-middle (x ∷ front) c rest = get_elem?-middle front c rest

get_elem?-append :
    (l more : List Coin) (i : ℕ) (c : Coin)
    → get_elem? l i ≡ some c
    → get_elem? (l ++ more) i ≡ some c
get_elem?-append [] more i c h = cc
get_elem?-append (x ∷ l) more zero c h = h
get_elem?-append (x ∷ l) more (suc i) c h = get_elem?-append l more i c h

pick-cons :
    (l : List Coin) (i : ℕ) (is : List ℕ) (cs : List Coin)
    → pick l (i ∷ is) ≡ some cs
    → (c : Coin) × (cs' : List Coin) × (get_elem? l i ≡ some c)
      × (pick l is ≡ some cs')
      × (cs ≡ c ∷ cs')
unfolding pick
pick-cons l i is cs h = elim (Option-cases (get_elem? l i)) [
  | inl e ↦ cc (rw (e, pick) at h)
  | inr (c, e) ↦ elim (Option-cases (pick l is)) [
    | inl e' ↦ cc (rw (e, e', pick) at h)
    | inr (cs', e') ↦ (c, cs', e, e', ground arith)
  ]
]

pick-cons_of :
    (l : List Coin) (i : ℕ) (is : List ℕ) (c : Coin) (cs : List Coin)
    → get_elem? l i ≡ some c
    → pick l is ≡ some cs
    → pick l (i ∷ is) ≡ some (c ∷ cs)
unfolding pick
pick-cons_of l i is c cs h k = ground arith

pick-append :
    (l more : List Coin) (is : List ℕ) (cs : List Coin)
    → pick l is ≡ some cs
    → pick (l ++ more) is ≡ some cs
pick-append l more [] cs h = unfold pick in h
pick-append l more (i ∷ is) cs h =
    let (c, cs', e, e', same) = pick-cons l i is cs h in
    pick-cons_of (l ++ more) i is c cs' (get_elem?-append l more i c e)
      (pick-append l more is cs' e')
    ∙ ap (λ (t : List Coin). some t) (sym same)

pick-snoc :
    (l : List Coin) (is : List ℕ) (i : ℕ) (cs : List Coin) (c : Coin)
    → pick l is ≡ some cs
    → get_elem? l i ≡ some c
    → pick l (is ++ (i ∷ [])) ≡ some (cs ++ (c ∷ []))
pick-snoc l [] i cs c h g = unfold pick in ground arith
pick-snoc l (j ∷ is) i cs c h g =
    let (d, cs', e, e', same) = pick-cons l j is cs h in
    pick-cons_of l j (is ++ (i ∷ [])) d (cs' ++ (c ∷ [])) e (pick-snoc l is i cs' c e' g)
    ∙ ap (λ (t : List Coin). some (t ++ (c ∷ []))) (sym same)

-- The path of the search picks a part of the coins it has passed.
pub record IsPath (front : List Coin) (s : SearchState) : Type 0 where
  pub coins : List Coin
  pub picked : pick front s.current ≡ some coins
  pub part : Part coins front
  pub worth : s.current_value ≡ value coins

-- `indices` pick a part of the coins that is worth from `target` to `target_with_change`.
pub record IsMatch (sorted : List Coin) (target target_with_change : ℕ) (indices : List ℕ)
    (excess : ℕ) : Type 0 where
  pub coins : List Coin
  pub picked : pick sorted indices ≡ some coins
  pub part : Part coins sorted
  pub enough : target ≤ value coins
  pub close : value coins ≤ target_with_change
  pub distance : excess ≡ value coins - target

abbrev pub BestIs : List Coin → ℕ → ℕ → Option (List ℕ) → ℕ → Type 0
BestIs sorted target target_with_change none excess = Unit
BestIs sorted target target_with_change (some indices) excess =
    IsMatch sorted target target_with_change indices excess

pub IsPath-push :
    (front : List Coin) (c : Coin) (rest : List Coin) (s : SearchState)
    → value (front ++ (c ∷ rest)) < 2 ^ 64
    → IsPath front s
    → IsPath (front ++ (c ∷ [])) (push (length front) c s)
IsPath-push front c rest s b p = record {
  coins = p.coins ++ (c ∷ []);
  picked =
      pick-snoc (front ++ (c ∷ [])) s.current (length front) p.coins c
        (pick-append front (c ∷ []) s.current p.coins p.picked) (get_elem?-middle front c []);
  part = Part-snoc c p.part;
  worth = omega (
    arith,
    p.worth,
    sum_of-Part coin_value p.part,
    sum_of-append coin_value front (c ∷ rest),
    sum_of-append coin_value p.coins (c ∷ []),
  );
}

pub IsPath-skip :
    (front : List Coin) (c : Coin) (s t : SearchState)
    → t.current ≡ s.current
    → t.current_value ≡ s.current_value
    → IsPath front s
    → IsPath (front ++ (c ∷ [])) t
IsPath-skip front c s t e f p = record {
  coins = p.coins;
  picked = rw e (pick-append front (c ∷ []) s.current p.coins p.picked);
  part = Part-append (c ∷ []) p.part;
  worth = f ∙ p.worth;
}

pub IsPath-IsMatch :
    (front rest : List Coin) (s : SearchState) (target target_with_change : ℕ)
    → target ≤ s.current_value
    → s.current_value ≤ target_with_change
    → IsPath front s
    → IsMatch (front ++ rest) target target_with_change s.current (s.current_value - target)
IsPath-IsMatch front rest s target target_with_change h k p = record {
  coins = p.coins;
  picked = pick-append front rest s.current p.coins p.picked;
  part = Part-append rest p.part;
  enough = omega (arith, p.worth);
  close = omega (arith, p.worth);
  distance = omega (arith, p.worth);
}
