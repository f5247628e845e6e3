-- ===== src/CoinChooser/Bnb.antt =====
-- The branch and bound search of core/coinchooser.rs, `bnb_recursive`, and its fallback.
pub mod Search
pub mod Best
pub mod Match
pub mod Closest
use electrum_sv_mc.Prelude.{
  ℕ, zero, suc, ◌+◌, ◌-◌, ◌*◌, ◌/◌, ◌%◌, ◌^◌, ◌≤◌, ◌<◌, ◌≡◌, refl, sym, ap, ◌∙◌,
}
use electrum_sv_mc.Prelude.{
  ◌≢◌, ◌↔◌, ◌⊎◌, inl, inr, Bool, true, false, ◌&&◌, ◌||◌, not, Option, none, some,
}
use electrum_sv_mc.Prelude.{List, [], ◌∷◌, ◌++◌, map, arith, ltb, leb, ◌==◌, if◌then◌else◌}
use electrum_sv_mc.Prelude.{
  Result, ok, err, ◌>>=◌, ok_or, Result-cases, >>=-eq-ok, Bool-cases, Option-cases,
}
use electrum_sv_mc.Prelude.{ltb→lt, lt→ltb, leb→le, le→leb, ltb-false, leb-false, ==_iff}
use electrum_sv_mc.Prelude.{length, get_elem?, set, take, drop, replicate, sum_of, All}
use electrum_sv_mc.Prelude.{
  length-append, sum_of-append, take-append-drop, length-take, length-drop, sum_of-take_le,
}
use electrum_sv_mc.Prelude.Word.{IsU64, wrap, wrap_small, checked_add}
use electrum_sv_mc.Prelude.Sort.{sort_desc}
use electrum_sv_mc.CoinChooser.Types.{Coin, coin_value, coin_size, SelectionResult, Outcome}
use electrum_sv_mc.CoinChooser.Types.{CoinChooserError, insufficient_funds, overflow, wrap_sum}
use electrum_sv_mc.CoinChooser.Types.{change_output_cost, bnb_max_rounds}

-- The `&mut` arguments of the recursion.
pub record SearchState : Type 0 where
  pub current : List ℕ
  pub current_value : ℕ
  pub best : Option (List ℕ)
  pub best_excess : ℕ
  pub rounds : ℕ

-- `Vec::pop`, its result not used.
abbrev pub pop_last : List ℕ → List ℕ
pop_last [] = []
pop_last (x ∷ []) = []
pop_last (x ∷ y ∷ l) = x ∷ pop_last (y ∷ l)

abbrev pub tick : SearchState → SearchState
tick s = record s { rounds = s.rounds + 1 }

-- `if *current_value >= target { … }`
unfoldable pub improve : ℕ → SearchState → SearchState
improve target s =
    if leb target s.current_value && ltb (s.current_value - target) s.best_excess
    then record s { best_excess = s.current_value - target; best = some s.current }
    else s

abbrev pub push : ℕ → Coin → SearchState → SearchState
push start c s = record s {
  current = s.current ++ (start ∷ []);
  current_value = wrap (s.current_value + c.value);
}

abbrev pub pop : ℕ → SearchState → SearchState
pop prev s = record s { current = pop_last s.current; current_value = prev }

-- The list is `sorted[start..]`.
unfoldable pub bnb_recursive : ℕ → ℕ → ℕ → List Coin → SearchState → SearchState
unfolding improve
bnb_recursive target target_with_change start [] s =
    if leb bnb_max_rounds s.rounds
    then s
    else if ltb target_with_change s.current_value
    then tick s
    else improve target (tick s)
bnb_recursive target target_with_change start (c ∷ rest) s =
    let s' = improve target (tick s) in
    let taken = bnb_recursive target target_with_change (start + 1) rest (push start c s') in
    let back = pop s'.current_value taken in
    let skipped = bnb_recursive target target_with_change (start + 1) rest back in
    if leb bnb_max_rounds s.rounds
    then s
    else if ltb target_with_change s.current_value
    then tick s
    else if ltb (wrap (s'.current_value + wrap_sum coin_value (c ∷ rest))) target
    then s'
    else skipped

abbrev pub start_state : SearchState
start_state = record {
  current = [];
  current_value = 0;
  best = none;
  best_excess = 2 ^ 64 - 1;
  rounds = 0;
}

-- `indices.iter().map(|&i| sorted[i].clone())`; `none` is the panic of an index out of bounds.
unfoldable pub pick : List Coin → List ℕ → Option (List Coin)
pick sorted [] = some []
pick sorted (i ∷ is) = elim (get_elem? sorted i) [
  | none ↦ none
  | some c ↦ elim (pick sorted is) [ none ↦ none | some cs ↦ some (c ∷ cs) ]
]

-- The loop of `fallback_largest_first`.
unfoldable pub fallback_loop : ℕ → ℕ → List Coin → ℕ → ℕ → List Coin → Outcome SelectionResult
fallback_loop fee_rate target_amount selected accumulated input_size [] =
    let fee = wrap (wrap (10 + input_size) * fee_rate) in
    err (insufficient_funds (wrap (target_amount + fee)) accumulated)
fallback_loop fee_rate target_amount selected accumulated input_size (c ∷ rest) =
    let accumulated' = accumulated + c.value in
    let input_size' = wrap (input_size + c.estimated_size) in
    let fee = wrap (wrap (10 + input_size') * fee_rate) in
    let more =
      fallback_loop fee_rate target_amount (selected ++ (c ∷ [])) accumulated' input_size' rest in
    if ltb accumulated' (2 ^ 64)
    then (if leb (wrap (target_amount + fee)) accumulated'
        then ok (record {
          coins = selected ++ (c ∷ []);
          total_input = accumulated';
          fee = fee;
          change = wrap (wrap (accumulated' + 2 ^ 64 - target_amount) + 2 ^ 64 - fee);
        })
        else more)
    else err overflow

unfoldable pub fallback_largest_first : ℕ → List Coin → ℕ → Outcome SelectionResult
unfolding fallback_loop
fallback_largest_first fee_rate coins target_amount =
    fallback_loop fee_rate target_amount [] 0 0 (sort_desc coin_value coins)

-- The result for the coins of a match. `saturating_sub` stops at 0, as `-` does.
unfoldable pub matched : ℕ → ℕ → List Coin → SelectionResult
matched fee_rate target_amount selected =
    let total_input = wrap_sum coin_value selected in
    let fee = wrap (wrap (10 + wrap_sum coin_size selected) * fee_rate) in
    record {
      coins = selected;
      total_input = total_input;
      fee = fee;
      change = total_input - wrap (target_amount + fee);
    }

unfoldable pub search : List Coin → ℕ → ℕ → SearchState
search sorted target_amount target_with_change =
    bnb_recursive target_amount target_with_change 0 sorted start_state

-- `match best { … }`; the outer `none` is a panic.
unfoldable pub finish_bnb :
    ℕ → List Coin → List Coin → ℕ → Option (List ℕ) → Option (Outcome SelectionResult)
finish_bnb fee_rate coins sorted target_amount none =
    some (fallback_largest_first fee_rate coins target_amount)
finish_bnb fee_rate coins sorted target_amount (some indices) = elim (pick sorted indices) [
  | none ↦ none
  | some selected ↦ some (ok (matched fee_rate target_amount selected))
]

unfoldable pub select_bnb : ℕ → List Coin → ℕ → Option (Outcome SelectionResult)
select_bnb fee_rate coins target_amount =
    elim (checked_add target_amount (wrap (change_output_cost * fee_rate))) [
      | none ↦ some (err overflow)
      | some target_with_change ↦
          let sorted = sort_desc coin_value coins in
          finish_bnb fee_rate coins sorted target_amount
            (search sorted target_amount target_with_change).best
    ]
