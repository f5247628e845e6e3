-- ===== src/CoinChooser/Types.antt =====
-- The data of core/coinchooser.rs. A Rust `String` is the list of its bytes.
use electrum_sv_mc.Prelude.{ℕ}
use electrum_sv_mc.Prelude.{List}
use electrum_sv_mc.Prelude.{Result}
use electrum_sv_mc.Prelude.{sum_of}
use electrum_sv_mc.Prelude.Word.{wrap}

abbrev pub Text : Type 0
Text = List ℕ

abbrev pub coin_unit : ℕ
coin_unit = 100_000_000

abbrev pub change_output_cost : ℕ
change_output_cost = 34

abbrev pub bnb_max_rounds : ℕ
bnb_max_rounds = 100_000

pub data CoinChooserError : Type 0 where
  no_coins : CoinChooserError
  insufficient_funds : ℕ → ℕ → CoinChooserError
  overflow : CoinChooserError

-- `keyinstance_id` is an `i64`, carried by its bit pattern; the code only compares it.
pub record Coin : Type 0 where
  pub tx_hash_hex : Text
  pub tx_index : ℕ
  pub value : ℕ
  pub keyinstance_id : ℕ
  pub estimated_size : ℕ

-- Coin::new
unfoldable pub new_coin : Text → ℕ → ℕ → ℕ → Coin
new_coin tx_hash_hex tx_index value keyinstance_id = record {
  tx_hash_hex = tx_hash_hex;
  tx_index = tx_index;
  value = value;
  keyinstance_id = keyinstance_id;
  estimated_size = 148;
}

abbrev pub coin_value : Coin → ℕ
coin_value c = c.value

abbrev pub coin_size : Coin → ℕ
coin_size c = c.estimated_size

pub record SelectionResult : Type 0 where
  pub coins : List Coin
  pub total_input : ℕ
  pub fee : ℕ
  pub change : ℕ

pub data Strategy : Type 0 where
  branch_and_bound random_subset privacy : Strategy

pub record CoinChooser : Type 0 where
  pub strategy : Strategy
  pub fee_rate : ℕ

-- `.map(f).sum::<u64>()`
abbrev pub wrap_sum {ℓ} : {A : Type ℓ} → (A → ℕ) → List A → ℕ
wrap_sum f l = wrap (sum_of f l)

abbrev pub Outcome : Type 0 → Type 0
Outcome = Result CoinChooserError
