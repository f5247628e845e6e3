-- ===== src/Prelude/Word.antt =====
-- Machine words. A `u64` or a 64-bit `usize` is a number below `2 ^ 64`; the operators of a release
-- build wrap, and the `checked_` and `saturating_` methods are as documented by the language.
use electrum_sv_mc.Prelude.{ℕ, ◌+◌, ◌%◌, ◌^◌, ◌<◌, ◌≡◌, Option, none, some}
use electrum_sv_mc.Prelude.{ltb, if◌then◌else◌, arith}

abbrev pub IsU64 : ℕ → Type 0
IsU64 n = n < 2 ^ 64

abbrev pub wrap : ℕ → ℕ
wrap n = n % 2 ^ 64

pub wrap_small : (n : ℕ) → n < 2 ^ 64 → wrap n ≡ n
wrap_small n h = omega arith

abbrev pub checked_add : ℕ → ℕ → Option ℕ
checked_add a b = if ltb (a + b) (2 ^ 64) then some (a + b) else none
