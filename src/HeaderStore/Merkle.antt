-- ===== src/HeaderStore/Merkle.antt =====
-- `verify_merkle_proof` of network/header_store.rs.
use electrum_sv_mc.Prelude.{
  ℕ, zero, suc, ◌+◌, ◌-◌, ◌*◌, ◌/◌, ◌%◌, ◌^◌, ◌≤◌, ◌<◌, ◌≡◌, refl, sym, ap, ◌∙◌,
}
use electrum_sv_mc.Prelude.{
  ◌≢◌, ◌↔◌, ◌⊎◌, inl, inr, Bool, true, false, ◌&&◌, ◌||◌, not, Option, none, some,
}
use electrum_sv_mc.Prelude.{List, [], ◌∷◌, ◌++◌, map, arith, ltb, leb, ◌==◌, if◌then◌else◌}
use electrum_sv_mc.Prelude.{
  Result, ok, err, ◌>>=◌, ok_or, Result-cases, >>=-eq-ok, Bool-cases, Option-cases, if-elim,
}
use electrum_sv_mc.Prelude.{ltb→lt, lt→ltb, leb→le, le→leb, ltb-false, leb-false, ==_iff}
use electrum_sv_mc.Prelude.{length, get_elem?, set, take, drop, replicate, sum_of, All}
use electrum_sv_mc.Prelude.{
  length-append, sum_of-append, take-append-drop, length-take, length-drop, sum_of-take_le,
}
use electrum_sv_mc.Prelude.Word.{IsU64, wrap, wrap_small, checked_add}
use electrum_sv_mc.CoinChooser.Types.{Text}
use electrum_sv_mc.HeaderStore.Header.{hash256}
use mathlib.Core.List.{reverse}
pub mod Laws
pub mod Binding
use electrum_sv_mc.Prelude.Bytes.{bytes_eq}

-- `u8::to_ascii_lowercase`
abbrev pub lower : ℕ → ℕ
lower c = if leb 65 c && leb c 90 then c + 32 else c

-- `eq_ignore_ascii_case`
abbrev pub eq_ignore_ascii_case : Text → Text → Bool
eq_ignore_ascii_case a b = bytes_eq (map lower a) (map lower b)

module _ (sha256 : List ℕ → List ℕ) where
  -- The two hashes of one level, in the order that a bit of the position says.
  unfoldable pub combine : ℕ → List ℕ → List ℕ → List ℕ
  combine bit current partner =
      hash256 sha256 (if bit == 0 then current ++ partner else partner ++ current)

  module _ (decode : Text → Option (List ℕ)) where
    -- The loop over the branch, from a level on. A release build masks the shift of `pos` to six bits.
    unfoldable pub fold_branch : ℕ → ℕ → List Text → List ℕ → Option (List ℕ)
    fold_branch pos level [] current = some current
    fold_branch pos level (branch_hash ∷ branch) current = elim (decode branch_hash) [
      | none ↦ none
      | some bytes ↦
          fold_branch pos (suc level) branch
            (combine (pos / 2 ^ (level % 64) % 2) current (reverse bytes))
    ]

    module _ (encode : List ℕ → Text) where
      abbrev pub matches_root : Text → Option (List ℕ) → Bool
      matches_root expected_root none = false
      matches_root expected_root (some current) =
          eq_ignore_ascii_case (encode (reverse current)) expected_root

      unfoldable pub verify_merkle_proof : Text → List Text → ℕ → Text → Bool
      verify_merkle_proof tx_hash branch pos expected_root = elim (decode tx_hash) [
        | none ↦ false
        | some bytes ↦ matches_root expected_root (fold_branch pos 0 branch (reverse bytes))
      ]
