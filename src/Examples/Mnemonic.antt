-- ===== src/Examples/Mnemonic.antt =====
-- Runs of the legacy mnemonic, core/legacy_mnemonic.rs, with a table of numbered words.
use electrum_sv_mc.Prelude.{ℕ, zero, suc, ◌+◌, ◌≡◌, refl, sym, ap, ◌∙◌}
use electrum_sv_mc.Prelude.{false, some}
use electrum_sv_mc.Prelude.{List, [], ◌∷◌, arith}
use electrum_sv_mc.Prelude.{ok}
use electrum_sv_mc.Prelude.{length, get_elem?}
use electrum_sv_mc.Prelude.Bytes.{bytes_eq}
use electrum_sv_mc.CoinChooser.Types.{Text}
use electrum_sv_mc.LegacyMnemonic.{
  index_of_word, mn_encode, mn_decode, from_indices, format_08x, digits, hex_width,
}
use electrum_sv_mc.LegacyMnemonic.RoundTrip.{IsTable, mn_decode-mn_encode}
use mathlib.Core.Option.{some-injective}

-- So many words, each a number that grows.
abbrev numbered : ℕ → ℕ → List Text
numbered zero from = []
numbered (suc n) from = (from ∷ []) ∷ numbered n (from + 1)

length-numbered : (n from : ℕ) → length (numbered n from) ≡ n
length-numbered zero from = refl
length-numbered (suc n) from = ap (λ (k : ℕ). suc k) (length-numbered n (from + 1))

numbered-index :
    (n from i : ℕ) (w : Text)
    → get_elem? (numbered n from) i ≡ some w
    → (w ≡ (from + i) ∷ []) × (index_of_word w (numbered n from) ≡ some i)
unfolding index_of_word bytes_eq
numbered-index zero from i w h = absurd (cc h)
numbered-index (suc n) from zero w h =
    let same : (from ∷ []) ≡ w = some-injective _ _ h in
    let start : from ≡ from + 0 = omega arith in
    (sym same ∙ ap (λ (k : ℕ). k ∷ []) start, rw (← same) (ground arith))
numbered-index (suc n) from (suc i) w h =
    let (same, found) = numbered-index n (from + 1) i w h in
    let shift : from + 1 + i ≡ from + suc i = omega arith in
    let later : bytes_eq (from ∷ []) w ≡ false = rw (same) (ground arith) in
    (
      same ∙ ap (λ (k : ℕ). k ∷ []) shift,
      rw (index_of_word, later, found) (ap (λ (k : ℕ). some k) (omega arith)),
    )

numbered-IsTable : IsTable (numbered 1626 200) (λ w. w)
numbered-IsTable = record {
  size = length-numbered 1626 200;
  distinct = λ i w h. (numbered-index 1626 200 i w h).1;
  lower_case = λ i w h. refl;
}

-- deadbeef
abbrev message : Text
message = 100 ∷ 101 ∷ 97 ∷ 100 ∷ 98 ∷ 101 ∷ 101 ∷ 102 ∷ []

mn_decode-mn_encode_example :
    (ws : List Text) × ((mn_encode (numbered 1626 200) message ≡ some (ok ws))
      × (mn_decode (numbered 1626 200) (λ w. w) ws ≡ ok message))
mn_decode-mn_encode_example =
    mn_decode-mn_encode (numbered 1626 200) (λ w. w) numbered-IsTable message refl
      (
        (13, (omega arith, refl)),
        (
          (14, (omega arith, refl)),
          (
            (10, (omega arith, refl)),
            (
              (13, (omega arith, refl)),
              (
                (11, (omega arith, refl)),
                (
                  (14, (omega arith, refl)),
                  ((14, (omega arith, refl)), ((15, (omega arith, refl)), tt)),
                ),
              ),
            ),
          ),
        ),
      )

-- The last three indices print nine digits.
nine_digits : length (format_08x (from_indices 1625 1624 1623)) ≡ 9
unfolding format_08x from_indices digits hex_width
nine_digits = refl
