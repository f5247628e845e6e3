-- ===== src/LegacyMnemonic.antt =====
-- core/legacy_mnemonic.rs: eight hex digits as three words, and back. The table of words and `to_lowercase` are
-- arguments.
pub mod RoundTrip
use electrum_sv_mc.Prelude.{
  ℕ, zero, suc, ◌+◌, ◌-◌, ◌*◌, ◌/◌, ◌%◌, ◌^◌, ◌≤◌, ◌<◌, ◌≡◌, refl, sym, ap, ◌∙◌,
}
use electrum_sv_mc.Prelude.{
  ◌≢◌, ◌↔◌, ◌⊎◌, inl, inr, Bool, true, false, ◌&&◌, ◌||◌, not, Option, none, some,
}
use electrum_sv_mc.Prelude.{List, [], ◌∷◌, ◌++◌, map, arith, ltb, leb, ◌==◌, if◌then◌else◌}
use electrum_sv_mc.Prelude.{
  Result, ok, err, ◌>>=◌, ok_or, Result-cases, >>=-eq-ok, Bool-cases, Option-cases, if-elim,
}
use electrum_sv_mc.Prelude.{ltb→lt, lt→ltb, leb→le, le→leb, ltb-false, leb-false, ==_iff}
use electrum_sv_mc.Prelude.{length, get_elem?, set, take, drop, replicate, sum_of, All}
use electrum_sv_mc.Prelude.{
  length-append, sum_of-append, take-append-drop, length-take, length-drop, sum_of-take_le,
}
use electrum_sv_mc.Prelude.Word.{IsU64, wrap, wrap_small, checked_add}
use electrum_sv_mc.Prelude.Bytes.{bytes_eq}
use electrum_sv_mc.CoinChooser.Types.{Text}

abbrev pub n_words : ℕ
n_words = 1626

-- The characters of an error are the bytes they start with.
pub data LegacyMnemonicError : Type 0 where
  invalid_hex_length : ℕ → LegacyMnemonicError
  invalid_hex_char : ℕ → ℕ → LegacyMnemonicError
  word_not_found : Text → LegacyMnemonicError
  invalid_word_count : ℕ → LegacyMnemonicError

-- A hex digit, of either case.
unfoldable pub hex_digit : ℕ → Option ℕ
hex_digit c =
    if leb 48 c && leb c 57
    then some (c - 48)
    else if leb 97 c && leb c 102
    then some (c - 87)
    else if leb 65 c && leb c 70
    then some (c - 55)
    else none

-- The first character that is not a hex digit, with its position.
unfoldable pub first_bad : ℕ → Text → Option (ℕ × ℕ)
first_bad i [] = none
first_bad i (c ∷ text) = elim (hex_digit c) [ none ↦ some (i, c) | some d ↦ first_bad (i + 1) text ]

-- `u64::from_str_radix(…, 16)`, of at most 16 digits.
unfoldable pub from_str_radix : ℕ → Text → Option ℕ
from_str_radix acc [] = some acc
from_str_radix acc (c ∷ text) = elim (hex_digit c) [
  | none ↦ none
  | some d ↦ from_str_radix (acc * 16 + d) text
]

-- The indices of the three words.
unfoldable pub word_indices : ℕ → ℕ × (ℕ × ℕ)
word_indices x =
    let w1 = x % n_words in
    let w2 = (x / n_words + w1) % n_words in
    let w3 = (x / n_words / n_words + w2) % n_words in (w1, (w2, w3))

-- `rem_euclid` of a difference of two indices.
abbrev pub rem_euclid : ℕ → ℕ → ℕ
rem_euclid a b = (a + n_words - b) % n_words

-- The number of three indices. It is below 1626 ^ 3, so the conversion to `u64` does not fail.
unfoldable pub from_indices : ℕ → ℕ → ℕ → ℕ
from_indices w1 w2 w3 = w1 + n_words * rem_euclid w2 w1 + n_words * n_words * rem_euclid w3 w2

abbrev pub digit_char : ℕ → ℕ
digit_char d = if ltb d 10 then d + 48 else d + 87

-- The last digits of a number, so many.
unfoldable pub digits : ℕ → ℕ → Text → Text
digits zero x text = text
digits (suc width) x text = digits width (x / 16) (digit_char (x % 16) ∷ text)

-- A width of at least eight, in which the number has room.
unfoldable pub hex_width : ℕ → ℕ → ℕ → ℕ
hex_width zero width x = width
hex_width (suc fuel) width x =
    let wider = hex_width fuel (width + 1) x in if ltb x (16 ^ width) then width else wider

-- `format!("{:08x}", x)` of a `u64`.
unfoldable pub format_08x : ℕ → Text
format_08x x = digits (hex_width 8 8 x) x []

-- `position`
unfoldable pub index_of_word : Text → List Text → Option ℕ
index_of_word word [] = none
index_of_word word (w ∷ words) =
    if bytes_eq w word
    then some 0
    else elim (index_of_word word words) [ none ↦ none | some i ↦ some (i + 1) ]

pub record LegacyMnemonic : Type 0 where
  pub words : List Text
  pub hex : Text

module _ (words : List Text) where
  -- `LEGACY_WORDS[i]`, whose index is in range: `none` is the panic.
  unfoldable pub words_at : ℕ × (ℕ × ℕ) → Option (List Text)
  words_at w = elim (get_elem? words (w.0)) [
    | none ↦ none
    | some a ↦ elim (get_elem? words (w.1.0)) [
      | none ↦ none
      | some b ↦ elim (get_elem? words (w.1.1)) [ none ↦ none | some c ↦ some (a ∷ b ∷ c ∷ []) ]
    ]
  ]

  -- One chunk of the message.
  unfoldable pub encode_chunk : Text → Option (Result LegacyMnemonicError (List Text))
  encode_chunk chunk = elim (from_str_radix 0 chunk) [
    | none ↦ some (err (invalid_hex_char 0 0))
    | some x ↦ elim (words_at (word_indices x)) [ none ↦ none | some ws ↦ some (ok ws) ]
  ]

  abbrev pub join :
      Option (Result LegacyMnemonicError (List Text))
      → Option (Result LegacyMnemonicError (List Text))
      → Option (Result LegacyMnemonicError (List Text))
  join none rest = none
  join (some (err e)) rest = some (err e)
  join (some (ok ws)) none = none
  join (some (ok ws)) (some (err e)) = some (err e)
  join (some (ok ws)) (some (ok more)) = some (ok (ws ++ more))

  -- `chunks(8)`
  unfoldable pub encode_chunks : ℕ → Text → Option (Result LegacyMnemonicError (List Text))
  encode_chunks zero message = some (ok [])
  encode_chunks (suc fuel) [] = some (ok [])
  encode_chunks (suc fuel) (c ∷ message) =
      join (encode_chunk (take 8 (c ∷ message))) (encode_chunks fuel (drop 8 (c ∷ message)))

  abbrev pub unless_bad :
      Option (ℕ × ℕ)
      → Option (Result LegacyMnemonicError (List Text))
      → Option (Result LegacyMnemonicError (List Text))
  unless_bad (some bad) chunked = some (err (invalid_hex_char (bad.0) (bad.1)))
  unless_bad none chunked = chunked

  -- A round of the loop consumes a character, at least. An outer `none` is a panic.
  unfoldable pub mn_encode : Text → Option (Result LegacyMnemonicError (List Text))
  mn_encode message =
      let chunked = unless_bad (first_bad 0 message) (encode_chunks (length message) message) in
      if length message % 8 == 0 then chunked else some (err (invalid_hex_length (length message)))

  module _ (to_lowercase : Text → Text) where
    unfoldable pub word_index : Text → Result LegacyMnemonicError ℕ
    word_index word =
        ok_or (index_of_word (to_lowercase word) words) (word_not_found (to_lowercase word))

    -- `chunks(3)`; the word count is a multiple of three, so a shorter chunk is not reached.
    unfoldable pub decode_words : List Text → Result LegacyMnemonicError Text
    decode_words [] = ok []
    decode_words (a ∷ []) = err (invalid_word_count 1)
    decode_words (a ∷ b ∷ []) = err (invalid_word_count 2)
    decode_words (a ∷ b ∷ c ∷ rest) = do
      w1 ← word_index a
      w2 ← word_index b
      w3 ← word_index c
      more ← decode_words rest
      ok (format_08x (from_indices w1 w2 w3) ++ more)

    unfoldable pub mn_decode : List Text → Result LegacyMnemonicError Text
    mn_decode wlist =
        if length wlist % 3 == 0
        then decode_words wlist
        else err (invalid_word_count (length wlist))

  -- LegacyMnemonic::from_hex
  unfoldable pub from_hex : Text → Option (Result LegacyMnemonicError LegacyMnemonic)
  from_hex hex = elim (mn_encode hex) [
    | none ↦ none
    | some r ↦ some (r >>= λ ws. ok (record { words = ws; hex = hex }))
  ]

  module _ (to_lowercase : Text → Text) where
    -- LegacyMnemonic::from_words
    unfoldable pub from_words : List Text → Result LegacyMnemonicError LegacyMnemonic
    from_words ws = mn_decode to_lowercase ws >>= λ hex. ok (record { words = ws; hex = hex })

    abbrev pub is_hex : Text → Result LegacyMnemonicError Text → Bool
    is_hex hex (err e) = false
    is_hex hex (ok decoded) = bytes_eq decoded hex

    -- LegacyMnemonic::verify
    unfoldable pub verify : LegacyMnemonic → Bool
    verify m = is_hex m.hex (mn_decode to_lowercase m.words)
