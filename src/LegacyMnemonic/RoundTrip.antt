-- ===== src/LegacyMnemonic/RoundTrip.antt =====
-- Words that encode a hex string decode to it, core/legacy_mnemonic.rs.
use electrum_sv_mc.Prelude.{
  ℕ, zero, suc, ◌+◌, ◌*◌, ◌/◌, ◌%◌, ◌^◌, ◌≤◌, ◌<◌, ◌≡◌, refl, sym, ap, ◌∙◌,
}
use electrum_sv_mc.Prelude.{true, none, some}
use electrum_sv_mc.Prelude.{List, [], ◌∷◌, ◌++◌, arith, ltb, ◌==◌}
use electrum_sv_mc.Prelude.{ok}
use electrum_sv_mc.Prelude.{lt→ltb}
use electrum_sv_mc.Prelude.{length, get_elem?, take, drop, All}
use electrum_sv_mc.Prelude.{length-append, take-append-drop, length-take, length-drop}
use electrum_sv_mc.CoinChooser.Types.{Text}
use electrum_sv_mc.LegacyMnemonic.{
  hex_digit, first_bad, from_str_radix, word_indices, from_indices, digit_char, digits, hex_width,
  format_08x, index_of_word, words_at, encode_chunk, encode_chunks, mn_encode, word_index,
  decode_words, mn_decode,
}
use mathlib.Core.Option.{some-injective}
use electrum_sv_mc.Prelude.Swap.{get_elem?-some}
use mathlib.Core.List.{append-nil}
use native.Mathlib.Nat.{mul-le-mul_right, pow-suc}

-- Three indices give back every number below 1626 ^ 3.
from_indices-word_indices :
    (x : ℕ)
    → x < 1626 * 1626 * 1626
    → from_indices ((word_indices x).0) ((word_indices x).1.0) ((word_indices x).1.1) ≡ x
unfolding from_indices word_indices
from_indices-word_indices x h = omega (arith, h)

word_indices_lt :
    (x : ℕ)
    → ((word_indices x).0 < 1626) × (((word_indices x).1.0 < 1626) × ((word_indices x).1.1 < 1626))
unfolding word_indices
word_indices_lt x = (omega arith, (omega arith, omega arith))

-- A lower-case hex digit.
abbrev pub IsHexDigit : ℕ → Type 0
IsHexDigit c = (d : ℕ) × ((d < 16) × (digit_char d ≡ c))

All-take : (n : ℕ) (cs : Text) → All IsHexDigit cs → All IsHexDigit (take n cs)
All-take zero cs a = tt
All-take (suc n) [] a = tt
All-take (suc n) (c ∷ cs) (h, a) = (h, All-take n cs a)

All-drop : (n : ℕ) (cs : Text) → All IsHexDigit cs → All IsHexDigit (drop n cs)
All-drop zero cs a = a
All-drop (suc n) [] a = tt
All-drop (suc n) (c ∷ cs) (h, a) = All-drop n cs a

hex_digit-digit_char : (d : ℕ) → d < 16 → hex_digit (digit_char d) ≡ some d
unfolding hex_digit
hex_digit-digit_char d h = ground (arith, h)

digits_step :
    (k acc d : ℕ) (text : Text)
    → d < 16
    → digits (suc k) (acc * 16 + d) text ≡ digits k acc (digit_char d ∷ text)
unfolding digits
digits_step k acc d text h =
    let upper : (acc * 16 + d) / 16 ≡ acc = omega (arith, h) in
    let last : (acc * 16 + d) % 16 ≡ d = omega (arith, h) in rw (upper, last) refl

read_digit :
    (acc c d : ℕ) (cs : Text) (x : ℕ)
    → d < 16
    → digit_char d ≡ c
    → from_str_radix acc (c ∷ cs) ≡ some x
    → from_str_radix (acc * 16 + d) cs ≡ some x
unfolding from_str_radix
read_digit acc c d cs x l e h =
    let found : hex_digit c ≡ some d = ap hex_digit (sym e) ∙ hex_digit-digit_char d l in
    rw (found, from_str_radix) at h

-- What from_str_radix reads are the digits of its number.
digits-from_str_radix :
    (cs : Text) (k acc x : ℕ) (text : Text)
    → All IsHexDigit cs
    → from_str_radix acc cs ≡ some x
    → digits (length cs + k) x text ≡ digits k acc (cs ++ text)
unfolding from_str_radix
digits-from_str_radix [] k acc x text a h =
    let same : acc ≡ x = some-injective _ _ h in
    let width : 0 + k ≡ k = omega arith in
    ap (λ (w : ℕ). digits w x text) width ∙ ap (λ (y : ℕ). digits k y text) (sym same)
digits-from_str_radix (c ∷ cs) k acc x text ((d, (l, e)), a) h =
    let later : suc (length cs) + k ≡ length cs + suc k = omega arith in
    ap (λ (w : ℕ). digits w x text) later
    ∙ digits-from_str_radix cs (suc k) (acc * 16 + d) x text a (read_digit acc c d cs x l e h)
    ∙ digits_step k acc d (cs ++ text) l
    ∙ ap (λ (z : ℕ). digits k acc (z ∷ (cs ++ text))) e

from_str_radix_lt :
    (cs : Text) (acc x : ℕ)
    → All IsHexDigit cs
    → from_str_radix acc cs ≡ some x
    → x < (acc + 1) * 16 ^ length cs
unfolding from_str_radix
from_str_radix_lt [] acc x a h = let same : acc ≡ x = some-injective _ _ h in omega (arith, same)
from_str_radix_lt (c ∷ cs) acc x ((d, (l, e)), a) h =
    let small = from_str_radix_lt cs (acc * 16 + d) x a (read_digit acc c d cs x l e h) in
    let room =
      mul-le-mul_right {m = acc * 16 + d + 1} {n = (acc + 1) * 16} (16 ^ length cs)
        (omega (arith, l)) in
    rw (pow-suc 16 (length cs)) (omega (arith, small, room))

-- Eight digits are printed as they were read.
format_08x-chunk :
    (cs : Text) (x : ℕ)
    → length cs ≡ 8
    → All IsHexDigit cs
    → from_str_radix 0 cs ≡ some x
    → (x < 16 ^ 8) × (format_08x x ≡ cs)
unfolding format_08x hex_width digits
format_08x-chunk cs x n a h =
    let size : 16 ^ length cs ≡ 16 ^ 8 = ap (λ (w : ℕ). 16 ^ w) n in
    let bound : x < 16 ^ 8 = omega (arith, size, from_str_radix_lt cs 0 x a h) in
    let fits : ltb x (16 ^ 8) ≡ true = lt→ltb x (16 ^ 8) bound in
    let width : 8 ≡ length cs + 0 = omega (arith, n) in
    (
      bound,
      rw (fits) (
          ap (λ (w : ℕ). digits w x []) width
          ∙ digits-from_str_radix cs 0 0 x [] a h
          ∙ append-nil cs),
    )

-- Hex digits are read.
from_str_radix-some :
    (cs : Text) (acc : ℕ) → All IsHexDigit cs → (x : ℕ) × (from_str_radix acc cs ≡ some x)
unfolding from_str_radix
from_str_radix-some [] acc a = (acc, refl)
from_str_radix-some (c ∷ cs) acc ((d, (l, e)), a) =
    let found : hex_digit c ≡ some d = ap hex_digit (sym e) ∙ hex_digit-digit_char d l in
    let (x, r) = from_str_radix-some cs (acc * 16 + d) a in (x, rw (found, from_str_radix) r)

first_bad-none : (i : ℕ) (cs : Text) → All IsHexDigit cs → first_bad i cs ≡ none
unfolding first_bad
first_bad-none i [] a = refl
first_bad-none i (c ∷ cs) ((d, (l, e)), a) =
    let found : hex_digit c ≡ some d = ap hex_digit (sym e) ∙ hex_digit-digit_char d l in
    rw (found, first_bad) (first_bad-none (i + 1) cs a)

-- A table of 1626 different words that to_lowercase leaves as they are.
pub record IsTable (words : List Text) (to_lowercase : Text → Text) : Type 0 where
  pub size : length words ≡ 1626
  pub distinct : (i : ℕ) (w : Text) → get_elem? words i ≡ some w → index_of_word w words ≡ some i
  pub lower_case : (i : ℕ) (w : Text) → get_elem? words i ≡ some w → to_lowercase w ≡ w

module _ (words : List Text) (to_lowercase : Text → Text) (table : IsTable words to_lowercase) where
  -- Every index below 1626 has a word, whose index it is.
  word_index-word :
      (i : ℕ)
      → i < 1626
      → (w : Text) × ((get_elem? words i ≡ some w) × (word_index words to_lowercase w ≡ ok i))
  unfolding word_index
  word_index-word i h =
      let (w, e) = get_elem?-some words i (omega (arith, h, table.size)) in
      (w, (e, rw (table.lower_case i w e, table.distinct i w e) refl))

  words_at-some :
      (w : ℕ × (ℕ × ℕ)) (a b c : Text)
      → get_elem? words (w.0) ≡ some a
      → get_elem? words (w.1.0) ≡ some b
      → get_elem? words (w.1.1) ≡ some c
      → words_at words w ≡ some (a ∷ b ∷ c ∷ [])
  unfolding words_at
  words_at-some w a b c e f g = rw (e, words_at, f, g) refl

  encode_chunk-words :
      (cs : Text) (x : ℕ) (ws : List Text)
      → from_str_radix 0 cs ≡ some x
      → words_at words (word_indices x) ≡ some ws
      → encode_chunk words cs ≡ some (ok ws)
  unfolding encode_chunk
  encode_chunk-words cs x ws e f = rw (e, encode_chunk, f) refl

  decode_words-next :
      (a b c : Text) (w1 w2 w3 : ℕ) (rest : List Text) (more : Text)
      → word_index words to_lowercase a ≡ ok w1
      → word_index words to_lowercase b ≡ ok w2
      → word_index words to_lowercase c ≡ ok w3
      → decode_words words to_lowercase rest ≡ ok more
      → decode_words words to_lowercase (a ∷ b ∷ c ∷ rest)
        ≡ ok (format_08x (from_indices w1 w2 w3) ++ more)
  unfolding decode_words
  decode_words-next a b c w1 w2 w3 rest more e f g h = rw (e, f, g, h) refl

  -- The words of a chunk give the chunk back.
  abbrev IsDecoded : Text → List Text → Type 0
  IsDecoded cs ws =
      (rest : List Text) (more : Text)
      → decode_words words to_lowercase rest ≡ ok more
      → decode_words words to_lowercase (ws ++ rest) ≡ ok (cs ++ more)

  encode_chunk-IsDecoded :
      (cs : Text)
      → length cs ≡ 8
      → All IsHexDigit cs
      → (ws : List Text) × ((encode_chunk words cs ≡ some (ok ws))
          × ((length ws ≡ 3) × IsDecoded cs ws))
  encode_chunk-IsDecoded cs n digits_are =
      let (x, read) = from_str_radix-some cs 0 digits_are in
      let (bound, printed) = format_08x-chunk cs x n digits_are read in
      let (s1, (s2, s3)) = word_indices_lt x in
      let (a, (ea, ia)) = word_index-word ((word_indices x).0) s1 in
      let (b, (eb, ib)) = word_index-word ((word_indices x).1.0) s2 in
      let (c, (ec, ic)) = word_index-word ((word_indices x).1.1) s3 in
      (
        a ∷ b ∷ c ∷ [],
        (
          encode_chunk-words cs x _ read (words_at-some (word_indices x) a b c ea eb ec),
          (
            refl,
            λ rest more h.
                decode_words-next a b c _ _ _ rest more ia ib ic h
                ∙ ap (λ (t : Text). ok (t ++ more))
                    (ap format_08x (from_indices-word_indices x (omega (arith, bound))) ∙ printed),
          ),
        ),
      )

  -- The words of a message of so many chunks.
  IsEncoded : ℕ → ℕ → Text → Type 0
  IsEncoded k fuel m =
      (ws : List Text) × ((encode_chunks words fuel m ≡ some (ok ws))
        × ((length ws ≡ 3 * k) × (decode_words words to_lowercase ws ≡ ok m)))

  encode_none : (fuel : ℕ) → IsEncoded 0 fuel []
  unfolding IsEncoded encode_chunks decode_words
  encode_none zero = ([], (refl, (refl, refl)))
  encode_none (suc fuel) = ([], (refl, (refl, refl)))

  encode_chunks-IsEncoded :
      (k fuel : ℕ) (m : Text)
      → length m ≡ 8 * k
      → length m ≤ fuel
      → All IsHexDigit m
      → IsEncoded k fuel m
  unfolding IsEncoded encode_chunks
  encode_chunks-IsEncoded zero fuel [] n f a = encode_none fuel
  encode_chunks-IsEncoded zero fuel (c ∷ m) n f a = absurd (omega (arith, n))
  encode_chunks-IsEncoded (suc k) fuel [] n f a = absurd (omega (arith, n))
  encode_chunks-IsEncoded (suc k) zero (c ∷ m) n f a = absurd (omega (arith, f))
  encode_chunks-IsEncoded (suc k) (suc fuel) (c ∷ m) n f a =
      let whole = c ∷ m in
      let first : length (take 8 whole) ≡ 8 = omega (arith, length-take 8 whole, n) in
      let left : length (drop 8 whole) ≡ 8 * k = omega (arith, length-drop 8 whole, n) in
      let (w, (ew, (nw, dw))) = encode_chunk-IsDecoded (take 8 whole) first (All-take 8 whole a) in
      let (ws, (es, (ns, ds))) =
        encode_chunks-IsEncoded k fuel (drop 8 whole) left (omega (arith, left, n, f))
          (All-drop 8 whole a) in
      (
        w ++ ws,
        (
          rw (ew, es) refl,
          (
            omega (arith, length-append w ws, nw, ns),
            dw ws (drop 8 whole) ds ∙ ap (λ (t : Text). ok t) (take-append-drop 8 whole),
          ),
        ),
      )

  -- A message of lower-case hex digits, whose length is a multiple of eight, is encoded, and its words decode to
  -- it, where the table has 1626 different words that to_lowercase leaves as they are.
  pub mn_decode-mn_encode :
      (message : Text)
      → length message % 8 ≡ 0
      → All IsHexDigit message
      → (ws : List Text) × ((mn_encode words message ≡ some (ok ws))
          × (mn_decode words to_lowercase ws ≡ ok message))
  unfolding mn_encode mn_decode IsEncoded
  mn_decode-mn_encode message whole a =
      let k = length message / 8 in
      let (ws, (e, (n, d))) =
        encode_chunks-IsEncoded k (length message) message (omega (arith, whole)) (omega arith) a in
      let eights : (length message % 8 == 0) ≡ true = ground (arith, whole) in
      let threes : (length ws % 3 == 0) ≡ true = ground (arith, n) in
      (ws, (rw (eights, first_bad-none 0 message a, e) refl, rw (threes) d))
