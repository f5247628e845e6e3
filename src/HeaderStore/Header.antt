-- ===== src/HeaderStore/Header.antt =====
-- `ParsedHeader`, `target_from_bits` and `check_pow` of network/header_store.rs. Bytes are numbers below 256;
-- `sha256` and the `hex` crate's `encode` and `decode` are parameters.
pub mod Target
pub mod Pow
pub mod RoundTrip
use electrum_sv_mc.Prelude.{
  ℕ, zero, suc, ◌+◌, ◌-◌, ◌*◌, ◌/◌, ◌%◌, ◌^◌, ◌≤◌, ◌<◌, ◌≡◌, refl, sym, ap, ◌∙◌,
}
use electrum_sv_mc.Prelude.{
  ◌≢◌, ◌↔◌, ◌⊎◌, inl, inr, Bool, true, false, ◌&&◌, ◌||◌, not, Option, none, some,
}
use electrum_sv_mc.Prelude.{List, [], ◌∷◌, ◌++◌, map, arith, ltb, leb, ◌==◌, if◌then◌else◌}
use electrum_sv_mc.Prelude.{
  Result, ok, err, ◌>>=◌, ok_or, Result-cases, >>=-eq-ok, Bool-cases, Option-cases, if-elim,
}
use electrum_sv_mc.Prelude.{ltb→lt, lt→ltb, leb→le, le→leb, ltb-false, leb-false, ==_iff}
use electrum_sv_mc.Prelude.{length, get_elem?, set, take, drop, replicate, sum_of, All}
use electrum_sv_mc.Prelude.{
  length-append, sum_of-append, take-append-drop, length-take, length-drop, sum_of-take_le,
}
use electrum_sv_mc.Prelude.Word.{IsU64, wrap, wrap_small, checked_add}
use electrum_sv_mc.CoinChooser.Types.{Text}
use mathlib.Core.List.{reverse}

pub data NetworkError : Type 0 where
  protocol : NetworkError
  validation : NetworkError
  not_found : NetworkError

pub record ParsedHeader : Type 0 where
  pub version : ℕ
  pub prev_hash : Text
  pub merkle_root : Text
  pub timestamp : ℕ
  pub bits : ℕ
  pub nonce : ℕ
  pub height : ℕ
  pub hash : Text

abbrev pub header_size : ℕ
header_size = 80

-- `&raw[from..to]`
abbrev pub slice : ℕ → ℕ → List ℕ → List ℕ
slice from to raw = take (to - from) (drop from raw)

-- `u32::from_le_bytes`, of a slice of any length
unfoldable pub from_le_bytes : List ℕ → ℕ
from_le_bytes [] = 0
from_le_bytes (b ∷ rest) = b + 256 * from_le_bytes rest

-- `u32::to_le_bytes`
unfoldable pub to_le_bytes : ℕ → List ℕ
to_le_bytes n = n % 256 ∷ n / 256 % 256 ∷ n / 65536 % 256 ∷ n / 16777216 % 256 ∷ []

-- `target[i] = b`
abbrev pub put : ℕ → ℕ → List ℕ → List ℕ
put i b target = if ltb i 32 then set target i b else target

abbrev pub mantissa_of : ℕ → ℕ
mantissa_of bits = bits % 8388608

abbrev pub exponent_of : ℕ → ℕ
exponent_of bits = bits / 16777216

-- One round of the loop that shifts the mantissa right: `if i + shift < 3 { … }`.
abbrev pub put_shifted : ℕ → ℕ → ℕ → List ℕ → List ℕ
put_shifted shift i b target = if ltb (i + shift) 3 then put (29 + i + shift) b target else target

unfoldable pub target_from_bits : ℕ → List ℕ
target_from_bits bits =
    let exponent = exponent_of bits in
    let mantissa = mantissa_of bits in
    let m0 = mantissa / 65536 % 256 in
    let m1 = mantissa / 256 % 256 in
    let m2 = mantissa % 256 in
    let target = replicate 32 0 in
    let start = 32 - exponent in
    let shift = 3 - exponent in
    if leb 3 exponent && leb exponent 32
    then put (start + 2) m2 (put (start + 1) m1 (put start m0 target))
    else if ltb exponent 3
    then put_shifted shift 2 m2 (put_shifted shift 1 m1 (put_shifted shift 0 m0 target))
    else target

-- `<` of byte slices: lexicographic.
unfoldable pub bytes_lt : List ℕ → List ℕ → Bool
bytes_lt xs [] = false
bytes_lt [] (y ∷ ys) = true
bytes_lt (x ∷ xs) (y ∷ ys) =
    let rest = bytes_lt xs ys in if ltb x y then true else if x == y then rest else false

module _ (sha256 : List ℕ → List ℕ) where
  unfoldable pub hash256 : List ℕ → List ℕ
  hash256 data' = sha256 (sha256 data')

  unfoldable pub check_pow : List ℕ → Bool
  check_pow raw =
      if length raw == header_size
      then bytes_lt (reverse (hash256 raw)) (target_from_bits (from_le_bytes (slice 72 76 raw)))
      else false

  module _ (encode : List ℕ → Text) where
    abbrev pub header_hash_display : List ℕ → Text
    header_hash_display raw = encode (reverse (hash256 raw))

    unfoldable pub from_raw : List ℕ → ℕ → Result NetworkError ParsedHeader
    from_raw raw height =
        if length raw == header_size
        then ok (record {
          version = from_le_bytes (slice 0 4 raw);
          prev_hash = encode (reverse (slice 4 36 raw));
          merkle_root = encode (reverse (slice 36 68 raw));
          timestamp = from_le_bytes (slice 68 72 raw);
          bits = from_le_bytes (slice 72 76 raw);
          nonce = from_le_bytes (slice 76 80 raw);
          height = height;
          hash = header_hash_display raw;
        })
        else err protocol

    module _ (decode : Text → Option (List ℕ)) where
      unfoldable pub from_hex : Text → ℕ → Result NetworkError ParsedHeader
      from_hex hex_str height = ok_or (decode hex_str) protocol >>= λ raw. from_raw raw height

-- `unwrap_or_default`
abbrev pub unwrap_or_default : Option (List ℕ) → List ℕ
unwrap_or_default none = []
unwrap_or_default (some bytes) = bytes

module _ (decode : Text → Option (List ℕ)) where
  unfoldable pub to_raw : ParsedHeader → List ℕ
  to_raw h =
      to_le_bytes h.version
      ++ (reverse (unwrap_or_default (decode h.prev_hash))
          ++ (reverse (unwrap_or_default (decode h.merkle_root))
              ++ (to_le_bytes h.timestamp ++ (to_le_bytes h.bits ++ to_le_bytes h.nonce))))
