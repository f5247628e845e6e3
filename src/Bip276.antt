-- ===== src/Bip276.antt =====
-- features/bip276.rs: encoding and decoding of bitcoin-script URIs. SHA-256, hex coding and `trim` are arguments.
pub mod RoundTrip
use electrum_sv_mc.Prelude.{
  ℕ, zero, suc, ◌+◌, ◌-◌, ◌*◌, ◌/◌, ◌%◌, ◌^◌, ◌≤◌, ◌<◌, ◌≡◌, refl, sym, ap, ◌∙◌,
}
use electrum_sv_mc.Prelude.{
  ◌≢◌, ◌↔◌, ◌⊎◌, inl, inr, Bool, true, false, ◌&&◌, ◌||◌, not, Option, none, some,
}
use electrum_sv_mc.Prelude.{List, [], ◌∷◌, ◌++◌, map, arith, ltb, leb, ◌==◌, if◌then◌else◌}
use electrum_sv_mc.Prelude.{
  Result, ok, err, ◌>>=◌, ok_or, Result-cases, >>=-eq-ok, Bool-cases, Option-cases, if-elim,
}
use electrum_sv_mc.Prelude.{ltb→lt, lt→ltb, leb→le, le→leb, ltb-false, leb-false, ==_iff}
use electrum_sv_mc.Prelude.{length, get_elem?, set, take, drop, replicate, sum_of, All}
use electrum_sv_mc.Prelude.{
  length-append, sum_of-append, take-append-drop, length-take, length-drop, sum_of-take_le,
}
use electrum_sv_mc.Prelude.Word.{IsU64, wrap, wrap_small, checked_add}
use electrum_sv_mc.Prelude.Bytes.{bytes_eq}
use electrum_sv_mc.CoinChooser.Types.{Text}

-- bitcoin-script
abbrev pub script_prefix : Text
script_prefix = 98 ∷ 105 ∷ 116 ∷ 99 ∷ 111 ∷ 105 ∷ 110 ∷ 45 ∷ 115 ∷ 99 ∷ 114 ∷ 105 ∷ 112 ∷ 116 ∷ []

-- bitcoin-template
abbrev pub template_prefix : Text
template_prefix =
    98 ∷ 105 ∷ 116 ∷ 99 ∷ 111 ∷ 105 ∷ 110 ∷ 45 ∷ 116 ∷ 101 ∷ 109 ∷ 112 ∷ 108 ∷ 97 ∷ 116 ∷ 101 ∷ []

abbrev pub current_version : ℕ
current_version = 1

pub data Bip276Network : Type 0 where
  mainnet testnet scaling_testnet regtest : Bip276Network

-- `network as u8`
abbrev pub network_byte : Bip276Network → ℕ
network_byte mainnet = 1
network_byte testnet = 2
network_byte scaling_testnet = 3
network_byte regtest = 4

-- Bip276Network::from_byte
unfoldable pub from_byte : ℕ → Option Bip276Network
from_byte b =
    if b == 1
    then some mainnet
    else if b == 2
    then some testnet
    else if b == 3
    then some scaling_testnet
    else if b == 4
    then some regtest
    else none

-- The expected prefixes of `InvalidPrefix` are always the two above.
pub data Bip276Error : Type 0 where
  invalid_prefix invalid_hex : Text → Bip276Error
  unsupported_version : ℕ → ℕ → Bip276Error
  checksum_mismatch : Text → Text → Bip276Error
  unknown_network : ℕ → Bip276Error
  network_mismatch : ℕ → ℕ → Bip276Error
  payload_too_short : ℕ → Bip276Error

-- `payload` is the field `data`.
pub record DecodedBip276 : Type 0 where
  pub prefix : Text
  pub version : ℕ
  pub network : ℕ
  pub payload : List ℕ

abbrev pub is_prefix : Text → Bool
is_prefix prefix = bytes_eq prefix script_prefix || bytes_eq prefix template_prefix

-- What is before and after the first colon.
unfoldable pub split_colon : Text → Option (Text × Text)
split_colon [] = none
split_colon (c ∷ text) =
    let rest = elim (split_colon text) as (λ _. Option (Text × Text)) [
      | none ↦ none
      | some s ↦ some (c ∷ s.0, s.1)
    ] in
    if c == 58 then some ([], text) else rest

-- The network is one that is expected, if one is.
abbrev pub check_network : Option Bip276Network → DecodedBip276 → Result Bip276Error DecodedBip276
check_network none d = ok d
check_network (some expected) d =
    if d.network == network_byte expected
    then ok d
    else err (network_mismatch (network_byte expected) d.network)

abbrev pub check_known :
    Option Bip276Network → DecodedBip276 → Option Bip276Network → Result Bip276Error DecodedBip276
check_known expected d none = err (unknown_network d.network)
check_known expected d (some known) = check_network expected d

module _ (sha256 : List ℕ → List ℕ) (encode : List ℕ → Text) where
  unfoldable pub checksum : List ℕ → List ℕ
  checksum bytes = take 4 (sha256 (sha256 bytes))

  -- The prefix, a colon, and the hex of version, network and data.
  unfoldable pub uri_without_checksum : Text → List ℕ → ℕ → ℕ → Text
  uri_without_checksum prefix bytes network version =
      prefix ++ (58 ∷ encode (version ∷ network ∷ bytes))

  unfoldable pub bip276_encode : Text → List ℕ → Bip276Network → ℕ → Result Bip276Error Text
  bip276_encode prefix bytes network version =
      let uri = uri_without_checksum prefix bytes (network_byte network) version in
      if version == current_version
      then ok (uri ++ encode (checksum uri))
      else err (unsupported_version current_version version)

  unfoldable pub bip276_encode_default : Text → List ℕ → Result Bip276Error Text
  bip276_encode_default prefix bytes = bip276_encode prefix bytes mainnet current_version

  -- The checks on the parts of a payload, and the data between the network and the last four bytes.
  unfoldable pub decode_parts :
      Text → Text → Option Bip276Network → ℕ → ℕ → List ℕ → Result Bip276Error DecodedBip276
  decode_parts text prefix expected version network rest =
      let checksum_bytes = drop (length rest - 4) rest in
      let local_checksum = checksum (take (length text - 8) text) in
      if version == current_version
      then (if bytes_eq checksum_bytes local_checksum
          then check_known expected
              (record {
                prefix = prefix;
                version = version;
                network = network;
                payload = take (length rest - 4) rest;
              })
              (from_byte network)
          else err (checksum_mismatch (encode checksum_bytes) (encode local_checksum)))
      else err (unsupported_version current_version version)

  -- At least six bytes, so the shorter cases are not reached.
  unfoldable pub decode_payload :
      Text → Text → Option Bip276Network → List ℕ → Result Bip276Error DecodedBip276
  decode_payload text prefix expected [] = err (payload_too_short 0)
  decode_payload text prefix expected (version ∷ []) = err (payload_too_short 1)
  decode_payload text prefix expected (version ∷ network ∷ rest) =
      if ltb (length rest) 4
      then err (payload_too_short (length rest + 2))
      else decode_parts text prefix expected version network rest

  module _ (decode : Text → Result Text (List ℕ)) where
    abbrev pub decode_hex :
        Text → Text → Option Bip276Network → Result Text (List ℕ) → Result Bip276Error DecodedBip276
    decode_hex text prefix expected (err e) = err (invalid_hex e)
    decode_hex text prefix expected (ok bytes) = decode_payload text prefix expected bytes

    abbrev pub decode_split :
        Text → Option Bip276Network → Option (Text × Text) → Result Bip276Error DecodedBip276
    decode_split text expected none = err (invalid_prefix text)
    decode_split text expected (some s) =
        if is_prefix (s.0)
        then decode_hex text (s.0) expected (decode (s.1))
        else err (invalid_prefix (s.0))

    module _ (trim : Text → Text) where
      unfoldable pub bip276_decode : Text → Option Bip276Network → Result Bip276Error DecodedBip276
      bip276_decode text expected = decode_split (trim text) expected (split_colon (trim text))
