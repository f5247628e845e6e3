-- ===== src/Bip276/RoundTrip.antt =====
-- A URI that bip276_encode makes is decoded to its parts.
use electrum_sv_mc.Prelude.{ℕ, ◌-◌, ◌*◌, ◌≡◌, refl, sym, ap, ◌∙◌}
use electrum_sv_mc.Prelude.{inl, inr, true, false, Option, none, some}
use electrum_sv_mc.Prelude.{List, ◌∷◌, ◌++◌, arith, ltb}
use electrum_sv_mc.Prelude.{Result, ok, Bool-cases}
use electrum_sv_mc.Prelude.{length}
use electrum_sv_mc.Prelude.{length-append, length-take}
use electrum_sv_mc.Prelude.{take-length_append, drop-length_append}
use electrum_sv_mc.Prelude.Bytes.{bytes_eq, bytes_eq_iff, bytes_eq_refl}
use electrum_sv_mc.CoinChooser.Types.{Text}
use electrum_sv_mc.Bip276.{
  script_prefix, template_prefix, Bip276Network, mainnet, testnet, scaling_testnet, regtest,
  network_byte, from_byte, DecodedBip276, is_prefix, split_colon, check_network,
}
use electrum_sv_mc.Bip276.{
  checksum, uri_without_checksum, bip276_encode, decode_parts, decode_payload, bip276_decode,
}
use mathlib.Core.List.{append_assoc}

split_colon-prefix :
    (prefix rest : Text)
    → is_prefix prefix ≡ true
    → split_colon (prefix ++ (58 ∷ rest)) ≡ some (prefix, rest)
unfolding split_colon
split_colon-prefix prefix rest h = elim (Bool-cases (bytes_eq prefix script_prefix)) [
  | inl s ↦ rw ((bytes_eq_iff prefix script_prefix).0 s) refl
  | inr s ↦
      let t : bytes_eq prefix template_prefix ≡ true = ground (arith, h, s) in
      rw ((bytes_eq_iff prefix template_prefix).0 t) refl
]

from_byte-network_byte : (n : Bip276Network) → from_byte (network_byte n) ≡ some n
unfolding from_byte
from_byte-network_byte mainnet = refl
from_byte-network_byte testnet = refl
from_byte-network_byte scaling_testnet = refl
from_byte-network_byte regtest = refl

-- What the library that codes hex documents.
pub record IsHex (encode : List ℕ → Text) (decode : Text → Result Text (List ℕ)) : Type 0 where
  pub undone : (b : List ℕ) → decode (encode b) ≡ ok b
  pub joined : (a b : List ℕ) → encode (a ++ b) ≡ encode a ++ encode b
  pub doubled : (b : List ℕ) → length (encode b) ≡ 2 * length b

-- The network that decoding may be asked to expect.
pub data MayExpect (n : Bip276Network) : Option Bip276Network → Type 0 where
  any_network : MayExpect n none
  this_network : MayExpect n (some n)

check_network-ok :
    (n : Bip276Network) {expected : Option Bip276Network} (d : DecodedBip276)
    → MayExpect n expected
    → d.network ≡ network_byte n
    → check_network expected d ≡ ok d
check_network-ok n d any_network h = refl
check_network-ok n d this_network h = ground (arith, h)

module _ (sha256 : List ℕ → List ℕ) (length-sha256 : (b : List ℕ) → length (sha256 b) ≡ 32)
    (encode : List ℕ → Text) (decode : Text → Result Text (List ℕ))
    (hex : IsHex encode decode) where
  length-checksum : (b : List ℕ) → length (checksum sha256 encode b) ≡ 4
  unfolding checksum
  length-checksum b = omega (arith, length-take 4 (sha256 (sha256 b)), length-sha256 (sha256 b))

  decode_parts-ok :
      (uri prefix : Text) (n : Bip276Network) (expected : Option Bip276Network) (bytes : List ℕ)
      → MayExpect n expected
      → let cs = checksum sha256 encode uri in
        decode_parts sha256 encode
          (uri ++ encode cs)
          prefix
          expected
          1
          (network_byte n)
          (bytes ++ cs)
        ≡ ok (record { prefix = prefix; version = 1; network = network_byte n; payload = bytes })
  unfolding decode_parts
  decode_parts-ok uri prefix n expected bytes m =
      let cs = checksum sha256 encode uri in
      let four = length-checksum uri in
      let inner : length (bytes ++ cs) - 4 ≡ length bytes =
        omega (arith, length-append bytes cs, four) in
      let outer : length (uri ++ encode cs) - 8 ≡ length uri =
        omega (arith, length-append uri (encode cs), hex.doubled cs, four) in
      rw
        (
          inner,
          outer,
          take-length_append uri (encode cs),
          take-length_append bytes cs,
          drop-length_append bytes cs,
          bytes_eq_refl cs,
          from_byte-network_byte n,
        )
        (check_network-ok n _ m refl)

  decode_payload-ok :
      (uri prefix : Text) (n : Bip276Network) (expected : Option Bip276Network) (bytes : List ℕ)
      → MayExpect n expected
      → let cs = checksum sha256 encode uri in
        decode_payload sha256 encode
          (uri ++ encode cs)
          prefix
          expected
          (1 ∷ network_byte n ∷ (bytes ++ cs))
        ≡ ok (record { prefix = prefix; version = 1; network = network_byte n; payload = bytes })
  unfolding decode_payload
  decode_payload-ok uri prefix n expected bytes m =
      let cs = checksum sha256 encode uri in
      let long : ltb (length (bytes ++ cs)) 4 ≡ false =
        ground (arith, length-append bytes cs, length-checksum uri) in
      rw (long) (decode_parts-ok uri prefix n expected bytes m)

  -- The payload with its checksum, in hex.
  whole :
      (prefix : Text) (bytes : List ℕ) (n : Bip276Network) (cs : List ℕ)
      → uri_without_checksum sha256 encode prefix bytes (network_byte n) 1 ++ encode cs
        ≡ prefix ++ (58 ∷ encode (1 ∷ network_byte n ∷ (bytes ++ cs)))
  unfolding uri_without_checksum
  whole prefix bytes n cs =
      append_assoc prefix (58 ∷ encode (1 ∷ network_byte n ∷ bytes)) (encode cs)
      ∙ ap (λ (t : Text). prefix ++ (58 ∷ t)) (sym (hex.joined (1 ∷ network_byte n ∷ bytes) cs))

  module _ (trim : Text → Text) where
    -- A URI with one of the two prefixes and version 1 decodes to the prefix, the network and the data it was made
    -- of, whether or not that network is expected, where hex coding is undone by decoding, joins and doubles, the
    -- hash has 32 bytes and the URI has no white space at its ends.
    pub bip276_decode-bip276_encode :
        (prefix : Text) (bytes : List ℕ) (n : Bip276Network) (expected : Option Bip276Network)
        (uri : Text)
        → is_prefix prefix ≡ true
        → MayExpect n expected
        → bip276_encode sha256 encode prefix bytes n 1 ≡ ok uri
        → trim uri ≡ uri
        → bip276_decode sha256 encode decode trim uri expected
          ≡ ok (record { prefix = prefix; version = 1; network = network_byte n; payload = bytes })
    unfolding bip276_encode bip276_decode
    bip276_decode-bip276_encode prefix bytes n expected uri p m made trimmed =
        let start = uri_without_checksum sha256 encode prefix bytes (network_byte n) 1 in
        let cs = checksum sha256 encode start in
        let same : start ++ encode cs ≡ uri = cc made in
        let split : split_colon (start ++ encode cs)
            ≡ some (prefix, encode (1 ∷ network_byte n ∷ (bytes ++ cs))) =
          ap split_colon (whole prefix bytes n cs) ∙ split_colon-prefix prefix _ p in
        rw (trimmed, ← same, split, p, hex.undone (1 ∷ network_byte n ∷ (bytes ++ cs)))
          (decode_payload-ok start prefix n expected bytes m)
