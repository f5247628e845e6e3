-- ===== src/Examples/Scripts.antt =====
-- Runs of OP_RETURN decoding, features/op_return_decode.rs, and of features/bip276.rs.
use electrum_sv_mc.Prelude.{ℕ, ◌*◌, ◌≡◌, refl, ap}
use electrum_sv_mc.Prelude.{some}
use electrum_sv_mc.Prelude.{List, [], ◌∷◌, ◌++◌, arith}
use electrum_sv_mc.Prelude.{Result, ok, err, ◌>>=◌}
use electrum_sv_mc.Prelude.{length, replicate}
use electrum_sv_mc.CoinChooser.Types.{Text}
use electrum_sv_mc.OpReturn.{chunks_of}
use electrum_sv_mc.OpReturn.Pushes.{pushes, chunks_of-pushes}
use electrum_sv_mc.Prelude.Bytes.{bytes_eq}
use electrum_sv_mc.Bip276.{
  script_prefix, testnet, bip276_encode, bip276_decode, uri_without_checksum, checksum,
}
use electrum_sv_mc.Bip276.RoundTrip.{IsHex, this_network, bip276_decode-bip276_encode}

abbrev two_chunks : List (List ℕ)
two_chunks = (49 ∷ 66 ∷ 65 ∷ 80 ∷ []) ∷ [] ∷ replicate 80 7 ∷ []

chunks_of-pushes_example : chunks_of (0x6A ∷ pushes two_chunks) ≡ two_chunks
chunks_of-pushes_example =
    chunks_of-pushes two_chunks (omega arith, (omega arith, (omega arith, tt)))

-- A code of two characters for a byte.
abbrev spaced : List ℕ → Text
spaced [] = []
spaced (b ∷ bytes) = b ∷ 0 ∷ spaced bytes

abbrev unspaced : Text → Result Text (List ℕ)
unspaced [] = ok []
unspaced (b ∷ []) = err (b ∷ [])
unspaced (b ∷ z ∷ text) = unspaced text >>= λ rest. ok (b ∷ rest)

spaced-undone : (b : List ℕ) → unspaced (spaced b) ≡ ok b
spaced-undone [] = refl
spaced-undone (x ∷ b) = rw (spaced-undone b) refl

spaced-joined : (a b : List ℕ) → spaced (a ++ b) ≡ spaced a ++ spaced b
spaced-joined [] b = refl
spaced-joined (x ∷ a) b = ap (λ (t : Text). x ∷ 0 ∷ t) (spaced-joined a b)

spaced-doubled : (b : List ℕ) → length (spaced b) ≡ 2 * length b
spaced-doubled [] = refl
spaced-doubled (x ∷ b) = omega (arith, spaced-doubled b)

spaced-IsHex : IsHex spaced unspaced
spaced-IsHex = record { undone = spaced-undone; joined = spaced-joined; doubled = spaced-doubled }

abbrev zeros : List ℕ → List ℕ
zeros b = replicate 32 0

abbrev uri : Text
uri = script_prefix ++ (58 ∷ spaced (1 ∷ 2 ∷ 7 ∷ 8 ∷ 0 ∷ 0 ∷ 0 ∷ 0 ∷ []))

bip276_decode-bip276_encode_example :
    bip276_decode zeros spaced unspaced (λ t. t) uri (some testnet)
    ≡ ok (record { prefix = script_prefix; version = 1; network = 2; payload = 7 ∷ 8 ∷ [] })
unfolding bip276_encode uri_without_checksum checksum bytes_eq
bip276_decode-bip276_encode_example =
    bip276_decode-bip276_encode zeros (λ b. refl) spaced unspaced spaced-IsHex (λ t. t)
      script_prefix (7 ∷ 8 ∷ []) testnet (some testnet) uri refl this_network refl refl
