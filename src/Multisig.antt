-- ===== src/Multisig.antt =====
-- core/multisig.rs: pushes of data and numbers, the accumulator script, and the unlocking script. The argument
-- `hash160` is that of the module Ripemd, of a SHA-256.
pub mod Ripemd
use electrum_sv_mc.Prelude.{ℕ, zero, suc, ◌+◌, ◌-◌, ◌/◌, ◌%◌, ◌^◌}
use electrum_sv_mc.Prelude.{Bool, true, false, ◌&&◌, ◌||◌, Option}
use electrum_sv_mc.Prelude.{List, [], ◌∷◌, ◌++◌, ltb, leb, ◌==◌, if◌then◌else◌}
use electrum_sv_mc.Prelude.{Result, ok, err, ◌>>=◌, ok_or}
use electrum_sv_mc.Prelude.{length}
use electrum_sv_mc.Prelude.Int.{ℤ, pos, negsuc}

pub data MultisigError : Type 0 where
  no_public_keys invalid_threshold : MultisigError
  insufficient_signatures : ℕ → ℕ → MultisigError
  missing_signature : ℕ → MultisigError
  missing_public_key : ℕ → MultisigError

-- `n.unsigned_abs()`
abbrev pub unsigned_abs : ℤ → ℕ
unsigned_abs (pos n) = n
unsigned_abs (negsuc n) = n + 1

abbrev pub is_negative : ℤ → Bool
is_negative (pos n) = false
is_negative (negsuc n) = true

-- `while val != 0 { … }`, at most eight bytes of a `u64`.
unfoldable pub magnitude_bytes : ℕ → ℕ → List ℕ
magnitude_bytes zero val = []
magnitude_bytes (suc fuel) val =
    let more = magnitude_bytes fuel (val / 256) in if val == 0 then [] else val % 256 ∷ more

-- The sign: a byte of its own after a byte with the high bit, or the high bit of the last byte.
unfoldable pub with_sign : Bool → List ℕ → List ℕ
with_sign negative [] = []
with_sign negative (b ∷ []) =
    let alone = if negative then (b + 128) ∷ [] else (b ∷ []) in
    let sign_byte = if negative then 128 else 0 in if leb 128 b then b ∷ (sign_byte ∷ []) else alone
with_sign negative (b ∷ c ∷ bytes) = b ∷ with_sign negative (c ∷ bytes)

-- A magnitude has at most nine bytes with its sign, so `bytes.len() <= 75`.
unfoldable pub push_minimal_signed : ℤ → List ℕ
push_minimal_signed n =
    let bytes = with_sign (is_negative n) (magnitude_bytes 8 (unsigned_abs n)) in
    if unsigned_abs n == 0
    then 0 ∷ []
    else if leb (length bytes) 75
    then length bytes ∷ bytes
    else 76 ∷ length bytes % 256 ∷ bytes

unfoldable pub push_int : ℤ → List ℕ
push_int (negsuc n) = if n == 0 then 79 ∷ [] else push_minimal_signed (negsuc n)
push_int (pos n) =
    if n == 0
    then 0 ∷ []
    else if leb 1 n && leb n 16
    then (81 + (n - 1)) ∷ []
    else push_minimal_signed (pos n)

-- The opcode and the length before the data.
unfoldable pub push_header : ℕ → List ℕ
push_header len =
    if leb len 75
    then len ∷ []
    else if leb len 255
    then 76 ∷ len ∷ []
    else if leb len 65535
    then 77 ∷ len % 256 ∷ len / 256 % 256 ∷ []
    else 78 ∷ len % 256 ∷ len / 256 % 256 ∷ len / 65536 % 256 ∷ len / 16777216 % 256 ∷ []

unfoldable pub push_item : List ℕ → List ℕ
push_item bytes = push_header (length bytes) ++ bytes

pub record AccumulatorMultiSigOutput : Type 0 where
  pub public_keys : List (List ℕ)
  pub threshold : ℤ

abbrev pub in_range : ℤ → ℕ → Bool
in_range (negsuc n) len = false
in_range (pos n) len = leb 1 n && leb n len

-- AccumulatorMultiSigOutput::new
unfoldable pub new_multisig : List (List ℕ) → ℤ → Result MultisigError AccumulatorMultiSigOutput
new_multisig [] threshold = err no_public_keys
new_multisig (pk ∷ public_keys) threshold =
    if in_range threshold (length (pk ∷ public_keys))
    then ok (record { public_keys = pk ∷ public_keys; threshold = threshold })
    else err invalid_threshold

-- OP_IF OP_DUP OP_HASH160 <hash> OP_EQUALVERIFY OP_CHECKSIGVERIFY OP_FROMALTSTACK OP_1ADD
-- OP_TOALTSTACK OP_ENDIF
unfoldable pub key_script : (List ℕ → List ℕ) → List ℕ → List ℕ
key_script hash160 pk =
    0x63 ∷ 0x76 ∷ 0xa9 ∷ (push_item (hash160 pk) ++ (0x88 ∷ 0xad ∷ 0x6c ∷ 0x8b ∷ 0x6b ∷ 0x68 ∷ []))

unfoldable pub key_scripts : (List ℕ → List ℕ) → List (List ℕ) → List ℕ
key_scripts hash160 [] = []
key_scripts hash160 (pk ∷ rest) = key_script hash160 pk ++ key_scripts hash160 rest

-- OP_0 OP_TOALTSTACK, the keys, OP_FROMALTSTACK <threshold> OP_GREATERTHANOREQUAL
unfoldable pub to_script_bytes : (List ℕ → List ℕ) → AccumulatorMultiSigOutput → List ℕ
to_script_bytes hash160 m =
    0 ∷ 0x6b ∷ (key_scripts hash160 m.public_keys ++ (0x6c ∷ (push_int m.threshold ++ (0xa2 ∷ []))))

-- `threshold as usize`: a negative one becomes a number beyond every length.
abbrev pub as_usize : ℤ → ℕ
as_usize (pos n) = n
as_usize (negsuc n) = 2 ^ 64 - 1 - n

-- `contains`
unfoldable pub is_one_of : ℕ → List ℕ → Bool
is_one_of i [] = false
is_one_of i (j ∷ rest) = i == j || is_one_of i rest

-- What one key adds to the unlocking script. The maps are functions of the index.
unfoldable pub unlock_key :
    List ℕ → (ℕ → Option (List ℕ)) → (ℕ → Option (List ℕ)) → ℕ → Result MultisigError (List ℕ)
unlock_key signing_indices signatures pubkeys_for_unlock key_idx =
    let signed = ok_or (signatures key_idx) (missing_signature key_idx) >>= λ sig.
    ok_or (pubkeys_for_unlock key_idx) (missing_public_key key_idx) >>= λ pubkey.
    ok (push_item sig ++ (push_item pubkey ++ (81 ∷ []))) in
    if is_one_of key_idx signing_indices then signed else ok (0 ∷ [])

-- `for key_idx in (0..n).rev()`
unfoldable pub unlock_keys :
    List ℕ → (ℕ → Option (List ℕ)) → (ℕ → Option (List ℕ)) → ℕ → Result MultisigError (List ℕ)
unlock_keys signing_indices signatures pubkeys_for_unlock zero = ok []
unlock_keys signing_indices signatures pubkeys_for_unlock (suc n) =
    unlock_key signing_indices signatures pubkeys_for_unlock n >>= λ part.
    unlock_keys signing_indices signatures pubkeys_for_unlock n >>= λ rest. ok (part ++ rest)

unfoldable pub build_unlocking_script :
    AccumulatorMultiSigOutput
    → List ℕ
    → (ℕ → Option (List ℕ))
    → (ℕ → Option (List ℕ))
    → Result MultisigError (List ℕ)
build_unlocking_script multisig signing_indices signatures pubkeys_for_unlock =
    if ltb (length signing_indices) (as_usize multisig.threshold)
    then err (insufficient_signatures (length signing_indices) (as_usize multisig.threshold))
    else unlock_keys signing_indices signatures pubkeys_for_unlock (length multisig.public_keys)
