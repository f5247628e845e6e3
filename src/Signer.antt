-- ===== src/Signer.antt =====
-- core/signer.rs: the local signer and the signer of accumulator outputs. The SDK is the record `Sdk`.
pub mod Threshold
use electrum_sv_mc.Prelude.{
  ℕ, zero, suc, ◌+◌, ◌-◌, ◌*◌, ◌/◌, ◌%◌, ◌^◌, ◌≤◌, ◌<◌, ◌≡◌, refl, sym, ap, ◌∙◌,
}
use electrum_sv_mc.Prelude.{
  ◌≢◌, ◌↔◌, ◌⊎◌, inl, inr, Bool, true, false, ◌&&◌, ◌||◌, not, Option, none, some,
}
use electrum_sv_mc.Prelude.{List, [], ◌∷◌, ◌++◌, map, arith, ltb, leb, ◌==◌, if◌then◌else◌}
use electrum_sv_mc.Prelude.{
  Result, ok, err, ◌>>=◌, ok_or, Result-cases, >>=-eq-ok, Bool-cases, Option-cases, if-elim,
}
use electrum_sv_mc.Prelude.{ltb→lt, lt→ltb, leb→le, le→leb, ltb-false, leb-false, ==_iff}
use electrum_sv_mc.Prelude.{length, get_elem?, set, take, drop, replicate, sum_of, All}
use electrum_sv_mc.Prelude.{
  length-append, sum_of-append, take-append-drop, length-take, length-drop, sum_of-take_le,
}
use electrum_sv_mc.Prelude.Word.{IsU64, wrap, wrap_small, checked_add}
use electrum_sv_mc.Prelude.Bytes.{bytes_eq}
use electrum_sv_mc.Prelude.Int.{ℤ, pos, negsuc}
use electrum_sv_mc.CoinChooser.Types.{Text}
use electrum_sv_mc.Transaction.Types.{SelectedUtxo}
use electrum_sv_mc.Multisig.{
  MultisigError, AccumulatorMultiSigOutput, to_script_bytes, build_unlocking_script,
}

-- What the signers call of the SDK, with its errors as their texts: extended keys, private keys, and the
-- transaction, whose inputs `num_inputs` counts.
pub record Sdk (Tx Key Xkey : Type 0) : Type 0 where
  pub from_string : Text → Result Text Xkey
  pub derive : Xkey → ℕ × ℕ → Result Text Xkey
  pub base58_payload : Xkey → Result Text (List ℕ)
  pub from_bytes : List ℕ → Result Text Key
  pub public_der : Key → List ℕ
  pub p2pkh_lock : Key → Result Text (List ℕ)
  pub num_inputs : Tx → ℕ
  pub source_txid : Tx → ℕ → Option Text
  pub sign_input : Tx → ℕ → Key → ℕ → ℕ → List ℕ → Result Text Tx
  pub sighash_preimage : Tx → ℕ → ℕ → ℕ → List ℕ → Result Text (List ℕ)
  pub hash256 : List ℕ → List ℕ
  pub sign_hash : Key → List ℕ → Result Text (List ℕ)
  pub set_unlocking_script : Tx → ℕ → List ℕ → Tx
  pub from_hex : Text → Result Text Tx
  pub tx_id : Tx → Result Text Text
  pub to_hex : Tx → Result Text Text

-- The messages the errors carry.
pub data Reason : Type 0 where
  sdk_text : Text → Reason
  xprv_is_empty no_inputs_to_sign xprv_prefix : Reason
  xprv_too_short : ℕ → Reason
  key_index_out_of_range : ℕ → ℕ → Reason
  public_key_differs : ℕ → Reason
  multisig_failed : MultisigError → Reason

pub data SignerError : Type 0 where
  cannot_sign derivation_failed signing_failed bsv_sdk : Reason → SignerError
  input_mismatch : ℕ → ℕ → ℕ → SignerError
  no_source_txid : ℕ → SignerError

-- `map_err`
abbrev pub map_err {ℓ} : {E F A : Type ℓ} → (E → F) → Result E A → Result F A
map_err f (err e) = err (f e)
map_err f (ok x) = ok x

-- SIGHASH_ALL | SIGHASH_FORKID
abbrev pub sighash_type : ℕ
sighash_type = 0x41

-- `!self.xprv.is_empty()`
abbrev pub can_sign : Text → Bool
can_sign [] = false
can_sign (c ∷ xprv) = true

pub record MultisigSigner : Type 0 where
  pub xprv : Text
  pub multisig : AccumulatorMultiSigOutput
  pub local_key_index : ℕ

-- MultisigSigner::new
unfoldable pub new_signer : Text → AccumulatorMultiSigOutput → ℕ → Result SignerError MultisigSigner
new_signer xprv multisig local_key_index =
    if leb (length multisig.public_keys) local_key_index
    then err (cannot_sign (key_index_out_of_range local_key_index (length multisig.public_keys)))
    else ok (record { xprv = xprv; multisig = multisig; local_key_index = local_key_index })

-- A map with one entry.
abbrev pub only : ℕ → List ℕ → ℕ → Option (List ℕ)
only key value i = if i == key then some value else none

module _ {Tx Key Xkey : Type 0} (sdk : Sdk Tx Key Xkey) where
  -- The checks on the payload of an extended key, and its last 32 bytes.
  unfoldable pub key_of_payload : List ℕ → Result SignerError Key
  key_of_payload decoded =
      if ltb (length decoded) 78
      then err (derivation_failed (xprv_too_short (length decoded)))
      else elim (get_elem? decoded 45) [
        | none ↦ err (derivation_failed xprv_prefix)
        | some b ↦
            if b == 0
            then map_err (λ e. bsv_sdk (sdk_text e)) (sdk.from_bytes (take 32 (drop 46 decoded)))
            else err (derivation_failed xprv_prefix)
      ]

  -- LocalSigner::derive_private_key
  unfoldable pub derive_private_key : Text → ℕ × ℕ → Result SignerError Key
  derive_private_key xprv subpath = do
    account_key ← map_err (λ e. derivation_failed (sdk_text e)) (sdk.from_string xprv)
    child_key ← map_err (λ e. derivation_failed (sdk_text e)) (sdk.derive account_key subpath)
    decoded ← map_err (λ e. derivation_failed (sdk_text e)) (sdk.base58_payload child_key)
    key_of_payload decoded

  -- One round of the loop of LocalSigner::sign_tx.
  unfoldable pub sign_one : Text → ℕ → SelectedUtxo → Tx → Result SignerError Tx
  sign_one xprv i utxo tx = elim (sdk.source_txid tx i) [
    | none ↦ err (no_source_txid i)
    | some txid ↦ do
      priv_key ← derive_private_key xprv utxo.subpath
      source_locking_script ← map_err (λ e. bsv_sdk (sdk_text e)) (sdk.p2pkh_lock priv_key)
      map_err (λ e. bsv_sdk (sdk_text e))
          (sdk.sign_input tx i priv_key sighash_type utxo.satoshis source_locking_script)
  ]

  unfoldable pub sign_each : Text → ℕ → List SelectedUtxo → Tx → Result SignerError Tx
  sign_each xprv i [] tx = ok tx
  sign_each xprv i (utxo ∷ utxos) tx = sign_one xprv i utxo tx >>= sign_each xprv (i + 1) utxos

  -- The checks that both signers start with.
  unfoldable pub checked : Text → Tx → List SelectedUtxo → Result SignerError Unit
  checked xprv tx inputs =
      if can_sign xprv
      then (if sdk.num_inputs tx == length inputs
          then ok tt
          else err (input_mismatch 0 (sdk.num_inputs tx) (length inputs)))
      else err (cannot_sign xprv_is_empty)

  -- LocalSigner::sign_tx
  unfoldable pub local_sign_tx : Text → Tx → List SelectedUtxo → Result SignerError Tx
  local_sign_tx xprv tx inputs = checked xprv tx inputs >>= λ u. sign_each xprv 0 inputs tx

  -- The sighash, the signature and the unlocking script of one input.
  unfoldable pub cosign_input :
      AccumulatorMultiSigOutput → ℕ → Key → List ℕ → ℕ → SelectedUtxo → Tx → Result SignerError Tx
  cosign_input multisig local_idx priv_key source_locking_script i utxo tx = do
    preimage ←
        map_err (λ e. bsv_sdk (sdk_text e))
          (sdk.sighash_preimage tx i sighash_type utxo.satoshis source_locking_script)
    sig ← map_err (λ e. signing_failed (sdk_text e)) (sdk.sign_hash priv_key (sdk.hash256 preimage))
    unlock_bytes ←
        map_err (λ e. signing_failed (multisig_failed e))
          (build_unlocking_script multisig (local_idx ∷ [])
            (only local_idx (sig ++ (sighash_type ∷ [])))
            (only local_idx (sdk.public_der priv_key)))
    ok (sdk.set_unlocking_script tx i unlock_bytes)

  -- One round of the loop of MultisigSigner::sign_tx.
  unfoldable pub cosign_one :
      AccumulatorMultiSigOutput → ℕ → Key → List ℕ → ℕ → SelectedUtxo → Tx → Result SignerError Tx
  cosign_one multisig local_idx priv_key source_locking_script i utxo tx =
      elim (sdk.source_txid tx i) [
        | none ↦ err (no_source_txid i)
        | some txid ↦ cosign_input multisig local_idx priv_key source_locking_script i utxo tx
      ]

  unfoldable pub cosign_each :
      AccumulatorMultiSigOutput
      → ℕ
      → Key
      → List ℕ
      → ℕ
      → List SelectedUtxo
      → Tx
      → Result SignerError Tx
  cosign_each multisig local_idx priv_key source_locking_script i [] tx = ok tx
  cosign_each multisig local_idx priv_key source_locking_script i (utxo ∷ utxos) tx =
      cosign_one multisig local_idx priv_key source_locking_script i utxo tx
      >>= cosign_each multisig local_idx priv_key source_locking_script (i + 1) utxos

  -- The comparison of the derived public key with the configured one, and the loop.
  unfoldable pub cosign_with :
      (List ℕ → List ℕ)
      → MultisigSigner
      → Key
      → List ℕ
      → Tx
      → List SelectedUtxo
      → Result SignerError Tx
  cosign_with hash160 signer priv_key expected_pk tx inputs =
      if bytes_eq expected_pk (sdk.public_der priv_key)
      then cosign_each signer.multisig signer.local_key_index priv_key
          (to_script_bytes hash160 signer.multisig) 0 inputs tx
      else err (cannot_sign (public_key_differs signer.local_key_index))

  -- `&self.multisig.public_keys[local_idx]`: `none` is the panic.
  unfoldable pub cosign_at :
      (List ℕ → List ℕ)
      → MultisigSigner
      → Tx
      → List SelectedUtxo
      → Key
      → Option (Result SignerError Tx)
  cosign_at hash160 signer tx inputs priv_key =
      elim (get_elem? signer.multisig.public_keys signer.local_key_index) [
        | none ↦ none
        | some expected_pk ↦ some (cosign_with hash160 signer priv_key expected_pk tx inputs)
      ]

  -- The subpath is taken from the first input.
  unfoldable pub cosign_from_first :
      (List ℕ → List ℕ) → MultisigSigner → Tx → List SelectedUtxo → Option (Result SignerError Tx)
  cosign_from_first hash160 signer tx [] = some (err (cannot_sign no_inputs_to_sign))
  cosign_from_first hash160 signer tx (utxo ∷ utxos) =
      elim (derive_private_key signer.xprv utxo.subpath) [
        | err e ↦ some (err e)
        | ok priv_key ↦ cosign_at hash160 signer tx (utxo ∷ utxos) priv_key
      ]

  -- MultisigSigner::sign_tx
  unfoldable pub multisig_sign_tx :
      (List ℕ → List ℕ) → MultisigSigner → Tx → List SelectedUtxo → Option (Result SignerError Tx)
  multisig_sign_tx hash160 signer tx inputs = elim (checked signer.xprv tx inputs) [
    | err e ↦ some (err e)
    | ok u ↦ cosign_from_first hash160 signer tx inputs
  ]
