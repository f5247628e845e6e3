-- ===== src/Signer/Threshold.antt =====
-- The signer of accumulator outputs hands over one signing index, its own.
use electrum_sv_mc.Prelude.{ℕ, ◌+◌, ◌≡◌}
use electrum_sv_mc.Prelude.{◌≢◌, inl, inr, Option, some}
use electrum_sv_mc.Prelude.{List, [], ◌∷◌, ◌++◌, arith}
use electrum_sv_mc.Prelude.{ok, err, Result-cases, >>=-eq-ok, Bool-cases, Option-cases}
use electrum_sv_mc.Prelude.{lt→ltb}
use electrum_sv_mc.Prelude.{get_elem?}
use electrum_sv_mc.Prelude.Int.{pos}
use electrum_sv_mc.Transaction.Types.{SelectedUtxo}
use electrum_sv_mc.Multisig.{
  insufficient_signatures, AccumulatorMultiSigOutput, build_unlocking_script,
}
use electrum_sv_mc.Signer
use electrum_sv_mc.Prelude.Bytes.{bytes_eq}
use mathlib.Core.Option.{some-injective}

-- One index is fewer than a threshold of two or more.
pub build_unlocking_script-one_index :
    (multisig : AccumulatorMultiSigOutput) (i m : ℕ) (sigs keys : ℕ → Option (List ℕ))
    → multisig.threshold ≡ pos (m + 2)
    → build_unlocking_script multisig (i ∷ []) sigs keys ≡ err (insufficient_signatures 1 (m + 2))
unfolding build_unlocking_script
build_unlocking_script-one_index multisig i m sigs keys t = rw (t, lt→ltb 1 (m + 2) (omega arith))

module _ {Tx Key Xkey : Type 0} (sdk : Signer.Sdk Tx Key Xkey) (hash160 : List ℕ → List ℕ) where
  cosign_input-fails :
      (multisig : AccumulatorMultiSigOutput) (m i idx : ℕ) (key : Key) (script : List ℕ)
      (u : SelectedUtxo) (tx tx' : Tx)
      → multisig.threshold ≡ pos (m + 2)
      → Signer.cosign_input sdk multisig idx key script i u tx ≢ ok tx'
  unfolding Signer.cosign_input
  cosign_input-fails multisig m i idx key script u tx tx' t e =
      let (preimage, e₁, h₁) =
        >>=-eq-ok
          (Signer.map_err (λ e. Signer.bsv_sdk (Signer.sdk_text e))
            (sdk.sighash_preimage tx i Signer.sighash_type u.satoshis script))
          _ e in
      let (sig, e₂, h₂) =
        >>=-eq-ok
          (Signer.map_err (λ e. Signer.signing_failed (Signer.sdk_text e))
            (sdk.sign_hash key (sdk.hash256 preimage)))
          _ h₁ in
      cc (
        rw
          (build_unlocking_script-one_index multisig idx m
            (Signer.only idx (sig ++ (Signer.sighash_type ∷ [])))
            (Signer.only idx (sdk.public_der key)) t)
          at h₂)

  cosign_one-fails :
      (multisig : AccumulatorMultiSigOutput) (m i idx : ℕ) (key : Key) (script : List ℕ)
      (u : SelectedUtxo) (tx tx' : Tx)
      → multisig.threshold ≡ pos (m + 2)
      → Signer.cosign_one sdk multisig idx key script i u tx ≢ ok tx'
  unfolding Signer.cosign_one
  cosign_one-fails multisig m i idx key script u tx tx' t e =
      elim (Option-cases (sdk.source_txid tx i)) [
        | inl n ↦ cc (rw (n, Signer.cosign_one) at e)
        | inr (txid, n) ↦
            cosign_input-fails multisig m i idx key script u tx tx' t
              (rw (n, Signer.cosign_one) at e)
      ]

  cosign_each-fails :
      (multisig : AccumulatorMultiSigOutput) (m i idx : ℕ) (key : Key) (script : List ℕ)
      (u : SelectedUtxo) (us : List SelectedUtxo) (tx tx' : Tx)
      → multisig.threshold ≡ pos (m + 2)
      → Signer.cosign_each sdk multisig idx key script i (u ∷ us) tx ≢ ok tx'
  unfolding Signer.cosign_each
  cosign_each-fails multisig m i idx key script u us tx tx' t e =
      let (tx₁, e₁, h₁) = >>=-eq-ok (Signer.cosign_one sdk multisig idx key script i u tx) _ e in
      cosign_one-fails multisig m i idx key script u tx tx₁ t e₁

  cosign_with-fails :
      (signer : Signer.MultisigSigner) (m : ℕ) (key : Key) (pk : List ℕ) (u : SelectedUtxo)
      (us : List SelectedUtxo) (tx tx' : Tx)
      → signer.multisig.threshold ≡ pos (m + 2)
      → Signer.cosign_with sdk hash160 signer key pk tx (u ∷ us) ≢ ok tx'
  unfolding Signer.cosign_with
  cosign_with-fails signer m key pk u us tx tx' t e =
      elim (Bool-cases (bytes_eq pk (sdk.public_der key))) [
        | inl b ↦
            cosign_each-fails signer.multisig m 0 signer.local_key_index key _ u us tx tx' t
              (rw b at e)
        | inr b ↦ cc (rw b at e)
      ]

  cosign_at-fails :
      (signer : Signer.MultisigSigner) (m : ℕ) (key : Key) (u : SelectedUtxo)
      (us : List SelectedUtxo) (tx tx' : Tx)
      → signer.multisig.threshold ≡ pos (m + 2)
      → Signer.cosign_at sdk hash160 signer tx (u ∷ us) key ≢ some (ok tx')
  unfolding Signer.cosign_at
  cosign_at-fails signer m key u us tx tx' t e =
      elim (Option-cases (get_elem? signer.multisig.public_keys signer.local_key_index)) [
        | inl n ↦ cc (rw (n, Signer.cosign_at) at e)
        | inr (pk, n) ↦
            cosign_with-fails signer m key pk u us tx tx' t
              (some-injective _ _ (rw (n, Signer.cosign_at) at e))
      ]

  cosign_from_first-fails :
      (signer : Signer.MultisigSigner) (m : ℕ) (inputs : List SelectedUtxo) (tx tx' : Tx)
      → signer.multisig.threshold ≡ pos (m + 2)
      → Signer.cosign_from_first sdk hash160 signer tx inputs ≢ some (ok tx')
  unfolding Signer.cosign_from_first
  cosign_from_first-fails signer m [] tx tx' t e = cc e
  cosign_from_first-fails signer m (u ∷ us) tx tx' t e =
      elim (Result-cases (Signer.derive_private_key sdk signer.xprv u.subpath)) [
        | inl (key, n) ↦
            cosign_at-fails signer m key u us tx tx' t (rw (n, Signer.cosign_from_first) at e)
        | inr (x, n) ↦ cc (rw (n, Signer.cosign_from_first) at e)
      ]

  -- With a threshold of two or more, the signer of accumulator outputs signs no transaction, whatever its
  -- inputs, the keys and the SDK.
  pub multisig_sign_tx-fails :
      (signer : Signer.MultisigSigner) (m : ℕ) (tx tx' : Tx) (inputs : List SelectedUtxo)
      → signer.multisig.threshold ≡ pos (m + 2)
      → Signer.multisig_sign_tx sdk hash160 signer tx inputs ≢ some (ok tx')
  unfolding Signer.multisig_sign_tx
  multisig_sign_tx-fails signer m tx tx' inputs t e =
      elim (Result-cases (Signer.checked sdk signer.xprv tx inputs)) [
        | inl (u, n) ↦
            cosign_from_first-fails signer m inputs tx tx' t (rw (n, Signer.multisig_sign_tx) at e)
        | inr (x, n) ↦ cc (rw (n, Signer.multisig_sign_tx) at e)
      ]
