-- ===== src/Plans/Txid.antt =====
-- The txid that broadcast_tx returns.
use electrum_sv_mc.Prelude.{ℕ, ◌≡◌, refl, sym, ap, ◌∙◌}
use electrum_sv_mc.Prelude.{inl, inr, Bool, true, false}
use electrum_sv_mc.Prelude.{List, if◌then◌else◌}
use electrum_sv_mc.Prelude.{Result, ok, err, >>=-eq-ok, Bool-cases}
use electrum_sv_mc.Prelude.Bytes.{bytes_eq, bytes_eq_iff}
use electrum_sv_mc.CoinChooser.Types.{Text}
use electrum_sv_mc.Signer
use electrum_sv_mc.Plans.{CmdError}
use electrum_sv_mc.Plans.{sdk, invalid_hex, network}
use electrum_sv_mc.Plans.Broadcast.{Clients, broadcaster, broadcast_tx, send, confirm}
use electrum_sv_mc.Plans.Sign.{map_err-ok}

if_ok :
    {E A : Type 0} (b : Bool) (r : Result E A) (e : E) (a : A)
    → (if b then r else err e) ≡ ok a
    → (b ≡ true) × (r ≡ ok a)
if_ok true r e a h = (refl, h)
if_ok false r e a h = cc h

-- What the broadcaster answered to the bytes.
abbrev pub IsAccepted : (Text → Result Text (List ℕ)) → Clients → Text → Text → Type 0
IsAccepted decode clients signed_tx_hex txid =
    (backend : List ℕ → Result Text Text) × ((raw_bytes : List ℕ) × ((broadcaster clients
          ≡ ok backend)
        × ((decode signed_tx_hex ≡ ok raw_bytes) × (backend raw_bytes ≡ ok txid))))

module _ {Tx Key Xkey : Type 0} (api : Signer.Sdk Tx Key Xkey)
    (decode : Text → Result Text (List ℕ)) where
  confirm-ok :
      (local server txid : Text)
      → confirm api decode local server ≡ ok txid
      → (server ≡ local) × (txid ≡ local)
  unfolding confirm
  confirm-ok local server txid h = elim (Bool-cases (bytes_eq server local)) [
    | inl b ↦ let same = (bytes_eq_iff server local).0 b in (same, cc (rw (b, confirm) at h, same))
    | inr b ↦ cc (rw (b, confirm) at h)
  ]

  send-ok :
      (clients : Clients) (hex local txid : Text)
      → send api decode clients hex local ≡ ok txid
      → (txid ≡ local) × IsAccepted decode clients hex txid
  unfolding send
  send-ok clients hex local txid h =
      let (backend, e₁, h₁) = >>=-eq-ok (broadcaster clients) _ h in
      let (raw, e₂, h₂) = >>=-eq-ok (Signer.map_err invalid_hex (decode hex)) _ h₁ in
      let (server, e₃, h₃) = >>=-eq-ok (Signer.map_err network (backend raw)) _ h₂ in
      let (same, mine) = confirm-ok local server txid h₃ in
      (
        mine,
        (
          backend,
          (raw, (e₁, (map_err-ok _ _ _ e₂, map_err-ok _ _ _ e₃ ∙ ap ok (same ∙ sym mine)))),
        ),
      )

  -- A txid that broadcast_tx returns is the one that the caller expected, the SDK's txid of the transaction that
  -- the hex parses to, and the server's answer to the bytes of that hex.
  pub broadcast_tx-ok :
      (clients : Clients) (hex expected_txid txid : Text)
      → broadcast_tx api decode clients hex expected_txid ≡ ok txid
      → (txid ≡ expected_txid)
        × (((tx : Tx) × ((api.from_hex hex ≡ ok tx) × (api.tx_id tx ≡ ok txid)))
            × IsAccepted decode clients hex txid)
  unfolding broadcast_tx
  broadcast_tx-ok clients hex expected_txid txid h =
      let (tx, e₁, h₁) = >>=-eq-ok (Signer.map_err sdk (api.from_hex hex)) _ h in
      let (local, e₂, h₂) = >>=-eq-ok (Signer.map_err sdk (api.tx_id tx)) _ h₁ in
      let (same, sent) =
        if_ok (bytes_eq local expected_txid) _ (CmdError.local_mismatch local expected_txid) txid
          h₂ in
      let (mine, accepted) = send-ok clients hex local txid sent in
      (
        mine ∙ (bytes_eq_iff local expected_txid).0 same,
        ((tx, (map_err-ok _ _ _ e₁, map_err-ok _ _ _ e₂ ∙ ap ok (sym mine))), accepted),
      )
