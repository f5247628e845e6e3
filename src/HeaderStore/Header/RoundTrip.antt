-- ===== src/HeaderStore/Header/RoundTrip.antt =====
-- `ParsedHeader::from_raw` and `to_raw` of network/header_store.rs are inverse to each other.
use electrum_sv_mc.Prelude.{ℕ, zero, suc, ◌+◌, ◌*◌, ◌/◌, ◌%◌, ◌≤◌, ◌≡◌, refl, ap}
use electrum_sv_mc.Prelude.{Option, some}
use electrum_sv_mc.Prelude.{List, [], ◌∷◌, ◌++◌, arith}
use electrum_sv_mc.Prelude.{ok}
use electrum_sv_mc.Prelude.{==_iff}
use electrum_sv_mc.Prelude.{length, take, drop}
use electrum_sv_mc.Prelude.{take-append-drop, length-take, length-drop}
use electrum_sv_mc.CoinChooser.Types.{Text}
use mathlib.Core.List.{reverse, reverse-reverse}
use electrum_sv_mc.HeaderStore.Header.{ParsedHeader, from_raw, to_raw, slice, header_hash_display}
use electrum_sv_mc.HeaderStore.Header.{from_le_bytes, to_le_bytes}
use electrum_sv_mc.HeaderStore.Header.Target.{AreBytes}

four_bytes : (l : List ℕ) → length l ≡ 4 → AreBytes l → to_le_bytes (from_le_bytes l) ≡ l
unfolding to_le_bytes from_le_bytes
four_bytes (a ∷ b ∷ c ∷ d ∷ []) e (ha, (hb, (hc, (hd, _)))) =
    let n = a + 256 * (b + 256 * (c + 256 * (d + 256 * 0))) in
    let e0 : n % 256 ≡ a = omega arith in
    let e1 : n / 256 % 256 ≡ b = omega arith in
    let e2 : n / 65536 % 256 ≡ c = omega arith in
    let e3 : n / 16777216 % 256 ≡ d = omega arith in rw (e0, e1, e2, e3)
four_bytes [] e b = absurd (omega arith)
four_bytes (a ∷ []) e b = absurd (omega arith)
four_bytes (a ∷ b ∷ []) e _ = absurd (omega arith)
four_bytes (a ∷ b ∷ c ∷ []) e _ = absurd (omega arith)
four_bytes (a ∷ b ∷ c ∷ d ∷ x ∷ l) e _ = absurd (omega arith)

AreBytes-take : (n : ℕ) (l : List ℕ) → AreBytes l → AreBytes (take n l)
AreBytes-take zero l b = tt
AreBytes-take (suc n) [] b = tt
AreBytes-take (suc n) (x ∷ l) (h, b) = (h, AreBytes-take n l b)

AreBytes-drop : (n : ℕ) (l : List ℕ) → AreBytes l → AreBytes (drop n l)
AreBytes-drop zero l b = b
AreBytes-drop (suc n) [] b = b
AreBytes-drop (suc n) (x ∷ l) (h, b) = AreBytes-drop n l b

word_back :
    (from : ℕ) (raw : List ℕ)
    → AreBytes raw
    → from + 4 ≤ length raw
    → to_le_bytes (from_le_bytes (take 4 (drop from raw))) ≡ take 4 (drop from raw)
word_back from raw b h =
    four_bytes (take 4 (drop from raw))
      (omega (arith, length-take 4 (drop from raw), length-drop from raw))
      (AreBytes-take 4 (drop from raw) (AreBytes-drop from raw b))

drop-drop : (m n : ℕ) (l : List ℕ) → drop m (drop n l) ≡ drop (n + m) l
drop-drop m zero l = let e : m ≡ 0 + m = omega arith in ap (λ (k : ℕ). drop k l) e
drop-drop zero (suc n) l = let e : suc n ≡ suc n + 0 = omega arith in ap (λ (k : ℕ). drop k l) e
drop-drop (suc m) (suc n) [] = let e : suc n + suc m ≡ suc (n + suc m) = omega arith in rw e
drop-drop (suc m) (suc n) (x ∷ l) =
    let e : suc n + suc m ≡ suc (n + suc m) = omega arith in rw e (drop-drop (suc m) n l)

-- One field of the header and what follows it.
field_then :
    (n from : ℕ) (raw : List ℕ) → take n (drop from raw) ++ drop (from + n) raw ≡ drop from raw
field_then n from raw = rw (← drop-drop n from raw) (take-append-drop n (drop from raw))

take_all : (n : ℕ) (l : List ℕ) → length l ≡ n → take n l ≡ l
take_all zero [] e = refl
take_all zero (x ∷ l) e = absurd (omega arith)
take_all (suc n) [] e = refl
take_all (suc n) (x ∷ l) e = ap (λ (k : List ℕ). x ∷ k) (take_all n l (omega arith))

six_fields :
    (raw : List ℕ)
    → length raw ≡ 80
    → take 4 raw
        ++ (take 32 (drop 4 raw)
            ++ (take 32 (drop 36 raw)
                ++ (take 4 (drop 68 raw) ++ (take 4 (drop 72 raw) ++ take 4 (drop 76 raw)))))
      ≡ raw
six_fields raw e =
    rw
      (
        take_all 4 (drop 76 raw) (omega (arith, length-drop 76 raw)),
        field_then 4 72 raw,
        field_then 4 68 raw,
        field_then 32 36 raw,
        field_then 32 4 raw,
      )
      (take-append-drop 4 raw)

-- What `from_raw` makes of 80 bytes.
abbrev parsed : (List ℕ → List ℕ) → (List ℕ → Text) → List ℕ → ℕ → ParsedHeader
parsed sha256 encode raw height = record {
  version = from_le_bytes (slice 0 4 raw);
  prev_hash = encode (reverse (slice 4 36 raw));
  merkle_root = encode (reverse (slice 36 68 raw));
  timestamp = from_le_bytes (slice 68 72 raw);
  bits = from_le_bytes (slice 72 76 raw);
  nonce = from_le_bytes (slice 76 80 raw);
  height = height;
  hash = header_hash_display sha256 encode raw;
}

-- Every 80 bytes parse, and serializing the parsed header gives them back, when decoding undoes encoding.
pub to_raw-from_raw :
    (sha256 : List ℕ → List ℕ) (encode : List ℕ → Text) (decode : Text → Option (List ℕ))
    → ((bytes : List ℕ) → decode (encode bytes) ≡ some bytes)
    → (raw : List ℕ) (height : ℕ) → AreBytes raw
    → length raw ≡ 80
    → (h : ParsedHeader) × (from_raw sha256 encode raw height ≡ ok h) × (to_raw decode h ≡ raw)
unfolding from_raw to_raw
to_raw-from_raw sha256 encode decode decode-encode raw height b e = (
  parsed sha256 encode raw height,
  rw ((==_iff (length raw) 80).1 e) refl,
  rw
      (
        decode-encode (reverse (take 32 (drop 4 raw))),
        decode-encode (reverse (take 32 (drop 36 raw))),
        reverse-reverse (take 32 (drop 4 raw)),
        reverse-reverse (take 32 (drop 36 raw)),
        word_back 0 raw b (omega arith),
        word_back 68 raw b (omega arith),
        word_back 72 raw b (omega arith),
        word_back 76 raw b (omega arith),
      )
      (six_fields raw e),
)
