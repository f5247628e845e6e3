-- ===== src/HeaderStore/Header/Pow.antt =====
-- `check_pow` of network/header_store.rs compares numbers.
use electrum_sv_mc.Prelude.{ℕ, suc, ◌+◌, ◌-◌, ◌*◌, ◌^◌, ◌≤◌, ◌<◌, ◌≡◌, sym, ◌∙◌}
use electrum_sv_mc.Prelude.{◌↔◌, true}
use electrum_sv_mc.Prelude.{List, [], ◌∷◌, arith}
use electrum_sv_mc.Prelude.{length}
use mathlib.Core.List.{reverse}
use mathlib.Core.Path.{subst}
use native.Mathlib.Omega.{pow_step}
use electrum_sv_mc.HeaderStore.Header.{
  bytes_lt, check_pow, hash256, target_from_bits, from_le_bytes, slice,
}
use electrum_sv_mc.HeaderStore.Header.{exponent_of}
use electrum_sv_mc.HeaderStore.Header.Target.{
  value_be, AreBytes, Is32Bytes, compact_value, target_from_bits_lem,
}

digit_lt : (x y p u v : ℕ) → x < y → u < p → x * p + u < y * p + v
digit_lt x y p u v h b =
    let d = y - suc x in
    let split : y ≡ x + 1 + d = omega arith in
    let product : (x + 1 + d) * p ≡ x * p + p + d * p = grind arith in
    rw split (omega (arith, product))

value_be_bound : (l : List ℕ) → AreBytes l → value_be l < 256 ^ length l
unfolding value_be
value_be_bound [] b = omega arith
value_be_bound (x ∷ l) (h, b) = omega (
  arith,
  pow_step 256 (length l),
  digit_lt x 256 (256 ^ length l) (value_be l) 0 h (value_be_bound l b),
)

-- The lexicographic order of byte strings of one length is that of the numbers they stand for.
pub bytes_lt_lem :
    (xs ys : List ℕ)
    → length xs ≡ length ys
    → AreBytes xs
    → AreBytes ys
    → (bytes_lt xs ys ≡ true) ↔ (value_be xs < value_be ys)
unfolding bytes_lt value_be
bytes_lt_lem [] [] e bx by = ground arith
bytes_lt_lem (x ∷ xs) (y ∷ ys) e (hx, bx) (hy, by) =
    let same : length xs ≡ length ys = omega arith in
    let p = 256 ^ length ys in
    let ux : value_be xs < p =
      subst (λ (n : ℕ). value_be xs < 256 ^ n) same (value_be_bound xs bx) in
    let uy = value_be_bound ys by in
    rw same (
      ground (
        arith,
        bytes_lt_lem xs ys same bx by,
        λ (h : x < y). digit_lt x y p (value_be xs) (value_be ys) h ux,
        λ (h : y < x). digit_lt y x p (value_be ys) (value_be xs) h uy,
      ))
bytes_lt_lem [] (y ∷ ys) e bx by = absurd (omega arith)
bytes_lt_lem (x ∷ xs) [] e bx by = absurd (omega arith)

-- If the double hash has 32 bytes, and the exponent of the compact bits is at most 32,
-- `check_pow` accepts exactly the 80 bytes whose double hash, read as a
-- little-endian number, is below the number the
-- compact bits stand for.
pub check_pow_lem :
    (sha256 : List ℕ → List ℕ) (raw : List ℕ)
    → Is32Bytes (reverse (hash256 sha256 raw))
    → exponent_of (from_le_bytes (slice 72 76 raw)) ≤ 32
    → (check_pow sha256 raw ≡ true) ↔ (
        (length raw ≡ 80)
        × (value_be (reverse (hash256 sha256 raw))
            < compact_value (from_le_bytes (slice 72 76 raw))))
unfolding check_pow
check_pow_lem sha256 raw (n, bytes) small =
    let bits = from_le_bytes (slice 72 76 raw) in
    let (value, over, (n', bytes')) = target_from_bits_lem bits in
    let order =
      bytes_lt_lem (reverse (hash256 sha256 raw)) (target_from_bits bits) (n ∙ sym n') bytes
        bytes' in
    ground (arith, order, value small)
