-- ===== src/HeaderStore/Header/Target.antt =====
-- The number that `target_from_bits` of network/header_store.rs makes of the compact bits.
use electrum_sv_mc.Prelude.{
  ℕ, zero, suc, ◌+◌, ◌-◌, ◌*◌, ◌/◌, ◌%◌, ◌^◌, ◌≤◌, ◌<◌, ◌≡◌, refl, ap, ◌∙◌,
}
use electrum_sv_mc.Prelude.{◌⊎◌, inl, inr, ◌&&◌}
use electrum_sv_mc.Prelude.{List, [], ◌∷◌, ◌++◌, arith, ltb, leb, if◌then◌else◌}
use electrum_sv_mc.Prelude.{Bool-cases, if-elim}
use electrum_sv_mc.Prelude.{lt→ltb, leb→le, le→leb, leb-false}
use electrum_sv_mc.Prelude.{length, set, replicate, All}
use native.Mathlib.Omega.{pow_step}
use electrum_sv_mc.Prelude.Swap.{length-set}
use electrum_sv_mc.HeaderStore.Header.{mantissa_of, exponent_of, put, put_shifted, target_from_bits}

-- The number a big-endian sequence of bytes stands for.
unfoldable pub value_be : List ℕ → ℕ
value_be [] = 0
value_be (b ∷ rest) = b * 256 ^ length rest + value_be rest

abbrev pub AreBytes : List ℕ → Type 0
AreBytes = All (λ b. b < 256)

zeros_value : (n : ℕ) → value_be (replicate n 0) ≡ 0
unfolding value_be
zeros_value zero = refl
zeros_value (suc n) = omega (arith, zeros_value n)

padded_value : (n : ℕ) (l : List ℕ) → value_be (replicate n 0 ++ l) ≡ value_be l
unfolding value_be
padded_value zero l = refl
padded_value (suc n) l = omega (arith, padded_value n l)

length_zeros : (n : ℕ) → length {A = ℕ} (replicate n 0) ≡ n
length_zeros zero = refl
length_zeros (suc n) = ap suc (length_zeros n)

value_three :
    (a b c k : ℕ) → value_be (a ∷ b ∷ c ∷ replicate k 0) ≡ (a * 65536 + b * 256 + c) * 256 ^ k
unfolding value_be
value_three a b c k =
    let one : 256 ^ suc k ≡ 256 * 256 ^ k = pow_step 256 k in
    let two : 256 ^ suc (suc k) ≡ 65536 * 256 ^ k =
      omega (arith, pow_step 256 (suc k), pow_step 256 k) in
    rw (length_zeros k, zeros_value k, one, two) (grind arith)

three_set :
    (start n a b c : ℕ)
    → start + 3 ≤ n
    → set (set (set (replicate n 0) start a) (suc start) b) (suc (suc start)) c
      ≡ replicate start 0 ++ (a ∷ b ∷ c ∷ replicate (n - (start + 3)) 0)
three_set zero (suc (suc (suc n))) a b c h =
    let size : n ≡ suc (suc (suc n)) - (0 + 3) = omega arith in rw (← size)
three_set (suc start) (suc n) a b c h =
    let size : n - (start + 3) ≡ suc n - (suc start + 3) = omega arith in
    rw (← size) (ap (λ (l : List ℕ). 0 ∷ l) (three_set start n a b c (omega arith)))
three_set zero zero a b c h = absurd (omega arith)
three_set zero (suc zero) a b c h = absurd (omega arith)
three_set zero (suc (suc zero)) a b c h = absurd (omega arith)
three_set (suc start) zero a b c h = absurd (omega arith)

put_in : (i b : ℕ) (t : List ℕ) → i < 32 → put i b t ≡ set t i b
put_in i b t h = rw (lt→ltb i 32 h)

placed :
    (e a b c : ℕ)
    → 3 ≤ e
    → e ≤ 32
    → put (32 - e + 2) c (put (32 - e + 1) b (put (32 - e) a (replicate 32 0)))
      ≡ replicate (32 - e) 0 ++ (a ∷ b ∷ c ∷ replicate (e - 3) 0)
placed e a b c low high =
    let s = 32 - e in
    let one : s + 1 ≡ suc s = omega arith in
    let two : s + 2 ≡ suc (suc s) = omega arith in
    let size : 32 - (s + 3) ≡ e - 3 = omega arith in
    put_in (s + 2) c (put (s + 1) b (put s a (replicate 32 0))) (omega arith)
    ∙ ap (λ (l : List ℕ). set l (s + 2) c)
        (put_in (s + 1) b (put s a (replicate 32 0)) (omega arith)
          ∙ ap (λ (l : List ℕ). set l (s + 1) b) (put_in s a (replicate 32 0) (omega arith)))
    ∙ rw (one, two) (three_set s 32 a b c (omega arith) ∙ rw size)

-- The number that the compact bits stand for: the mantissa times 256 to the exponent less 3, rounded down.
unfoldable pub compact_value : ℕ → ℕ
compact_value bits =
    if leb 3 (exponent_of bits)
    then mantissa_of bits * 256 ^ (exponent_of bits - 3)
    else mantissa_of bits / 256 ^ (3 - exponent_of bits)

mantissa_bytes : (m : ℕ) → m < 8388608 → m / 65536 % 256 * 65536 + m / 256 % 256 * 256 + m % 256 ≡ m
mantissa_bytes m h = omega arith

large_target :
    (bits : ℕ)
    → 3 ≤ exponent_of bits
    → exponent_of bits ≤ 32
    → value_be (target_from_bits bits) ≡ compact_value bits
unfolding target_from_bits compact_value
large_target bits low high =
    let e = exponent_of bits in
    let m = mantissa_of bits in
    rw (le→leb 3 e low, le→leb e 32 high)
      (ap value_be (placed e (m / 65536 % 256) (m / 256 % 256) (m % 256) low high)
        ∙ padded_value (32 - e) _
        ∙ value_three (m / 65536 % 256) (m / 256 % 256) (m % 256) (e - 3)
        ∙ ap (λ (x : ℕ). x * 256 ^ (e - 3)) (mantissa_bytes m (omega arith)))

small_cases : (e : ℕ) → e < 3 → (e ≡ 0) ⊎ (e ≡ 1) ⊎ (e ≡ 2)
small_cases e h = ground arith

small_target :
    (bits : ℕ) → exponent_of bits < 3 → value_be (target_from_bits bits) ≡ compact_value bits
unfolding target_from_bits compact_value value_be
small_target bits low = elim (small_cases (exponent_of bits) low) [
  | inl e ↦ rw e (omega arith)
  | inr (inl e) ↦ rw e (omega arith)
  | inr (inr e) ↦ rw e (omega arith)
]

pub AreBytes-padded : (n : ℕ) (l : List ℕ) → AreBytes l → AreBytes (replicate n 0 ++ l)
AreBytes-padded zero l b = b
AreBytes-padded (suc n) l b = (omega arith, AreBytes-padded n l b)

pub AreBytes-zeros : (n : ℕ) → AreBytes (replicate n 0)
AreBytes-zeros zero = tt
AreBytes-zeros (suc n) = (omega arith, AreBytes-zeros n)

AreBytes-set : (l : List ℕ) (i b : ℕ) → AreBytes l → b < 256 → AreBytes (set l i b)
AreBytes-set [] i b bs h = tt
AreBytes-set (x ∷ l) zero b (hx, bs) h = (h, bs)
AreBytes-set (x ∷ l) (suc i) b (hx, bs) h = (hx, AreBytes-set l i b bs h)

abbrev pub Is32Bytes : List ℕ → Type 0
Is32Bytes l = (length l ≡ 32) × AreBytes l

Is32Bytes-put : (i b : ℕ) (l : List ℕ) → b < 256 → Is32Bytes l → Is32Bytes (put i b l)
Is32Bytes-put i b l h (n, bs) =
    if-elim Is32Bytes (ltb i 32) _ _ (λ _. (length-set l i b ∙ n, AreBytes-set l i b bs h))
      λ _. (n, bs)

Is32Bytes-put_shifted :
    (shift i b : ℕ) (l : List ℕ) → b < 256 → Is32Bytes l → Is32Bytes (put_shifted shift i b l)
Is32Bytes-put_shifted shift i b l h v =
    if-elim Is32Bytes (ltb (i + shift) 3) _ _ (λ _. Is32Bytes-put (29 + i + shift) b l h v) λ _. v

byte : (n : ℕ) → n % 256 < 256
byte n = omega arith

target_from_bits-Is32Bytes : (bits : ℕ) → Is32Bytes (target_from_bits bits)
unfolding target_from_bits
target_from_bits-Is32Bytes bits =
    let e = exponent_of bits in
    let m = mantissa_of bits in
    let t0 = put (32 - e) (m / 65536 % 256) (replicate 32 0) in
    let t1 = put (32 - e + 1) (m / 256 % 256) t0 in
    let s0 = put_shifted (3 - e) 0 (m / 65536 % 256) (replicate 32 0) in
    let s1 = put_shifted (3 - e) 1 (m / 256 % 256) s0 in
    let zeros : Is32Bytes (replicate 32 0) = (refl, AreBytes-zeros 32) in
    if-elim Is32Bytes (leb 3 e && leb e 32) _ _
      (λ _. Is32Bytes-put (32 - e + 2) (m % 256) t1 (byte m) (
        Is32Bytes-put (32 - e + 1) (m / 256 % 256) t0 (byte (m / 256))
          (Is32Bytes-put (32 - e) (m / 65536 % 256) (replicate 32 0) (byte (m / 65536)) zeros)))
      λ _.
        if-elim Is32Bytes (ltb e 3) _ _
          (λ _. Is32Bytes-put_shifted (3 - e) 2 (m % 256) s1 (byte m) (
            Is32Bytes-put_shifted (3 - e) 1 (m / 256 % 256) s0 (byte (m / 256)) (
              Is32Bytes-put_shifted (3 - e) 0 (m / 65536 % 256) (replicate 32 0) (byte (m / 65536))
                zeros)))
          λ _. zeros

over_target : (bits : ℕ) → 32 < exponent_of bits → target_from_bits bits ≡ replicate 32 0
unfolding target_from_bits
over_target bits h = ground arith

-- The 32 bytes of the target stand for the compact value, for an exponent of at most 32; above, they are 0.
pub target_from_bits_lem :
    (bits : ℕ)
    → (exponent_of bits ≤ 32 → value_be (target_from_bits bits) ≡ compact_value bits)
      × (32 < exponent_of bits → target_from_bits bits ≡ replicate 32 0)
      × Is32Bytes (target_from_bits bits)
target_from_bits_lem bits = (
  λ high. elim (Bool-cases (leb 3 (exponent_of bits))) [
    | inl t ↦ large_target bits (leb→le 3 (exponent_of bits) t) high
    | inr f ↦ small_target bits (leb-false 3 (exponent_of bits) f)
  ],
  over_target bits,
  target_from_bits-Is32Bytes bits,
)
