-- ===== src/Multisig/Ripemd.antt =====
-- hash160 and ripemd160 of core/multisig.rs, as they stand there. SHA-256 is an argument.
use electrum_sv_mc.Prelude.{ℕ, zero, suc, ◌+◌, ◌-◌, ◌*◌, ◌/◌, ◌%◌, ◌^◌}
use electrum_sv_mc.Prelude.{none, some}
use electrum_sv_mc.Prelude.{List, [], ◌∷◌, ◌++◌, ltb, ◌==◌, if◌then◌else◌}
use electrum_sv_mc.Prelude.{length, get_elem?, take, drop}
use electrum_sv_mc.Prelude.Word.{wrap}
use electrum_sv_mc.Cache.Transactions.{and_bits, or_bits}
use electrum_sv_mc.HeaderStore.Header.{from_le_bytes, to_le_bytes}

abbrev pub word : ℕ → ℕ
word n = n % 2 ^ 32

-- `^` on so many bits.
unfoldable pub xor_bits : ℕ → ℕ → ℕ → ℕ
xor_bits zero a b = 0
xor_bits (suc n) a b = (a % 2 + b % 2) % 2 + 2 * xor_bits n (a / 2) (b / 2)

abbrev pub xor32 : ℕ → ℕ → ℕ
xor32 = xor_bits 32

abbrev pub and32 : ℕ → ℕ → ℕ
and32 = and_bits 32

abbrev pub or32 : ℕ → ℕ → ℕ
or32 = or_bits 32

abbrev pub not32 : ℕ → ℕ
not32 a = 2 ^ 32 - 1 - a

-- `rotate_left` of a word by less than 32 bits.
abbrev pub rotate_left : ℕ → ℕ → ℕ
rotate_left a s = word (a * 2 ^ s) + a / 2 ^ (32 - s)

-- An index that the tables keep in range.
abbrev pub entry : List ℕ → ℕ → ℕ
entry l i = elim (get_elem? l i) as (λ _. ℕ) [ none ↦ 0 | some n ↦ n ]

abbrev pub left_index : List ℕ
left_index =
    0 ∷ 1 ∷ 2 ∷ 3 ∷ 4 ∷ 5 ∷ 6 ∷ 7 ∷ 8 ∷ 9 ∷ 10 ∷ 11 ∷ 12 ∷ 13 ∷ 14 ∷ 15 ∷ 7 ∷ 4 ∷ 13 ∷ 1 ∷ 10 ∷ 6
    ∷ 15 ∷ 3 ∷ 12 ∷ 0 ∷ 9 ∷ 5 ∷ 2 ∷ 14 ∷ 11 ∷ 8 ∷ 3 ∷ 10 ∷ 14 ∷ 4 ∷ 9 ∷ 15 ∷ 8 ∷ 1 ∷ 2 ∷ 7 ∷ 0 ∷ 6
    ∷ 13 ∷ 11 ∷ 5 ∷ 12 ∷ 1 ∷ 9 ∷ 11 ∷ 10 ∷ 0 ∷ 8 ∷ 12 ∷ 4 ∷ 13 ∷ 3 ∷ 7 ∷ 15 ∷ 14 ∷ 5 ∷ 6 ∷ 2 ∷ 4 ∷ 0
    ∷ 5 ∷ 9 ∷ 7 ∷ 12 ∷ 2 ∷ 10 ∷ 14 ∷ 1 ∷ 3 ∷ 8 ∷ 11 ∷ 6 ∷ 15 ∷ 13 ∷ []

abbrev pub left_shift : List ℕ
left_shift =
    5 ∷ 14 ∷ 7 ∷ 0 ∷ 9 ∷ 2 ∷ 11 ∷ 4 ∷ 13 ∷ 6 ∷ 15 ∷ 8 ∷ 1 ∷ 10 ∷ 3 ∷ 12 ∷ 5 ∷ 14 ∷ 7 ∷ 0 ∷ 9 ∷ 2
    ∷ 11 ∷ 4 ∷ 13 ∷ 6 ∷ 15 ∷ 8 ∷ 1 ∷ 10 ∷ 3 ∷ 12 ∷ 5 ∷ 14 ∷ 7 ∷ 0 ∷ 9 ∷ 2 ∷ 11 ∷ 4 ∷ 13 ∷ 6 ∷ 15 ∷ 8
    ∷ 1 ∷ 10 ∷ 3 ∷ 12 ∷ 5 ∷ 14 ∷ 7 ∷ 0 ∷ 9 ∷ 2 ∷ 11 ∷ 4 ∷ 13 ∷ 6 ∷ 15 ∷ 8 ∷ 1 ∷ 10 ∷ 3 ∷ 12 ∷ 5 ∷ 14
    ∷ 7 ∷ 0 ∷ 9 ∷ 2 ∷ 11 ∷ 4 ∷ 13 ∷ 6 ∷ 15 ∷ 8 ∷ 1 ∷ 10 ∷ 3 ∷ 12 ∷ []

abbrev pub right_index : List ℕ
right_index =
    5 ∷ 14 ∷ 7 ∷ 0 ∷ 9 ∷ 2 ∷ 11 ∷ 4 ∷ 13 ∷ 6 ∷ 15 ∷ 8 ∷ 1 ∷ 10 ∷ 3 ∷ 12 ∷ 6 ∷ 11 ∷ 3 ∷ 7 ∷ 0 ∷ 13
    ∷ 5 ∷ 10 ∷ 14 ∷ 15 ∷ 8 ∷ 12 ∷ 4 ∷ 9 ∷ 1 ∷ 2 ∷ 15 ∷ 5 ∷ 1 ∷ 3 ∷ 7 ∷ 14 ∷ 6 ∷ 9 ∷ 11 ∷ 8 ∷ 12 ∷ 2
    ∷ 10 ∷ 0 ∷ 4 ∷ 13 ∷ 8 ∷ 6 ∷ 4 ∷ 1 ∷ 3 ∷ 11 ∷ 15 ∷ 0 ∷ 5 ∷ 12 ∷ 2 ∷ 13 ∷ 9 ∷ 7 ∷ 10 ∷ 14 ∷ 12
    ∷ 15 ∷ 10 ∷ 4 ∷ 1 ∷ 5 ∷ 8 ∷ 7 ∷ 6 ∷ 2 ∷ 13 ∷ 14 ∷ 0 ∷ 3 ∷ 9 ∷ 11 ∷ []

abbrev pub right_shift : List ℕ
right_shift =
    11 ∷ 14 ∷ 15 ∷ 12 ∷ 5 ∷ 8 ∷ 7 ∷ 9 ∷ 11 ∷ 13 ∷ 14 ∷ 15 ∷ 6 ∷ 7 ∷ 9 ∷ 8 ∷ 7 ∷ 6 ∷ 8 ∷ 13 ∷ 11 ∷ 9
    ∷ 7 ∷ 15 ∷ 7 ∷ 12 ∷ 15 ∷ 9 ∷ 11 ∷ 7 ∷ 13 ∷ 12 ∷ 11 ∷ 13 ∷ 6 ∷ 7 ∷ 14 ∷ 9 ∷ 13 ∷ 15 ∷ 14 ∷ 8 ∷ 13
    ∷ 6 ∷ 5 ∷ 12 ∷ 7 ∷ 5 ∷ 11 ∷ 12 ∷ 14 ∷ 15 ∷ 14 ∷ 15 ∷ 9 ∷ 8 ∷ 9 ∷ 14 ∷ 5 ∷ 6 ∷ 8 ∷ 6 ∷ 5 ∷ 12 ∷ 9
    ∷ 15 ∷ 5 ∷ 11 ∷ 6 ∷ 8 ∷ 13 ∷ 12 ∷ 5 ∷ 12 ∷ 13 ∷ 14 ∷ 11 ∷ 8 ∷ 5 ∷ 6 ∷ []

-- The five words of a line.
pub record Line : Type 0 where
  pub a : ℕ
  pub b : ℕ
  pub c : ℕ
  pub d : ℕ
  pub e : ℕ

-- The function and the constant of a group of sixteen rounds.
unfoldable pub left_mix : ℕ → ℕ → ℕ → ℕ → ℕ × ℕ
left_mix group b c d =
    if group == 0
    then (xor32 (xor32 b c) d, 0)
    else if group == 1
    then (or32 (and32 b c) (and32 (not32 b) d), 0x5A827999)
    else if group == 2
    then (xor32 (or32 b (not32 c)) d, 0x6ED9EBA1)
    else if group == 3
    then (or32 (and32 b d) (and32 c (not32 d)), 0x8F1BBCDC)
    else (xor32 b (or32 c (not32 d)), 0xA953FD4E)

unfoldable pub right_mix : ℕ → ℕ → ℕ → ℕ → ℕ × ℕ
right_mix group b c d =
    if group == 0
    then (xor32 b (or32 c (not32 d)), 0x50A28BE6)
    else if group == 1
    then (or32 (and32 b c) (and32 (not32 b) d), 0x5C4DD124)
    else if group == 2
    then (xor32 (or32 b (not32 c)) d, 0x6D703EF3)
    else if group == 3
    then (or32 (and32 b d) (and32 c (not32 d)), 0x7A6D76E9)
    else (xor32 (xor32 b c) d, 0)

unfoldable pub turn : ℕ × ℕ → ℕ → ℕ → Line → Line
turn mix x s l =
    let t = word (rotate_left (word (mix.0 + l.a + mix.1 + x)) s + l.e) in
    record { a = l.e; b = t; c = l.b; d = rotate_left l.c 10; e = l.d }

-- Round `j` of both lines.
unfoldable pub round : List ℕ → ℕ → Line × Line → Line × Line
round x j lines =
    let l = lines.0 in
    let r = lines.1 in
    (
      turn (left_mix (j / 16) l.b l.c l.d) (entry x (entry left_index j)) (entry left_shift j) l,
      turn (right_mix (j / 16) r.b r.c r.d) (entry x (entry right_index j)) (entry right_shift j) r,
    )

-- `for j in 0..80`
unfoldable pub rounds : List ℕ → ℕ → Line × Line → Line × Line
rounds x zero lines = lines
rounds x (suc left) lines = rounds x left (round x (80 - suc left) lines)

-- A chunk of 64 bytes as sixteen words.
unfoldable pub words_of : ℕ → List ℕ → List ℕ
words_of zero chunk = []
words_of (suc n) chunk = from_le_bytes (take 4 chunk) ∷ words_of n (drop 4 chunk)

-- The state after a chunk; its words are those of `h`.
unfoldable pub compress : Line → List ℕ → Line
compress h chunk =
    let lines = rounds (words_of 16 chunk) 80 (h, h) in
    let l = lines.0 in
    let r = lines.1 in
    record {
      a = word (h.b + l.c + r.d);
      b = word (h.c + l.d + r.e);
      c = word (h.d + l.e + r.a);
      d = word (h.e + l.a + r.b);
      e = word (h.a + l.b + r.c);
    }

-- `chunks_exact(64)`: a shorter rest is left out.
unfoldable pub compress_all : ℕ → Line → List ℕ → Line
compress_all zero h msg = h
compress_all (suc fuel) h msg =
    let rest = compress_all fuel (compress h (take 64 msg)) (drop 64 msg) in
    if ltb (length msg) 64 then h else rest

-- `while msg.len() % 64 != 56 { msg.push(0); }`, at most 63 rounds.
unfoldable pub pad : ℕ → List ℕ → List ℕ
pad zero msg = msg
pad (suc fuel) msg =
    let more = pad fuel (msg ++ (0 ∷ [])) in if length msg % 64 == 56 then msg else more

unfoldable pub padded : List ℕ → List ℕ
padded bytes =
    let bit_len = wrap (length bytes * 8) in
    pad 63 (bytes ++ (0x80 ∷ [])) ++ (to_le_bytes bit_len ++ to_le_bytes (bit_len / 2 ^ 32))

abbrev pub initial : Line
initial = record { a = 0x67452301; b = 0xEFCDAB89; c = 0x98BADCFE; d = 0x10325476; e = 0xC3D2E1F0 }

unfoldable pub ripemd160 : List ℕ → List ℕ
ripemd160 bytes =
    let msg = padded bytes in
    let h = compress_all (length msg) initial msg in
    to_le_bytes h.a
    ++ (to_le_bytes h.b ++ (to_le_bytes h.c ++ (to_le_bytes h.d ++ to_le_bytes h.e)))

unfoldable pub hash160 : (List ℕ → List ℕ) → List ℕ → List ℕ
hash160 sha256 bytes = ripemd160 (sha256 bytes)
