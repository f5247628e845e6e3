-- ===== src/OpReturn/Pushes.antt =====
-- extract_data_chunks reads back what push_item writes.
use electrum_sv_mc.Prelude.{ℕ, zero, suc, ◌/◌, ◌%◌, ◌^◌, ◌≤◌, ◌<◌, ◌≡◌, refl, ap, ◌∙◌}
use electrum_sv_mc.Prelude.{inl, inr, true, false, some}
use electrum_sv_mc.Prelude.{List, [], ◌∷◌, ◌++◌, arith, ltb, leb}
use electrum_sv_mc.Prelude.{Bool-cases}
use electrum_sv_mc.Prelude.{leb→le}
use electrum_sv_mc.Prelude.{length, All}
use electrum_sv_mc.Prelude.{length-append}
use electrum_sv_mc.Prelude.{take-length_append, drop-length_append}
use electrum_sv_mc.Multisig.{push_header, push_item}
use electrum_sv_mc.HeaderStore.Header.{from_le_bytes}
use mathlib.Core.List.{append_assoc}
use electrum_sv_mc.OpReturn.{push_of, sized_push, read_push, chunks_from, chunks_of}

-- OP_RETURN and one push for each chunk.
unfoldable pub pushes : List (List ℕ) → List ℕ
pushes [] = []
pushes (c ∷ chunks) = push_item c ++ pushes chunks

not_shorter : (c more : List ℕ) → ltb (length (c ++ more)) (length c) ≡ false
not_shorter c more = ground (arith, length-append c more)

push_of-append : (c more : List ℕ) → push_of (length c) (c ++ more) ≡ some (some c, more)
unfolding push_of
push_of-append c more =
    rw (not_shorter c more, take-length_append c more, drop-length_append c more) refl

sized_push-append :
    (len c more : List ℕ)
    → from_le_bytes len ≡ length c
    → sized_push (length len) (len ++ (c ++ more)) ≡ some (some c, more)
unfolding sized_push
sized_push-append len c more h =
    rw
      (
        not_shorter len (c ++ more),
        take-length_append len (c ++ more),
        drop-length_append len (c ++ more),
        h,
      )
      (push_of-append c more)

read_push-direct :
    (opcode : ℕ) (rest : List ℕ)
    → 1 ≤ opcode
    → opcode ≤ 75
    → read_push opcode rest ≡ push_of opcode rest
unfolding read_push
read_push-direct opcode rest l u = ground (arith, l, u)

push_header-small : (n : ℕ) → leb n 75 ≡ true → push_header n ≡ n ∷ []
unfolding push_header
push_header-small n s = rw (s) refl

length-push_item : (c : List ℕ) → 1 ≤ length (push_item c)
unfolding push_item push_header
length-push_item c = rw (length-append (push_header (length c)) c) (ground arith)

-- What a round of the loop reads of a push.
abbrev pub IsRead : List ℕ → List ℕ → List ℕ → Type 0
IsRead c more script =
    (opcode : ℕ) × ((rest : List ℕ) × ((script ≡ opcode ∷ rest)
        × (read_push opcode rest ≡ some (some c, more))))

-- A push with its length in a field of some bytes after the opcode.
IsRead-sized :
    (opcode : ℕ) (len c more : List ℕ)
    → push_header (length c) ≡ opcode ∷ len
    → from_le_bytes len ≡ length c
    → ((rest : List ℕ) → read_push opcode rest ≡ sized_push (length len) rest)
    → IsRead c more (push_item c ++ more)
unfolding push_item
IsRead-sized opcode len c more h v r = (
  opcode,
  (
    len ++ (c ++ more),
    (rw (h, append_assoc len c more) refl, r (len ++ (c ++ more)) ∙ sized_push-append len c more v),
  ),
)

IsRead-push_item : (c more : List ℕ) → length c < 2 ^ 32 → IsRead c more (push_item c ++ more)
unfolding push_item push_header from_le_bytes read_push
IsRead-push_item [] more h = (0, (more, (refl, refl)))
IsRead-push_item (x ∷ c) more h = elim (Bool-cases (leb (length (x ∷ c)) 75)) [
  | inl s ↦ (
    length (x ∷ c),
    (
      (x ∷ c) ++ more,
      (
        ap (λ header. (header ++ (x ∷ c)) ++ more) (push_header-small (length (x ∷ c)) s),
        read_push-direct (length (x ∷ c)) ((x ∷ c) ++ more) (omega arith) (leb→le _ _ s)
            ∙ push_of-append (x ∷ c) more,
      ),
    ),
  )
  | inr s ↦ elim (Bool-cases (leb (length (x ∷ c)) 255)) [
    | inl t ↦
        IsRead-sized 76 (length (x ∷ c) ∷ []) (x ∷ c) more (ground (arith, s, t)) (ground arith)
          (λ rest. refl)
    | inr t ↦ elim (Bool-cases (leb (length (x ∷ c)) 65535)) [
      | inl w ↦
          IsRead-sized 77 (length (x ∷ c) % 256 ∷ length (x ∷ c) / 256 % 256 ∷ []) (x ∷ c) more
            (ground (arith, s, t, w)) (ground (arith, w)) (λ rest. refl)
      | inr w ↦
          IsRead-sized 78
            (length (x ∷ c) % 256
              ∷ length (x ∷ c) / 256 % 256
              ∷ length (x ∷ c) / 65536 % 256
              ∷ length (x ∷ c) / 16777216 % 256
              ∷ [])
            (x ∷ c) more (ground (arith, s, t, w)) (ground (arith, h)) (λ rest. refl)
    ]
  ]
]

-- The loop reads all pushes, with fuel for each byte.
chunks_from-pushes :
    (chunks : List (List ℕ)) (fuel : ℕ)
    → All (λ c. length c < 2 ^ 32) chunks
    → length (pushes chunks) ≤ fuel
    → chunks_from fuel (pushes chunks) ≡ chunks
unfolding pushes chunks_from
chunks_from-pushes [] zero small h = refl
chunks_from-pushes [] (suc fuel) small h = refl
chunks_from-pushes (c ∷ chunks) zero (s, small) h =
    let positive = length-push_item c in
    absurd (omega (arith, positive, h, length-append (push_item c) (pushes chunks)))
chunks_from-pushes (c ∷ chunks) (suc fuel) (s, small) h =
    let (opcode, (rest, (e, r))) = IsRead-push_item c (pushes chunks) s in
    let positive = length-push_item c in
    let enough : length (pushes chunks) ≤ fuel =
      omega (arith, positive, h, length-append (push_item c) (pushes chunks)) in
    ap (chunks_from (suc fuel)) e
    ∙ rw (r, chunks_from, chunks_from-pushes chunks fuel small enough) refl

-- The chunks of OP_RETURN followed by a push of each chunk are these chunks, where each is shorter than 2^32 bytes.
pub chunks_of-pushes :
    (chunks : List (List ℕ))
    → All (λ c. length c < 2 ^ 32) chunks
    → chunks_of (0x6A ∷ pushes chunks) ≡ chunks
unfolding chunks_of
chunks_of-pushes chunks small =
    chunks_from-pushes chunks (length (pushes chunks)) small (omega arith)
