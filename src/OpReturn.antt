-- ===== src/OpReturn.antt =====
-- features/op_return_decode.rs: the data chunks of an OP_RETURN script, and the protocols they belong to. Hex
-- coding and lossy UTF-8 decoding are arguments.
pub mod Pushes
use electrum_sv_mc.Prelude.{
  ℕ, zero, suc, ◌+◌, ◌-◌, ◌*◌, ◌/◌, ◌%◌, ◌^◌, ◌≤◌, ◌<◌, ◌≡◌, refl, sym, ap, ◌∙◌,
}
use electrum_sv_mc.Prelude.{
  ◌≢◌, ◌↔◌, ◌⊎◌, inl, inr, Bool, true, false, ◌&&◌, ◌||◌, not, Option, none, some,
}
use electrum_sv_mc.Prelude.{List, [], ◌∷◌, ◌++◌, map, arith, ltb, leb, ◌==◌, if◌then◌else◌}
use electrum_sv_mc.Prelude.{
  Result, ok, err, ◌>>=◌, ok_or, Result-cases, >>=-eq-ok, Bool-cases, Option-cases, if-elim,
}
use electrum_sv_mc.Prelude.{ltb→lt, lt→ltb, leb→le, le→leb, ltb-false, leb-false, ==_iff}
use electrum_sv_mc.Prelude.{length, get_elem?, set, take, drop, replicate, sum_of, All}
use electrum_sv_mc.Prelude.{
  length-append, sum_of-append, take-append-drop, length-take, length-drop, sum_of-take_le,
}
use electrum_sv_mc.Prelude.Word.{IsU64, wrap, wrap_small, checked_add}
use electrum_sv_mc.CoinChooser.Types.{Text}
use electrum_sv_mc.Prelude.Bytes.{bytes_eq}
use electrum_sv_mc.Prelude.Assoc.{insert}
use electrum_sv_mc.HeaderStore.Header.{from_le_bytes}
use electrum_sv_mc.HeaderStore.Merkle.{lower}
use Prim.Native.Nat.{min}

-- A push of so many bytes, if they are there: the chunk, and what follows it.
unfoldable pub push_of : ℕ → List ℕ → Option (Option (List ℕ) × List ℕ)
push_of data_len rest =
    if ltb (length rest) data_len
    then none
    else some (some (take data_len rest), drop data_len rest)

-- A push with its length in `width` bytes.
unfoldable pub sized_push : ℕ → List ℕ → Option (Option (List ℕ) × List ℕ)
sized_push width rest =
    if ltb (length rest) width
    then none
    else push_of (from_le_bytes (take width rest)) (drop width rest)

-- One round of the loop, at an opcode: `none` is the `break`, and a skipped opcode gives no chunk.
unfoldable pub read_push : ℕ → List ℕ → Option (Option (List ℕ) × List ℕ)
read_push opcode rest =
    if leb 1 opcode && leb opcode 75
    then push_of opcode rest
    else if opcode == 76
    then sized_push 1 rest
    else if opcode == 77
    then sized_push 2 rest
    else if opcode == 78
    then sized_push 4 rest
    else if opcode == 0
    then some (some [], rest)
    else some (none, rest)

abbrev pub with_chunk : Option (List ℕ) → List (List ℕ) → List (List ℕ)
with_chunk none chunks = chunks
with_chunk (some chunk) chunks = chunk ∷ chunks

-- `while i < len { … }`: a round consumes at least a byte.
unfoldable pub chunks_from : ℕ → List ℕ → List (List ℕ)
chunks_from zero rest = []
chunks_from (suc fuel) [] = []
chunks_from (suc fuel) (opcode ∷ rest) = elim (read_push opcode rest) [
  | none ↦ []
  | some r ↦ with_chunk (r.0) (chunks_from fuel (r.1))
]

abbrev pub op_return : ℕ
op_return = 0x6A

-- `extract_data_chunks`, of the decoded script.
unfoldable pub chunks_of : List ℕ → List (List ℕ)
chunks_of [] = []
chunks_of (first ∷ rest) = if first == op_return then chunks_from (length rest) rest else []

abbrev pub starts_op_return : List ℕ → Bool
starts_op_return [] = false
starts_op_return (first ∷ rest) = first == op_return

pub data Protocol : Type 0 where
  b_protocol map_protocol bcat bap e21 : Protocol

-- 19HxigV4QyBv3tHpQVcUEQyq1pzZVdoAut
abbrev pub b_prefix : List ℕ
b_prefix =
    49 ∷ 57 ∷ 72 ∷ 120 ∷ 105 ∷ 103 ∷ 86 ∷ 52 ∷ 81 ∷ 121 ∷ 66 ∷ 118 ∷ 51 ∷ 116 ∷ 72 ∷ 112 ∷ 81 ∷ 86
    ∷ 99 ∷ 85 ∷ 69 ∷ 81 ∷ 121 ∷ 113 ∷ 49 ∷ 112 ∷ 122 ∷ 90 ∷ 86 ∷ 100 ∷ 111 ∷ 65 ∷ 117 ∷ 116 ∷ []

-- 1PuQa7K62MiKCtssSLKy1kh56WWU7MURt
abbrev pub map_prefix : List ℕ
map_prefix =
    49 ∷ 80 ∷ 117 ∷ 81 ∷ 97 ∷ 55 ∷ 75 ∷ 54 ∷ 50 ∷ 77 ∷ 105 ∷ 75 ∷ 67 ∷ 116 ∷ 115 ∷ 115 ∷ 83 ∷ 76
    ∷ 75 ∷ 121 ∷ 49 ∷ 107 ∷ 104 ∷ 53 ∷ 54 ∷ 87 ∷ 87 ∷ 85 ∷ 55 ∷ 77 ∷ 85 ∷ 82 ∷ 116 ∷ []

-- 15DHFxWZJT58f9nhyGnsRBqrgwK4W6h4Up
abbrev pub bcat_prefix : List ℕ
bcat_prefix =
    49 ∷ 53 ∷ 68 ∷ 72 ∷ 70 ∷ 120 ∷ 87 ∷ 90 ∷ 74 ∷ 84 ∷ 53 ∷ 56 ∷ 102 ∷ 57 ∷ 110 ∷ 104 ∷ 121 ∷ 71
    ∷ 110 ∷ 115 ∷ 82 ∷ 66 ∷ 113 ∷ 114 ∷ 103 ∷ 119 ∷ 75 ∷ 52 ∷ 87 ∷ 54 ∷ 104 ∷ 52 ∷ 85 ∷ 112 ∷ []

-- 1BAP
abbrev pub bap_prefix : List ℕ
bap_prefix = 49 ∷ 66 ∷ 65 ∷ 80 ∷ []

-- 21E8
abbrev pub e21_prefix : List ℕ
e21_prefix = 50 ∷ 49 ∷ 69 ∷ 56 ∷ []

abbrev pub prefixes : List (List ℕ × Protocol)
prefixes =
    (b_prefix, b_protocol)
    ∷ (map_prefix, map_protocol)
    ∷ (bcat_prefix, bcat)
    ∷ (bap_prefix, bap)
    ∷ (e21_prefix, e21)
    ∷ []

-- `starts_with`
unfoldable pub starts_with : List ℕ → List ℕ → Bool
starts_with text [] = true
starts_with [] (p ∷ prefix) = false
starts_with (x ∷ text) (p ∷ prefix) = x == p && starts_with text prefix

-- The first prefix that passes a test against the lower-case chunk.
unfoldable pub first_match :
    (List ℕ → List ℕ → Bool) → List ℕ → List (List ℕ × Protocol) → Option Protocol
first_match test first [] = none
first_match test first (p ∷ rest) =
    let later = first_match test first rest in
    if test (map lower first) (map lower (p.0)) then some (p.1) else later

unfoldable pub match_protocol : List ℕ → Option Protocol
match_protocol [] = none
match_protocol (x ∷ first) = elim (first_match bytes_eq (x ∷ first) prefixes) [
  | some id ↦ some id
  | none ↦ first_match starts_with (x ∷ first) prefixes
]

-- The JSON values of the decoders.
pub data OpReturnData : Type 0 where
  b_file : Text → Text → Text → Text → OpReturnData
  attributes : List (Text × Text) → OpReturnData
  bcat_file : Text → Text → Text → List Text → OpReturnData
  pow : List Text → OpReturnData
  attestation : Text → Text → OpReturnData

module _ (encode : List ℕ → Text) (lossy : List ℕ → Text) where
  -- `chunks.get(i).map(…).unwrap_or_default()`
  abbrev pub get_text : List (List ℕ) → ℕ → Text
  get_text chunks i = elim (get_elem? chunks i) [ none ↦ [] | some c ↦ lossy c ]

  abbrev pub get_hex : List (List ℕ) → ℕ → Text
  get_hex chunks i = elim (get_elem? chunks i) [ none ↦ [] | some c ↦ encode c ]

  unfoldable pub decode_b : List (List ℕ) → OpReturnData
  decode_b chunks =
      b_file (get_hex chunks 1) (get_text chunks 2) (get_text chunks 3) (get_text chunks 4)

  -- Keys and values in turn, from the second chunk on; a key at the end has an empty value.
  unfoldable pub map_pairs : List (Text × Text) → List (List ℕ) → List (Text × Text)
  map_pairs pairs [] = pairs
  map_pairs pairs (key ∷ []) = insert (lossy key) [] pairs
  map_pairs pairs (key ∷ value ∷ rest) = map_pairs (insert (lossy key) (lossy value) pairs) rest

  unfoldable pub decode_map : List (List ℕ) → OpReturnData
  decode_map chunks = attributes (map_pairs [] (drop 1 chunks))

  -- `.filter(|s| !s.is_empty())`
  unfoldable pub non_empty : List Text → List Text
  non_empty [] = []
  non_empty ([] ∷ rest) = non_empty rest
  non_empty ((c ∷ text) ∷ rest) = (c ∷ text) ∷ non_empty rest

  unfoldable pub decode_bcat : List (List ℕ) → OpReturnData
  decode_bcat chunks =
      let txid_start = if ltb 6 (length chunks) then 6 else 5 in
      bcat_file (get_text chunks 2) (get_text chunks 3) (get_text chunks 4)
        (non_empty (map encode (drop (min txid_start (length chunks)) chunks)))

  unfoldable pub decode_21e8 : List (List ℕ) → OpReturnData
  decode_21e8 chunks = pow (map encode (drop 1 chunks))

  unfoldable pub decode_bap : List (List ℕ) → OpReturnData
  decode_bap chunks = attestation (get_text chunks 1) (get_hex chunks 2)

  unfoldable pub decode_as : Protocol → List (List ℕ) → OpReturnData
  decode_as b_protocol chunks = decode_b chunks
  decode_as map_protocol chunks = decode_map chunks
  decode_as bcat chunks = decode_bcat chunks
  decode_as bap chunks = decode_bap chunks
  decode_as e21 chunks = decode_21e8 chunks

  module _ (decode : Text → Option (List ℕ)) where
    unfoldable pub is_op_return : Text → Bool
    is_op_return script_hex = elim (decode script_hex) [
      | none ↦ false
      | some script ↦ starts_op_return script
    ]

    unfoldable pub extract_data_chunks : Text → List (List ℕ)
    extract_data_chunks script_hex = elim (decode script_hex) [
      | none ↦ []
      | some script ↦ chunks_of script
    ]

    abbrev pub parse_chunks : List (List ℕ) → Option (Protocol × OpReturnData)
    parse_chunks [] = none
    parse_chunks (first ∷ chunks) = elim (match_protocol first) [
      | none ↦ none
      | some id ↦ some (id, decode_as id (first ∷ chunks))
    ]

    unfoldable pub parse_op_return : Text → Option (Protocol × OpReturnData)
    parse_op_return script_hex = parse_chunks (extract_data_chunks script_hex)
