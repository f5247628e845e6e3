-- ===== src/Examples/Store.antt =====
-- Runs of the cache, db/cache.rs, and of the headers, network/header_store.rs.
use electrum_sv_mc.Prelude.{ℕ, ◌≤◌, ◌<◌, ◌≡◌, refl}
use electrum_sv_mc.Prelude.{◌≢◌, ◌↔◌, ◌⊎◌, inl, true, Option, none, some}
use electrum_sv_mc.Prelude.{List, [], ◌∷◌, ◌++◌, map, arith}
use electrum_sv_mc.Prelude.{ok}
use electrum_sv_mc.Prelude.{length, drop, replicate}
use electrum_sv_mc.CoinChooser.Types.{Text}
use electrum_sv_mc.Prelude.Assoc.{IsMap, lookup}
use electrum_sv_mc.Cache.Lru.{LruCache, set_bytes, get, set_max_size}
use electrum_sv_mc.Cache.Lru.Laws.{IsValid, find, bytes_total}
use electrum_sv_mc.Cache.Lru.Order.{before_eviction, set_bytes-IsValid, set_max_size-IsValid}
use electrum_sv_mc.Cache.Lru.Found.{IsGot, find-set_bytes, get_lem}
use electrum_sv_mc.Prelude.Bytes.{bytes_eq}
use mathlib.Core.List.{reverse}
use electrum_sv_mc.HeaderStore.Header.{
  ParsedHeader, hash256, check_pow, from_raw, to_raw, from_le_bytes,
}
use electrum_sv_mc.HeaderStore.Header.{slice, exponent_of, target_from_bits, from_hex, bytes_lt}
use electrum_sv_mc.HeaderStore.Header.Target.{
  value_be, compact_value, Is32Bytes, AreBytes, AreBytes-padded, AreBytes-zeros,
}
use electrum_sv_mc.HeaderStore.Header.Target.{target_from_bits_lem}
use electrum_sv_mc.HeaderStore.Header.Pow.{check_pow_lem}
use electrum_sv_mc.HeaderStore.Header.RoundTrip.{to_raw-from_raw}
use electrum_sv_mc.Prelude.{ap, ◌+◌}
use electrum_sv_mc.HeaderStore.Merkle.{verify_merkle_proof, fold_branch, combine, lower}
use electrum_sv_mc.HeaderStore.Merkle.Binding.{Collision, verify_merkle_proof-binds}
use electrum_sv_mc.HeaderStore.Merkle.Laws.{
  Tree, leaf, node, leaf_at, root, partners, verify_merkle_proof-partners,
}
use electrum_sv_mc.HeaderStore.Store.{
  verify_chain, Rows, connected, connect_header, connect_tip, get_tip, insert_header, insert_row,
}
use electrum_sv_mc.HeaderStore.Store.Extend.{KeepsChain, connect_header-KeepsChain}
use electrum_sv_mc.HeaderStore.Store.Chain.{IsChain, linked, no_more, verify_chain-IsChain}
use electrum_sv_mc.Prelude.{if◌then◌else◌, ◌≢◌}
use electrum_sv_mc.Cache.Transactions.{
  TransactionCache, TransactionCacheEntry, new_tx_data, get_flags, get_bytedata, update_flags,
  is_cached,
}
use electrum_sv_mc.Cache.Transactions.{delete}
use electrum_sv_mc.Cache.Transactions.Laws.{delete_lem, update_flags_lem}

abbrev cache : LruCache
cache = record {
  entries = (1 ∷ [], 10 ∷ 11 ∷ []) ∷ (2 ∷ [], 20 ∷ 21 ∷ 22 ∷ []) ∷ [];
  total_size = 5;
  max_size = 6;
}

cache-IsValid : IsValid cache
unfolding find bytes_eq
cache-IsValid = record {
  counted = refl;
  distinct = (refl, (refl, tt));
  bounded = inl (omega arith);
}

abbrev key : Text
key = 3 ∷ []

abbrev stored : Text
stored = 30 ∷ 31 ∷ []

set_bytes-IsValid_example :
    IsValid (set_bytes key stored cache)
    × (n : ℕ) × ((set_bytes key stored cache).entries ≡ drop n (before_eviction key stored cache))
    × ((k : ℕ) → k < n → 6 < bytes_total (drop k (before_eviction key stored cache)))
    × (1 ≤ length (set_bytes key stored cache).entries)
set_bytes-IsValid_example = set_bytes-IsValid key stored cache cache-IsValid (omega arith)

find-set_bytes_example :
    (find key (set_bytes key stored cache).entries ≡ some stored)
    × ((k : Text)
        → k ≢ key
        → (find k (set_bytes key stored cache).entries ≡ find k cache.entries)
          ⊎ (find k (set_bytes key stored cache).entries ≡ none))
find-set_bytes_example = find-set_bytes key stored cache cache-IsValid (omega arith)

set_max_size-IsValid_example :
    IsValid (set_max_size 4 cache)
    × ((set_max_size 4 cache).total_size ≤ 4)
    × ((set_max_size 4 cache).max_size ≡ 4)
set_max_size-IsValid_example = set_max_size-IsValid 4 cache cache-IsValid

get_lem_example : IsGot (1 ∷ []) cache (get (1 ∷ []) cache)
get_lem_example = get_lem (1 ∷ []) cache

abbrev zeros : List ℕ → List ℕ
zeros t = replicate 32 0

abbrev plain : List ℕ → Text
plain bytes = bytes

abbrev read : Text → Option (List ℕ)
read text = some text

read-plain : (bytes : List ℕ) → read (plain bytes) ≡ some bytes
read-plain bytes = refl

-- A header whose bits are 4 and 65536.
abbrev raw : List ℕ
raw = replicate 72 0 ++ (0 ∷ 0 ∷ 1 ∷ 4 ∷ 0 ∷ 0 ∷ 0 ∷ 0 ∷ [])

hash-Is32Bytes : Is32Bytes (reverse (hash256 zeros raw))
unfolding hash256
hash-Is32Bytes = (refl, AreBytes-zeros 32)

small_exponent : exponent_of (from_le_bytes (slice 72 76 raw)) ≤ 32
unfolding from_le_bytes
small_exponent = omega arith

check_pow_lem_example : (check_pow zeros raw ≡ true) ↔ (
    (length raw ≡ 80)
    × (value_be (reverse (hash256 zeros raw)) < compact_value (from_le_bytes (slice 72 76 raw))))
check_pow_lem_example = check_pow_lem zeros raw hash-Is32Bytes small_exponent

target_from_bits_lem_example :
    (exponent_of 0x1d00ffff ≤ 32
      → value_be (target_from_bits 0x1d00ffff) ≡ compact_value 0x1d00ffff)
    × (32 < exponent_of 0x1d00ffff → target_from_bits 0x1d00ffff ≡ replicate 32 0)
    × Is32Bytes (target_from_bits 0x1d00ffff)
target_from_bits_lem_example = target_from_bits_lem 0x1d00ffff

raw-AreBytes : AreBytes raw
raw-AreBytes = AreBytes-padded 72 (0 ∷ 0 ∷ 1 ∷ 4 ∷ 0 ∷ 0 ∷ 0 ∷ 0 ∷ []) (
  omega arith,
  (
    omega arith,
    (omega arith, (omega arith, (omega arith, (omega arith, (omega arith, (omega arith, tt)))))),
  ),
)

to_raw-from_raw_example :
    (h : ParsedHeader) × (from_raw zeros plain raw 0 ≡ ok h) × (to_raw read h ≡ raw)
to_raw-from_raw_example = to_raw-from_raw zeros plain read read-plain raw 0 raw-AreBytes refl

abbrev tree : Tree 2
tree = node (node (leaf (1 ∷ [])) (leaf (2 ∷ []))) (node (leaf (3 ∷ [])) (leaf (4 ∷ [])))

verify_merkle_proof-partners_example :
    verify_merkle_proof zeros read plain
      (plain (reverse (leaf_at tree 2)))
      (map (λ bytes. plain (reverse bytes)) (partners zeros tree 2))
      2
      (plain (reverse (root zeros tree)))
    ≡ true
verify_merkle_proof-partners_example =
    verify_merkle_proof-partners zeros plain read read-plain 2 tree 2 (omega arith)

-- A code of bytes without letters.
abbrev shifted : List ℕ → Text
shifted [] = []
shifted (b ∷ bytes) = (100 + b) ∷ shifted bytes

shifted-determines : (a b : List ℕ) → map lower (shifted a) ≡ map lower (shifted b) → a ≡ b
shifted-determines [] [] h = refl
shifted-determines [] (y ∷ b) h = absurd (cc h)
shifted-determines (x ∷ a) [] h = absurd (cc h)
shifted-determines (x ∷ a) (y ∷ b) h =
    let heads : lower (100 + x) ≡ lower (100 + y) = cc h in
    let tails : map lower (shifted a) ≡ map lower (shifted b) = cc h in
    let first : x ≡ y = ground (arith, heads) in
    rw (first) (ap (λ (l : List ℕ). y ∷ l) (shifted-determines a b tails))

zeros-length : (b : List ℕ) → length (zeros b) ≡ 32
zeros-length b = refl

verify_merkle_proof-binds_example :
    ◌≡◌ {A = List ℕ} (replicate 32 0) (replicate 32 0) ⊎ Collision zeros
unfolding verify_merkle_proof fold_branch combine hash256 bytes_eq
verify_merkle_proof-binds_example =
    verify_merkle_proof-binds zeros read zeros-length shifted shifted-determines (replicate 32 0)
      (replicate 32 0) ((5 ∷ []) ∷ []) ((6 ∷ []) ∷ []) 0 (replicate 32 100) (replicate 32 0)
      (replicate 32 0) refl refl refl refl refl refl refl

abbrev header : ℕ → ParsedHeader
header height = record {
  version = 0;
  prev_hash = replicate 32 0;
  merkle_root = replicate 32 0;
  timestamp = 0;
  bits = 67174400;
  nonce = 0;
  height = height;
  hash = replicate 32 0;
}

abbrev rows : Rows
rows = (0, raw) ∷ (1, raw) ∷ []

rows-IsChain : IsChain zeros plain read raw none 0 rows
unfolding from_hex from_raw check_pow hash256 from_le_bytes target_from_bits bytes_lt
rows-IsChain =
    linked (header 0) refl refl (header 0, refl, refl) (linked (header 1) refl refl refl no_more)

verify_chain-IsChain_example :
    (verify_chain zeros plain read raw rows ≡ ok 2)
    ↔ (IsChain zeros plain read raw none 0 rows × (2 ≡ length rows))
verify_chain-IsChain_example = verify_chain-IsChain zeros plain read raw rows 2 (refl, (refl, tt))

connect_header-KeepsChain_example :
    KeepsChain zeros plain read raw ((0, raw) ∷ (1, raw) ∷ (2, raw) ∷ []) (connected 2)
unfolding connect_header connect_tip get_tip insert_header insert_row from_hex from_raw check_pow
    hash256 from_le_bytes target_from_bits bytes_lt bytes_eq
connect_header-KeepsChain_example =
    connect_header-KeepsChain zeros plain read raw 2 raw rows ((0, raw) ∷ (1, raw) ∷ (2, raw) ∷ [])
      (connected 2) rows-IsChain refl

abbrev entry : TransactionCacheEntry
entry = record { metadata = new_tx_data 5 6; flags = 8; time_loaded = 7 }

abbrev transactions : TransactionCache
transactions = record {
  metadata_cache = (1 ∷ [], entry) ∷ (4 ∷ [], entry) ∷ [];
  bytedata_cache = cache;
}

transactions-IsMap : IsMap transactions.metadata_cache
unfolding lookup bytes_eq
transactions-IsMap = (refl, (refl, tt))

delete_lem_example :
    (get_flags (1 ∷ []) (delete (1 ∷ []) transactions) ≡ none)
    × ((get_bytedata (1 ∷ []) (delete (1 ∷ []) transactions)).1 ≡ none)
    × ((k : Text)
        → k ≢ (1 ∷ [])
        → (get_flags k (delete (1 ∷ []) transactions) ≡ get_flags k transactions)
          × ((get_bytedata k (delete (1 ∷ []) transactions)).1 ≡ (get_bytedata k transactions).1))
delete_lem_example = delete_lem (1 ∷ []) transactions transactions-IsMap cache-IsValid

update_flags_lem_example :
    (get_flags (4 ∷ []) (update_flags (4 ∷ []) 10 transactions)
      ≡ (if is_cached (4 ∷ []) transactions then some 10 else none))
    × ((k : Text)
        → k ≢ (4 ∷ [])
        → get_flags k (update_flags (4 ∷ []) 10 transactions) ≡ get_flags k transactions)
    × ((update_flags (4 ∷ []) 10 transactions).bytedata_cache ≡ transactions.bytedata_cache)
update_flags_lem_example = update_flags_lem (4 ∷ []) 10 transactions
