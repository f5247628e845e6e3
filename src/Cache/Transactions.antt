-- ===== src/Cache/Transactions.antt =====
-- `TxFlags`, `TxData` and `TransactionCache` of db/cache.rs. A lock is held for a whole operation, so each
-- operation is a function on the two tables. The metadata map is a list of its entries in the
-- order of a traversal, one for each hash; the clock's reading is an argument.
pub mod Laws
use electrum_sv_mc.Prelude.{
  ℕ, zero, suc, ◌+◌, ◌-◌, ◌*◌, ◌/◌, ◌%◌, ◌^◌, ◌≤◌, ◌<◌, ◌≡◌, refl, sym, ap, ◌∙◌,
}
use electrum_sv_mc.Prelude.{
  ◌≢◌, ◌↔◌, ◌⊎◌, inl, inr, Bool, true, false, ◌&&◌, ◌||◌, not, Option, none, some,
}
use electrum_sv_mc.Prelude.{List, [], ◌∷◌, ◌++◌, map, arith, ltb, leb, ◌==◌, if◌then◌else◌}
use electrum_sv_mc.Prelude.{
  Result, ok, err, ◌>>=◌, ok_or, Result-cases, >>=-eq-ok, Bool-cases, Option-cases, if-elim,
}
use electrum_sv_mc.Prelude.{ltb→lt, lt→ltb, leb→le, le→leb, ltb-false, leb-false, ==_iff}
use electrum_sv_mc.Prelude.{length, get_elem?, set, take, drop, replicate, sum_of, All}
use electrum_sv_mc.Prelude.{
  length-append, sum_of-append, take-append-drop, length-take, length-drop, sum_of-take_le,
}
use electrum_sv_mc.Prelude.Word.{IsU64, wrap, wrap_small, checked_add}
use electrum_sv_mc.CoinChooser.Types.{Text}
use electrum_sv_mc.Prelude.Bytes.{bytes_eq}
use electrum_sv_mc.Prelude.Assoc.{lookup, insert, take_out}
use electrum_sv_mc.Cache.Lru.{LruCache, new_lru, set_bytes, get, remove, contains, set_max_size}

abbrev pub default_max_cache_size_bytes : ℕ
default_max_cache_size_bytes = 268435456

-- The low `n` bits of `&` and of `|`.
unfoldable pub and_bits : ℕ → ℕ → ℕ → ℕ
and_bits zero a b = 0
and_bits (suc n) a b = a % 2 * (b % 2) + 2 * and_bits n (a / 2) (b / 2)

unfoldable pub or_bits : ℕ → ℕ → ℕ → ℕ
or_bits zero a b = 0
or_bits (suc n) a b =
    let x = a % 2 in let y = b % 2 in x + y - x * y + 2 * or_bits n (a / 2) (b / 2)

-- A `TxFlags` is its `u32`.
abbrev pub TxFlags : Type 0
TxFlags = ℕ

abbrev pub bitand : TxFlags → TxFlags → TxFlags
bitand = and_bits 32

abbrev pub bitor : TxFlags → TxFlags → TxFlags
bitor = or_bits 32

abbrev pub has_height : TxFlags
has_height = 2

abbrev pub has_bytedata : TxFlags
has_bytedata = 8

abbrev pub state_clear : TxFlags
state_clear = 65536

abbrev pub state_settled : TxFlags
state_settled = 131072

abbrev pub intersects : TxFlags → TxFlags → Bool
intersects flags other = not (bitand flags other == 0)

-- TxFlags::contains
abbrev pub has_all : TxFlags → TxFlags → Bool
has_all flags other = bitand flags other == other

-- The fields are `i64`, carried by their bit patterns.
pub record TxData : Type 0 where
  pub height : Option ℕ
  pub position : Option ℕ
  pub fee : Option ℕ
  pub date_added : ℕ
  pub date_updated : ℕ

-- TxData::new
unfoldable pub new_tx_data : ℕ → ℕ → TxData
new_tx_data date_added date_updated = record {
  height = none;
  position = none;
  fee = none;
  date_added = date_added;
  date_updated = date_updated;
}

pub record TransactionCacheEntry : Type 0 where
  pub metadata : TxData
  pub flags : TxFlags
  pub time_loaded : ℕ

abbrev pub Table : Type 0
Table = List (Text × TransactionCacheEntry)

-- `.iter().filter(test)`
unfoldable pub select_entries : (TransactionCacheEntry → Bool) → Table → Table
select_entries test [] = []
select_entries test (e ∷ rest) =
    let later = select_entries test rest in if test (e.1) then e ∷ later else later

pub record TransactionCache : Type 0 where
  pub metadata_cache : Table
  pub bytedata_cache : LruCache

-- TransactionCache::with_size
unfoldable pub with_size : ℕ → TransactionCache
with_size max_bytedata_size = record {
  metadata_cache = [];
  bytedata_cache = new_lru max_bytedata_size;
}

unfoldable pub add_metadata : ℕ → Text → TxData → TxFlags → TransactionCache → TransactionCache
add_metadata now tx_hash metadata flags c = record c {
  metadata_cache =
      insert tx_hash (record { metadata = metadata; flags = flags; time_loaded = now })
        c.metadata_cache;
}

unfoldable pub get_metadata : Text → TransactionCache → Option TxData
get_metadata tx_hash c = elim (lookup tx_hash c.metadata_cache) [
  | none ↦ none
  | some e ↦ some e.metadata
]

unfoldable pub get_flags : Text → TransactionCache → Option TxFlags
get_flags tx_hash c = elim (lookup tx_hash c.metadata_cache) [ none ↦ none | some e ↦ some e.flags ]

unfoldable pub update_flags : Text → TxFlags → TransactionCache → TransactionCache
update_flags tx_hash flags c = elim (lookup tx_hash c.metadata_cache) [
  | none ↦ c
  | some e ↦ record c {
    metadata_cache = insert tx_hash (record e { flags = flags }) c.metadata_cache;
  }
]

unfoldable pub is_cached : Text → TransactionCache → Bool
is_cached tx_hash c = elim (lookup tx_hash c.metadata_cache) [ none ↦ false | some e ↦ true ]

unfoldable pub delete : Text → TransactionCache → TransactionCache
delete tx_hash c = record {
  metadata_cache = take_out tx_hash c.metadata_cache;
  bytedata_cache = remove tx_hash c.bytedata_cache;
}

unfoldable pub add_bytedata : Text → Text → TransactionCache → TransactionCache
add_bytedata tx_hash bytedata c = record c {
  bytedata_cache = set_bytes tx_hash bytedata c.bytedata_cache;
}

unfoldable pub get_bytedata : Text → TransactionCache → TransactionCache × Option Text
get_bytedata tx_hash c =
    let found = get tx_hash c.bytedata_cache in (record c { bytedata_cache = found.0 }, found.1)

abbrev pub has_bytedata_cached : Text → TransactionCache → Bool
has_bytedata_cached tx_hash c = contains tx_hash c.bytedata_cache

unfoldable pub has_transaction_data : Text → TransactionCache → Bool
has_transaction_data tx_hash c = elim (lookup tx_hash c.metadata_cache) [
  | none ↦ false
  | some e ↦ has_all e.flags has_bytedata
]

unfoldable pub set_maximum_cache_size : ℕ → TransactionCache → TransactionCache
set_maximum_cache_size max_size c = record c {
  bytedata_cache = set_max_size max_size c.bytedata_cache;
}

unfoldable pub entry_visible : TxFlags → Option TxFlags → Option TxFlags → Bool
entry_visible entry_flags none none = true
entry_visible entry_flags none (some m) = intersects entry_flags m
entry_visible entry_flags (some f) none = intersects entry_flags f
entry_visible entry_flags (some f) (some m) = bitand entry_flags m == f

unfoldable pub get_entries : Option TxFlags → Option TxFlags → TransactionCache → Table
get_entries flags mask c = select_entries (λ e. entry_visible e.flags flags mask) c.metadata_cache

unfoldable pub get_height : Text → TransactionCache → Option ℕ
get_height tx_hash c = elim (lookup tx_hash c.metadata_cache) [
  | none ↦ none
  | some e ↦
      if intersects e.flags (bitor state_settled state_clear) then e.metadata.height else none
]

abbrev pub is_unsynced : TransactionCacheEntry → Bool
is_unsynced e = has_all e.flags has_bytedata && not (has_all e.flags has_height)

unfoldable pub get_unsynced_hashes : TransactionCache → List Text
get_unsynced_hashes c = map (λ e. e.0) (select_entries is_unsynced c.metadata_cache)

unfoldable pub clear : TransactionCache → TransactionCache
clear c = record {
  metadata_cache = [];
  bytedata_cache = record (c.bytedata_cache) { entries = []; total_size = 0 };
}
