-- ===== src/Cache/Lru.antt =====
-- `LruCache` of db/cache.rs. The front of the entries is the least recently used one.
pub mod Laws
pub mod Order
pub mod Found
use electrum_sv_mc.Prelude.{
  ℕ, zero, suc, ◌+◌, ◌-◌, ◌*◌, ◌/◌, ◌%◌, ◌^◌, ◌≤◌, ◌<◌, ◌≡◌, refl, sym, ap, ◌∙◌,
}
use electrum_sv_mc.Prelude.{
  ◌≢◌, ◌↔◌, ◌⊎◌, inl, inr, Bool, true, false, ◌&&◌, ◌||◌, not, Option, none, some,
}
use electrum_sv_mc.Prelude.{List, [], ◌∷◌, ◌++◌, map, arith, ltb, leb, ◌==◌, if◌then◌else◌}
use electrum_sv_mc.Prelude.{
  Result, ok, err, ◌>>=◌, ok_or, Result-cases, >>=-eq-ok, Bool-cases, Option-cases, if-elim,
}
use electrum_sv_mc.Prelude.{ltb→lt, lt→ltb, leb→le, le→leb, ltb-false, leb-false, ==_iff}
use electrum_sv_mc.Prelude.{length, get_elem?, set, take, drop, replicate, sum_of, All}
use electrum_sv_mc.Prelude.{
  length-append, sum_of-append, take-append-drop, length-take, length-drop, sum_of-take_le,
}
use electrum_sv_mc.Prelude.Word.{IsU64, wrap, wrap_small, checked_add}
use electrum_sv_mc.Prelude.Bytes.{bytes_eq}
use electrum_sv_mc.CoinChooser.Types.{Text}

abbrev pub Entry : Type 0
Entry = Text × Text

abbrev pub entry_size : Entry → ℕ
entry_size e = length (e.1)

pub record LruCache : Type 0 where
  pub entries : List Entry
  pub total_size : ℕ
  pub max_size : ℕ

-- LruCache::new
unfoldable pub new_lru : ℕ → LruCache
new_lru max_size = record { entries = []; total_size = 0; max_size = max_size }

abbrev one_later : Option ℕ → Option ℕ
one_later none = none
one_later (some i) = some (suc i)

-- `position`
unfoldable pub index_of : Text → List Entry → Option ℕ
index_of tx_hash [] = none
index_of tx_hash (e ∷ rest) =
    let later = one_later (index_of tx_hash rest) in
    if bytes_eq (e.0) tx_hash then some 0 else later

-- `Vec::remove`, for an index in range.
unfoldable pub remove_at : List Entry → ℕ → List Entry
remove_at [] i = []
remove_at (e ∷ rest) zero = rest
remove_at (e ∷ rest) (suc i) = e ∷ remove_at rest i

-- `while total_size > max_size && entries.len() > keep { entries.remove(0); … }`
unfoldable pub evict : ℕ → ℕ → ℕ → List Entry → List Entry × ℕ
evict max_size keep total_size [] = ([], total_size)
evict max_size keep total_size (e ∷ rest) =
    let more = evict max_size keep (total_size - entry_size e) rest in
    if ltb max_size total_size && ltb keep (length (e ∷ rest)) then more else (e ∷ rest, total_size)

abbrev pub with_evicted : LruCache → List Entry × ℕ → LruCache
with_evicted c (entries, total_size) = record c { entries = entries; total_size = total_size }

-- What `remove` and the first part of `set` do with the entry at an index.
unfoldable pub remove_found : LruCache → Option ℕ → LruCache
remove_found c none = c
remove_found c (some i) = elim (get_elem? c.entries i) [
  | none ↦ c
  | some old ↦ record c {
    entries = remove_at c.entries i;
    total_size = c.total_size - entry_size old;
  }
]

unfoldable pub remove : Text → LruCache → LruCache
remove tx_hash c = remove_found c (index_of tx_hash c.entries)

unfoldable pub set_bytes : Text → Text → LruCache → LruCache
set_bytes tx_hash bytedata c =
    let c' = remove tx_hash c in
    with_evicted c' (
      evict c'.max_size 1 (wrap (c'.total_size + length bytedata))
        (c'.entries ++ ((tx_hash, bytedata) ∷ [])))

-- What `get` does with the entry at an index.
unfoldable pub get_found : LruCache → Option ℕ → LruCache × Option Text
get_found c none = (c, none)
get_found c (some i) = elim (get_elem? c.entries i) [
  | none ↦ (c, none)
  | some entry ↦ (record c { entries = remove_at c.entries i ++ (entry ∷ []) }, some (entry.1))
]

unfoldable pub get : Text → LruCache → LruCache × Option Text
get tx_hash c = get_found c (index_of tx_hash c.entries)

unfoldable pub contains : Text → LruCache → Bool
contains tx_hash c = elim (index_of tx_hash c.entries) [ none ↦ false | some i ↦ true ]

unfoldable pub set_max_size : ℕ → LruCache → LruCache
set_max_size max_size c =
    let c' = record c { max_size = max_size } in
    with_evicted c' (evict max_size 0 c.total_size c.entries)
