-- ===== src/Cache/Transactions/Laws.antt =====
-- `TransactionCache` of db/cache.rs as two maps: what its operations change, and what they leave.
use electrum_sv_mc.Prelude.{◌≡◌, refl, sym, ap, ◌∙◌}
use electrum_sv_mc.Prelude.{◌≢◌, inl, inr, false, Option, none, some}
use electrum_sv_mc.Prelude.{if◌then◌else◌}
use electrum_sv_mc.Prelude.{Option-cases}
use electrum_sv_mc.CoinChooser.Types.{Text}
use electrum_sv_mc.Prelude.Bytes.{bytes_eq}
use electrum_sv_mc.Prelude.Assoc.{
  IsMap, lookup, lookup-take_out, lookup-take_out_ne, lookup-insert, lookup-insert_ne,
}
use electrum_sv_mc.Cache.Lru.{LruCache, remove}
use electrum_sv_mc.Cache.Lru.Laws.{IsValid, find, remove_lem, find-without, Fresh-without_self}
use electrum_sv_mc.Cache.Lru.Found.{ne_bytes, get_lem}
use electrum_sv_mc.Cache.Transactions.{TxFlags, TransactionCacheEntry}
use electrum_sv_mc.Cache.Transactions.{
  TransactionCache, get_flags, update_flags, is_cached, delete, get_bytedata,
}

find-remove : (h : Text) (b : LruCache) → IsValid b → find h (remove h b).entries ≡ none
find-remove h b v = rw ((remove_lem h b).left) (Fresh-without_self h b.entries v.distinct)

find-remove_ne :
    (h k : Text) (b : LruCache)
    → bytes_eq h k ≡ false
    → find k (remove h b).entries ≡ find k b.entries
find-remove_ne h k b ne = rw ((remove_lem h b).left) (find-without h k b.entries ne)

bytedata_of :
    (h : Text) (c : TransactionCache) → (get_bytedata h c).1 ≡ find h c.bytedata_cache.entries
unfolding get_bytedata
bytedata_of h c = (get_lem h c.bytedata_cache).0

abbrev flags_of : Option TransactionCacheEntry → Option TxFlags
flags_of o = elim o [ none ↦ none | some e ↦ some e.flags ]

-- Deleting a hash from a cache without repetitions removes its flags and its bytes, and leaves those of
-- every other hash.
pub delete_lem :
    (h : Text) (c : TransactionCache)
    → IsMap c.metadata_cache
    → IsValid c.bytedata_cache
    → (get_flags h (delete h c) ≡ none)
      × ((get_bytedata h (delete h c)).1 ≡ none)
      × ((k : Text)
          → k ≢ h
          → (get_flags k (delete h c) ≡ get_flags k c)
            × ((get_bytedata k (delete h c)).1 ≡ (get_bytedata k c).1))
unfolding get_flags delete
delete_lem h c m v = (
  ap flags_of (lookup-take_out h c.metadata_cache m),
  bytedata_of h (delete h c) ∙ find-remove h c.bytedata_cache v,
  λ k ne. (
    ap flags_of (lookup-take_out_ne h k c.metadata_cache (ne_bytes h k ne)),
    bytedata_of k (delete h c)
        ∙ find-remove_ne h k c.bytedata_cache (ne_bytes h k ne)
        ∙ sym (bytedata_of k c),
  ),
)

-- New flags are those of a hash that is cached, and of no other; the bytes stay.
pub update_flags_lem :
    (h : Text) (flags : TxFlags) (c : TransactionCache)
    → (get_flags h (update_flags h flags c) ≡ (if is_cached h c then some flags else none))
      × ((k : Text) → k ≢ h → get_flags k (update_flags h flags c) ≡ get_flags k c)
      × ((update_flags h flags c).bytedata_cache ≡ c.bytedata_cache)
unfolding get_flags update_flags is_cached
update_flags_lem h flags c = elim (Option-cases (lookup h c.metadata_cache)) [
  | inl e ↦ rw (e, update_flags, get_flags, is_cached) (ap flags_of e, λ k ne. refl, refl)
  | inr (x, e) ↦
      let new = record x { flags = flags } in
      rw (e, update_flags, is_cached)
        (
          ap flags_of (lookup-insert h new c.metadata_cache),
          λ k ne. ap flags_of (lookup-insert_ne h k new c.metadata_cache (ne_bytes h k ne)),
          refl,
        )
]
