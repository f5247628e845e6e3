-- ===== src/Cache/Lru/Order.antt =====
-- What `LruCache` of db/cache.rs evicts, and the theorems on its operations.
use electrum_sv_mc.Prelude.{ℕ, zero, suc, ◌+◌, ◌-◌, ◌^◌, ◌≤◌, ◌<◌, ◌≡◌, refl, sym, ap}
use electrum_sv_mc.Prelude.{◌⊎◌, inl, inr, ◌&&◌}
use electrum_sv_mc.Prelude.{List, [], ◌∷◌, ◌++◌, arith, ltb}
use electrum_sv_mc.Prelude.{if-elim}
use electrum_sv_mc.Prelude.{length, drop}
use electrum_sv_mc.Prelude.{length-append, sum_of-append}
use electrum_sv_mc.Prelude.Word.{wrap}
use mathlib.Core.Path.{subst}
use electrum_sv_mc.CoinChooser.Types.{Text}
use electrum_sv_mc.Cache.Lru.{Entry, entry_size, LruCache, evict, with_evicted}
use electrum_sv_mc.Cache.Lru.{remove, set_bytes, set_max_size}
use electrum_sv_mc.Cache.Lru.Laws.{without, Distinct, bytes_total, IsValid}
use electrum_sv_mc.Cache.Lru.Laws.{remove_lem, Distinct-without}
use electrum_sv_mc.Cache.Lru.Laws.{Fresh-without_self, Distinct-snoc}

-- Eviction drops the least recently used entries, no more than the limit asks for, and keeps `keep`.
pub record IsEvicted (max_size keep : ℕ) (l : List Entry) (r : List Entry × ℕ) : Type 0 where
  pub dropped : ℕ
  pub rest : r.0 ≡ drop dropped l
  pub counted : r.1 ≡ bytes_total (r.0)
  pub enough : (r.1 ≤ max_size) ⊎ (length (r.0) ≤ keep)
  pub least : (k : ℕ) → k < dropped → max_size < bytes_total (drop k l)
  pub kept : (keep ≤ length (r.0)) ⊎ (length (r.0) ≡ length l)

evict_more :
    (max_size keep : ℕ) (e : Entry) (l : List Entry) (r : List Entry × ℕ)
    → max_size < bytes_total (e ∷ l)
    → keep < length (e ∷ l)
    → IsEvicted max_size keep l r
    → IsEvicted max_size keep (e ∷ l) r
evict_more max_size keep e l r big many v = record {
  dropped = suc v.dropped;
  rest = v.rest;
  counted = v.counted;
  enough = v.enough;
  least = least';
  kept = inl (omega (arith, v.kept));
}
  where
    least' : (k : ℕ) → k < suc v.dropped → max_size < bytes_total (drop k (e ∷ l))
    least' zero h = big
    least' (suc k) h = v.least k (omega arith)

pub evict_lem :
    (max_size keep total_size : ℕ) (l : List Entry)
    → total_size ≡ bytes_total l
    → IsEvicted max_size keep l (evict max_size keep total_size l)
unfolding evict
evict_lem max_size keep total_size [] e = record {
  dropped = 0;
  rest = refl;
  counted = e;
  enough = inr (omega arith);
  least = λ k h. elim h [ ];
  kept = inr refl;
}
evict_lem max_size keep total_size (x ∷ l) e =
    if-elim (IsEvicted max_size keep (x ∷ l)) (ltb max_size total_size && ltb keep (length (x ∷ l)))
      _ _
      (λ t.
        evict_more max_size keep x l _ (ground arith) (ground arith)
          (evict_lem max_size keep (total_size - entry_size x) l (omega arith)))
      λ t. record {
        dropped = 0;
        rest = refl;
        counted = e;
        enough = ground arith;
        least = λ k h. elim h [ ];
        kept = inr refl;
      }

Distinct-drop : (k : ℕ) (l : List Entry) → Distinct l → Distinct (drop k l)
Distinct-drop zero l d = d
Distinct-drop (suc k) [] d = tt
Distinct-drop (suc k) (e ∷ l) (f, d) = Distinct-drop k l d

-- The cache after an eviction has the accounts in order, whatever its entries were.
evicted-IsValid :
    (c : LruCache) (keep : ℕ) (l : List Entry) (r : List Entry × ℕ)
    → keep ≤ 1
    → Distinct l
    → IsEvicted c.max_size keep l r
    → IsValid (with_evicted c r)
evicted-IsValid c keep l r small d v = record {
  counted = v.counted;
  distinct = subst Distinct (sym v.rest) (Distinct-drop v.dropped l d);
  bounded = ground (arith, v.enough);
}

-- The entries that `set` evicts from.
abbrev pub before_eviction : Text → Text → LruCache → List Entry
before_eviction h b c = without h c.entries ++ ((h, b) ∷ [])

Distinct-before :
    (h b : Text) (c : LruCache) → Distinct c.entries → Distinct (before_eviction h b c)
Distinct-before h b c d =
    Distinct-snoc (without h c.entries) h b (Distinct-without h c.entries d)
      (Fresh-without_self h c.entries d)

bytes_total-without : (h : Text) (l : List Entry) → bytes_total (without h l) ≤ bytes_total l
unfolding without
bytes_total-without h [] = omega arith
bytes_total-without h (e ∷ l) = ground (arith, bytes_total-without h l)

set_bytes_evicts :
    (h b : Text) (c : LruCache)
    → IsValid c
    → c.total_size + length b < 2 ^ 64
    → (r : List Entry × ℕ) × (set_bytes h b c ≡ with_evicted c r)
      × IsEvicted c.max_size 1 (before_eviction h b c) r
unfolding set_bytes
set_bytes_evicts h b c v fits =
    let m = remove_lem h c in
    let size : wrap ((remove h c).total_size + length b) ≡ bytes_total (before_eviction h b c) =
      omega (
        arith,
        m.counted v.counted,
        v.counted,
        ap bytes_total m.left,
        bytes_total-without h c.entries,
        sum_of-append entry_size (without h c.entries) ((h, b) ∷ []),
      ) in
    (
      evict c.max_size 1 (wrap ((remove h c).total_size + length b)) (before_eviction h b c),
      rw (m.left, m.limit),
      evict_lem c.max_size 1 _ (before_eviction h b c) size,
    )

length-before : (h b : Text) (c : LruCache) → 1 ≤ length (before_eviction h b c)
length-before h b c = omega (arith, length-append (without h c.entries) ((h, b) ∷ []))

some_left :
    (h b : Text) (c : LruCache) (r : List Entry × ℕ)
    → IsEvicted c.max_size 1 (before_eviction h b c) r
    → 1 ≤ length (r.0)
some_left h b c r w = omega (arith, w.kept, length-before h b c)

-- From a valid cache, storing bytes under a hash (without overflow of the size) leaves a valid one: what
-- is left are the entries in order of use, the new one last, less the fewest of the least recently used
-- ones that the limit asks for, and the new entry always stays.
pub set_bytes-IsValid :
    (h b : Text) (c : LruCache)
    → IsValid c
    → c.total_size + length b < 2 ^ 64
    → IsValid (set_bytes h b c)
      × (n : ℕ) × ((set_bytes h b c).entries ≡ drop n (before_eviction h b c))
      × ((k : ℕ) → k < n → c.max_size < bytes_total (drop k (before_eviction h b c)))
      × (1 ≤ length (set_bytes h b c).entries)
set_bytes-IsValid h b c v fits =
    let (r, e, w) = set_bytes_evicts h b c v fits in
    rw e (
      evicted-IsValid c 1 (before_eviction h b c) r (omega arith) (Distinct-before h b c v.distinct)
          w,
      w.dropped,
      w.rest,
      w.least,
      some_left h b c r w,
    )

-- A new limit, whatever it is, leaves a valid cache valid, with that limit and no more bytes than
-- it allows.
pub set_max_size-IsValid :
    (m : ℕ) (c : LruCache)
    → IsValid c
    → IsValid (set_max_size m c)
      × ((set_max_size m c).total_size ≤ m)
      × ((set_max_size m c).max_size ≡ m)
unfolding set_max_size
set_max_size-IsValid m c v =
    let w = evict_lem m 0 c.total_size c.entries v.counted in
    (
      evicted-IsValid (record c { max_size = m }) 0 c.entries _ (omega arith) v.distinct w,
      none_over (evict m 0 c.total_size c.entries) w.counted w.enough,
      refl,
    )
  where
    none_over :
        (r : List Entry × ℕ) → r.1 ≡ bytes_total (r.0) → (r.1 ≤ m) ⊎ (length (r.0) ≤ 0) → r.1 ≤ m
    none_over (l, t) e (inl h) = h
    none_over ([], t) e (inr h) = omega arith
    none_over (x ∷ l, t) e (inr h) = absurd (omega arith)

length-without : (h : Text) (l : List Entry) → length (without h l) ≤ length l
unfolding without
length-without h [] = omega arith
length-without h (e ∷ l) = ground (arith, length-without h l)

-- Removal keeps a valid cache valid.
pub remove-IsValid : (h : Text) (c : LruCache) → IsValid c → IsValid (remove h c)
remove-IsValid h c v =
    let m = remove_lem h c in
    record {
      counted = m.counted v.counted;
      distinct = subst Distinct (sym m.left) (Distinct-without h c.entries v.distinct);
      bounded = ground (
        arith,
        v.bounded,
        m.limit,
        m.counted v.counted,
        v.counted,
        ap bytes_total m.left,
        ap length m.left,
        bytes_total-without h c.entries,
        length-without h c.entries,
      );
    }
