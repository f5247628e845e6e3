-- ===== src/Cache/Lru/Found.antt =====
-- `LruCache` of db/cache.rs as a map: what is found after an operation.
use electrum_sv_mc.Prelude.{ℕ, zero, suc, ◌+◌, ◌^◌, ◌≤◌, ◌<◌, ◌≡◌, refl, sym, ap, ◌∙◌}
use electrum_sv_mc.Prelude.{◌≢◌, ◌⊎◌, inl, inr, false, Option, none, some}
use electrum_sv_mc.Prelude.{List, [], ◌∷◌, ◌++◌, arith}
use electrum_sv_mc.Prelude.{Bool-cases}
use electrum_sv_mc.Prelude.{length, drop}
use mathlib.Core.Path.{subst}
use electrum_sv_mc.Prelude.Bytes.{bytes_eq, bytes_eq_iff, bytes_eq_refl}
use electrum_sv_mc.CoinChooser.Types.{Text}
use electrum_sv_mc.Cache.Lru.{Entry, LruCache, set_bytes, get_found, get, index_of}
use electrum_sv_mc.Cache.Lru.Laws.{find, without, Fresh, Distinct, IsValid, IndexIs}
use electrum_sv_mc.Cache.Lru.Laws.{index_lem, find-without, Distinct-without, Fresh-without_self}
use electrum_sv_mc.Cache.Lru.Laws.{find-snoc, Distinct-snoc}
use electrum_sv_mc.Cache.Lru.Order.{before_eviction, set_bytes-IsValid}

drop-snoc :
    (n : ℕ) (l : List Entry) (e : Entry)
    → 1 ≤ length (drop n (l ++ (e ∷ [])))
    → drop n (l ++ (e ∷ [])) ≡ drop n l ++ (e ∷ [])
drop-snoc zero l e h = refl
drop-snoc (suc zero) [] e h = absurd (omega arith)
drop-snoc (suc (suc n)) [] e h = absurd (omega arith)
drop-snoc (suc n) (x ∷ l) e h = drop-snoc n l e h

Fresh-tail : (h : Text) (e : Entry) (l : List Entry) → Fresh h (e ∷ l) → Fresh h l
unfolding find
Fresh-tail h e l k = ground arith

Fresh-drop : (h : Text) (n : ℕ) (l : List Entry) → Fresh h l → Fresh h (drop n l)
Fresh-drop h zero l f = f
Fresh-drop h (suc n) [] f = f
Fresh-drop h (suc n) (e ∷ l) f = Fresh-drop h n l (Fresh-tail h e l f)

find-cons_ne :
    (k : Text) (e : Entry) (l : List Entry) → bytes_eq (e.0) k ≡ false → find k (e ∷ l) ≡ find k l
unfolding find
find-cons_ne k e l h = rw h

find-drop :
    (k : Text) (n : ℕ) (l : List Entry)
    → Distinct l
    → (find k (drop n l) ≡ find k l) ⊎ (find k (drop n l) ≡ none)
find-drop k zero l d = inl refl
find-drop k (suc n) [] d = inl refl
find-drop k (suc n) (e ∷ l) (f, d) = elim (Bool-cases (bytes_eq (e.0) k)) [
  | inl hit ↦
      inr (subst (λ h. Fresh h (drop n l)) ((bytes_eq_iff (e.0) k).0 hit) (Fresh-drop (e.0) n l f))
  | inr miss ↦ rw (find-cons_ne k e l miss) (find-drop k n l d)
]

find-snoc_ne :
    (k h b : Text) (l : List Entry) → bytes_eq h k ≡ false → find k (l ++ ((h, b) ∷ [])) ≡ find k l
unfolding find
find-snoc_ne k h b [] ne = rw ne
find-snoc_ne k h b (e ∷ l) ne = ground (arith, find-snoc_ne k h b l ne)

pub ne_bytes : (h k : Text) → k ≢ h → bytes_eq h k ≡ false
ne_bytes h k ne = elim (Bool-cases (bytes_eq h k)) [
  | inl e ↦ absurd (ne (sym ((bytes_eq_iff h k).0 e)))
  | inr e ↦ e
]

find-drop_before :
    (h b : Text) (c : LruCache) (n : ℕ)
    → Distinct c.entries
    → 1 ≤ length (drop n (before_eviction h b c))
    → find h (drop n (before_eviction h b c)) ≡ some b
find-drop_before h b c n d some_entry =
    let rest = without h c.entries in
    rw (drop-snoc n rest (h, b) some_entry) (
      find-snoc h h b (drop n rest) (Fresh-drop h n rest (Fresh-without_self h c.entries d))
      ∙ rw (bytes_eq_refl h))

-- Bytes that have just been stored in a valid cache (without overflow of the size) are found; those of any
-- other hash are the same as before, or they have been evicted.
pub find-set_bytes :
    (h b : Text) (c : LruCache)
    → IsValid c
    → c.total_size + length b < 2 ^ 64
    → (find h (set_bytes h b c).entries ≡ some b)
      × ((k : Text)
          → k ≢ h
          → (find k (set_bytes h b c).entries ≡ find k c.entries)
            ⊎ (find k (set_bytes h b c).entries ≡ none))
find-set_bytes h b c v fits =
    let (valid, n, e, least, some_entry) = set_bytes-IsValid h b c v fits in
    let rest = without h c.entries in
    let distinct : Distinct (before_eviction h b c) =
      Distinct-snoc rest h b (Distinct-without h c.entries v.distinct)
        (Fresh-without_self h c.entries v.distinct) in
    (
      rw e (
          find-drop_before h b c n v.distinct
            (subst (λ (l : List Entry). 1 ≤ length l) e some_entry)),
      λ k ne.
          let miss = ne_bytes h k ne in
          let same : find k (before_eviction h b c) ≡ find k c.entries =
            find-snoc_ne k h b rest miss ∙ find-without h k c.entries miss in
          rw (e, ← same) (find-drop k n (before_eviction h b c) distinct),
    )

-- What `get` promises, of a result.
abbrev pub IsGot : Text → LruCache → LruCache × Option Text → Type 0
IsGot h c r =
    (r.1 ≡ find h c.entries)
    × ((b : Text) → find h c.entries ≡ some b → r.0.entries ≡ before_eviction h b c)
    × (find h c.entries ≡ none → r.0 ≡ c)

get_found_lem :
    (h : Text) (c : LruCache) (o : Option ℕ) → IndexIs h c.entries o → IsGot h c (get_found c o)
unfolding get_found
get_found_lem h c none (f, w) = (sym f, λ b k. absurd (cc (f, k)), λ _. refl)
get_found_lem h c (some i) a =
    rw (a.entry, get_found)
      (
        sym a.found,
        λ b k.
            let same : a.bytes ≡ b =
              ap (λ (o : Option Text). elim o [ none ↦ [] | some x ↦ x ]) (sym a.found ∙ k) in
            rw (a.removed, a.same, same),
        λ k. absurd (cc (a.found, k)),
      )

-- `get` answers what is stored, and moves it behind all other entries, which keep their order.
pub get_lem : (h : Text) (c : LruCache) → IsGot h c (get h c)
unfolding get
get_lem h c = get_found_lem h c (index_of h c.entries) (index_lem h c.entries)
