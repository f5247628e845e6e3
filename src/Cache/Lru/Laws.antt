-- ===== src/Cache/Lru/Laws.antt =====
-- The accounts of `LruCache` in db/cache.rs: every operation keeps them.
use electrum_sv_mc.Prelude.{ℕ, suc, ◌+◌, ◌≤◌, ◌≡◌, refl, sym}
use electrum_sv_mc.Prelude.{◌⊎◌, inl, inr, false, Option, none, some}
use electrum_sv_mc.Prelude.{List, [], ◌∷◌, ◌++◌, arith, if◌then◌else◌}
use electrum_sv_mc.Prelude.{Bool-cases, if-elim}
use electrum_sv_mc.Prelude.{length, get_elem?, sum_of}
use electrum_sv_mc.Prelude.Bytes.{bytes_eq, bytes_eq_iff}
use electrum_sv_mc.CoinChooser.Types.{Text}
use electrum_sv_mc.Cache.Lru.{Entry, entry_size, LruCache, index_of, one_later, remove_at}
use electrum_sv_mc.Cache.Lru.{remove_found, remove}

-- The abstract view: the bytes stored under a hash.
unfoldable pub find : Text → List Entry → Option Text
find h [] = none
find h (e ∷ rest) = if bytes_eq (e.0) h then some (e.1) else find h rest

unfoldable pub without : Text → List Entry → List Entry
without h [] = []
without h (e ∷ rest) = let r = without h rest in if bytes_eq (e.0) h then rest else e ∷ r

-- No hash stands twice.
abbrev pub Fresh : Text → List Entry → Type 0
Fresh h l = find h l ≡ none

abbrev pub Distinct : List Entry → Type 0
Distinct [] = Unit
Distinct (e ∷ rest) = Fresh (e.0) rest × Distinct rest

abbrev pub bytes_total : List Entry → ℕ
bytes_total = sum_of entry_size

-- The recorded size is that of the entries, no hash stands twice, and only a single entry may be
-- larger than the limit.
pub record IsValid (c : LruCache) : Type 0 where
  pub counted : c.total_size ≡ bytes_total c.entries
  pub distinct : Distinct c.entries
  pub bounded : (c.total_size ≤ c.max_size) ⊎ (length c.entries ≤ 1)

-- What the index of a hash points at.
pub record IsAt (h : Text) (l : List Entry) (i : ℕ) : Type 0 where
  pub key : Text
  pub bytes : Text
  pub entry : get_elem? l i ≡ some (key, bytes)
  pub same : key ≡ h
  pub found : find h l ≡ some bytes
  pub removed : remove_at l i ≡ without h l
  pub total : bytes_total l ≡ length bytes + bytes_total (without h l)

IsAt-later :
    (h : Text) (e : Entry) (l : List Entry) (i : ℕ)
    → bytes_eq (e.0) h ≡ false
    → IsAt h l i
    → IsAt h (e ∷ l) (suc i)
unfolding find without remove_at
IsAt-later h e l i miss a = record {
  key = a.key;
  bytes = a.bytes;
  entry = a.entry;
  same = a.same;
  found = rw miss a.found;
  removed = rw (miss, a.removed);
  total = rw miss (omega (arith, a.total));
}

-- The index is there exactly if the hash is.
abbrev pub IndexIs : Text → List Entry → Option ℕ → Type 0
IndexIs h l none = (find h l ≡ none) × (without h l ≡ l)
IndexIs h l (some i) = IsAt h l i

index_later :
    (h : Text) (e : Entry) (l : List Entry)
    → bytes_eq (e.0) h ≡ false
    → (o : Option ℕ) → IndexIs h l o
    → IndexIs h (e ∷ l) (one_later o)
unfolding find without
index_later h e l miss none (f, w) = (rw miss f, rw (miss, w))
index_later h e l miss (some i) a = IsAt-later h e l i miss a

pub index_lem : (h : Text) (l : List Entry) → IndexIs h l (index_of h l)
unfolding index_of find without remove_at
index_lem h [] = (refl, refl)
index_lem h (e ∷ l) = elim (Bool-cases (bytes_eq (e.0) h)) [
  | inl hit ↦ rw hit (record {
    key = e.0;
    bytes = e.1;
    entry = refl;
    same = (bytes_eq_iff (e.0) h).0 hit;
    found = rw hit;
    removed = rw hit;
    total = rw hit;
  })
  | inr miss ↦ rw miss (index_later h e l miss (index_of h l) (index_lem h l))
]

-- `remove` takes the entry of the hash out, wherever it stands, and leaves the others in order.
pub record IsRemoved (h : Text) (c c' : LruCache) : Type 0 where
  pub left : c'.entries ≡ without h c.entries
  pub limit : c'.max_size ≡ c.max_size
  pub counted : c.total_size ≡ bytes_total c.entries → c'.total_size ≡ bytes_total c'.entries

remove_found_lem :
    (h : Text) (c : LruCache) (o : Option ℕ)
    → IndexIs h c.entries o
    → IsRemoved h c (remove_found c o)
unfolding remove_found
remove_found_lem h c none (f, w) = record { left = sym w; limit = refl; counted = λ e. e }
remove_found_lem h c (some i) a =
    rw (a.entry, remove_found)
      (record {
        left = a.removed;
        limit = refl;
        counted = λ e. rw (a.removed) (omega (arith, a.total));
      })

pub remove_lem : (h : Text) (c : LruCache) → IsRemoved h c (remove h c)
unfolding remove
remove_lem h c = remove_found_lem h c (index_of h c.entries) (index_lem h c.entries)

module _ (h : Text) where
  pub find-without :
      (k : Text) (l : List Entry) → bytes_eq h k ≡ false → find k (without h l) ≡ find k l
  unfolding find without
  find-without k [] ne = refl
  find-without k (e ∷ l) ne =
      ground
        (arith, find-without k l ne, bytes_eq_iff (e.0) h, bytes_eq_iff (e.0) k, bytes_eq_iff h k)

  Fresh-without : (k : Text) (l : List Entry) → Fresh k l → Fresh k (without h l)
  unfolding find without
  Fresh-without k [] f = f
  Fresh-without k (e ∷ l) f = ground (arith, Fresh-without k l)

  pub Distinct-without : (l : List Entry) → Distinct l → Distinct (without h l)
  unfolding without
  Distinct-without [] d = tt
  Distinct-without (e ∷ l) (f, d) =
      if-elim Distinct (bytes_eq (e.0) h) _ _ (λ _. d)
        λ _. (Fresh-without (e.0) l f, Distinct-without l d)

  pub Fresh-without_self : (l : List Entry) → Distinct l → Fresh h (without h l)
  unfolding find without
  Fresh-without_self [] d = refl
  Fresh-without_self (e ∷ l) (f, d) = ground (arith, Fresh-without_self l d, bytes_eq_iff (e.0) h)

  pub find-snoc :
      (k : Text) (b : Text) (l : List Entry)
      → Fresh k l
      → find k (l ++ ((h, b) ∷ [])) ≡ (if bytes_eq h k then some b else none)
  unfolding find
  find-snoc k b [] f = refl
  find-snoc k b (e ∷ l) f = ground (arith, find-snoc k b l)

pub Distinct-snoc :
    (l : List Entry) (h b : Text) → Distinct l → Fresh h l → Distinct (l ++ ((h, b) ∷ []))
unfolding find
Distinct-snoc [] h b d f = (refl, tt)
Distinct-snoc (e ∷ l) h b (fe, d) f = (
  ground (arith, find-snoc h (e.0) b l fe, bytes_eq_iff (e.0) h, bytes_eq_iff h (e.0)),
  Distinct-snoc l h b d (ground arith),
)
