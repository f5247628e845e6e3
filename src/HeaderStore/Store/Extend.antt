-- ===== src/HeaderStore/Store/Extend.antt =====
-- The table of HeaderStore of network/header_store.rs while headers are connected.
use electrum_sv_mc.Prelude.{ℕ, suc, ◌+◌, ◌-◌, ◌≤◌, ◌<◌, ◌≡◌, refl, sym, ap, ◌∙◌}
use electrum_sv_mc.Prelude.{◌⊎◌, inl, inr, Bool, true, false, ◌&&◌, Option, none, some}
use electrum_sv_mc.Prelude.{List, [], ◌∷◌, arith, ◌==◌, if◌then◌else◌}
use electrum_sv_mc.Prelude.{Result, ok, err, ok_or, >>=-eq-ok, Bool-cases}
use electrum_sv_mc.Prelude.{length}
use electrum_sv_mc.Prelude.Bytes.{bytes_eq, bytes_eq_iff}
use electrum_sv_mc.CoinChooser.Types.{Text}
use electrum_sv_mc.HeaderStore.Header.{NetworkError, protocol, validation, ParsedHeader, check_pow}
use electrum_sv_mc.HeaderStore.Store.{
  Row, Rows, ConnectResult, connected, already_exists, reorg, insert_row, get_header, get_tip,
  parse, pow_of, insert_header, connect_genesis, connect_below, connect_tip, connect_header,
  same_hex, store_as,
}
use electrum_sv_mc.HeaderStore.Store.Chain.{IsChain, no_more, linked}
use mathlib.Core.Option.{some-injective}

require-ok :
    {A : Type 0} (b : Bool) (e : NetworkError) (r : Result NetworkError A) (a : A)
    → (if b then r else err e) ≡ ok a
    → (b ≡ true) × (r ≡ ok a)
require-ok true e r a h = (refl, h)
require-ok false e r a h = cc h

if-cases :
    {A : Type 0} (b : Bool) (x y : Result NetworkError A) (a : A)
    → (if b then x else y) ≡ ok a
    → ((b ≡ true) × (x ≡ ok a)) ⊎ (y ≡ ok a)
if-cases true x y a h = inl (refl, h)
if-cases false x y a h = inr h

and-true : (b c : Bool) → (b && c) ≡ true → (b ≡ true) × (c ≡ true)
and-true true c h = (refl, h)
and-true false c h = cc h

ok-injective : {A : Type 0} {a b : A} → ◌≡◌ {A = Result NetworkError A} (ok a) (ok b) → a ≡ b
ok-injective h = cc h

insert_row-empty : (m : ℕ) (y : Text) → insert_row m y [] ≡ (m, y) ∷ []
unfolding insert_row
insert_row-empty m y = refl

insert_row-later :
    (m : ℕ) (y : Text) (r : Row) (rows : Rows)
    → r.0 < m
    → insert_row m y (r ∷ rows) ≡ r ∷ insert_row m y rows
unfolding insert_row
insert_row-later m y r rows h = ground (arith, h)

module _ (sha256 : List ℕ → List ℕ) (encode : List ℕ → Text) (decode : Text → Option (List ℕ))
    (genesis_hex : Text) where
  abbrev Chain : Option Text → ℕ → Rows → Type 0
  Chain = IsChain sha256 encode decode genesis_hex

  abbrev read : Text → ℕ → Result NetworkError ParsedHeader
  read = parse sha256 encode decode genesis_hex

  abbrev Worked : Text → Type 0
  Worked x = pow_of sha256 encode decode genesis_hex (decode x) ≡ true

  -- What is written is the row.
  insert_header-ok :
      (height : ℕ) (x : Text) (rows rows' : Rows)
      → insert_header sha256 encode decode genesis_hex height x rows ≡ ok rows'
      → insert_row height x rows ≡ rows'
  unfolding insert_header
  insert_header-ok height x rows rows' h =
      let (raw, e₁, h₁) = >>=-eq-ok (ok_or (decode x) protocol) _ h in
      let (b, h₂) = require-ok (length raw == 80) protocol _ rows' h₁ in
      let (c, h₃) =
        require-ok (check_pow sha256 raw) validation (ok (insert_row height x rows)) rows' h₂ in
      cc h₃

  -- The tip of a chain is not below its start.
  tip_le :
      (prev : Option Text) (n : ℕ) (rows : Rows) (t : Row)
      → Chain prev n rows
      → get_tip rows ≡ some t
      → n ≤ t.0
  unfolding get_tip
  tip_le prev n rows t no_more e = cc e
  tip_le prev n rows t (linked {x = x} p parses pow links no_more) e =
      let same : (n, x) ≡ t = some-injective _ _ e in rw (← same) (omega arith)
  tip_le prev n rows t (linked {x = x} p parses pow links (linked q a b c rest)) e =
      ground (arith, tip_le (some p.hash) (suc n) _ t (linked q a b c rest) e)

  -- A header after the tip, which names its hash, extends the chain.
  extend :
      (prev : Option Text) (n m : ℕ) (rows : Rows) (t : Row) (tp q : ParsedHeader) (y : Text)
      → Chain prev n rows
      → get_tip rows ≡ some t
      → m ≡ suc (t.0)
      → read (t.1) (t.0) ≡ ok tp
      → read y m ≡ ok q
      → Worked y
      → q.prev_hash ≡ tp.hash
      → Chain prev n (insert_row m y rows)
  unfolding get_tip
  extend prev n m rows t tp q y no_more e next pt py w link = cc e
  extend prev n m rows t tp q y (linked {x = x} p parses pow links no_more) e next pt py w link =
      let same : (n, x) ≡ t = some-injective _ _ e in
      let at : m ≡ suc n = next ∙ ap (λ (r : Row). suc (r.0)) (sym same) in
      let py' : read y (suc n) ≡ ok q = rw (at) at py in
      let pt' : read x n ≡ ok tp = rw (← same) at pt in
      let tip_is : p ≡ tp = ok-injective (sym parses ∙ pt') in
      rw (insert_row-later m y (n, x) [] (omega (arith, at)), insert_row-empty m y, at)
        (linked p parses pow links
          (linked q py' w (link ∙ ap (λ (h : ParsedHeader). h.hash) (sym tip_is)) no_more))
  extend prev n m rows t tp q y
        (linked {x = x} {rows = more} p parses pow links
          (linked {x = x'} {rows = rest'} q' a b c rest))
        e next pt py w link =
      let above : n < t.0 = tip_le (some p.hash) (suc n) _ t (linked q' a b c rest) e in
      rw (insert_row-later m y (n, x) ((suc n, x') ∷ rest') (omega (arith, next, above))) (
        linked p parses pow links
          (extend (some p.hash) (suc n) m _ t tp q y (linked q' a b c rest) e next pt py w link))

  -- The first header, with the hash of the genesis header, starts the chain or takes the place of the first.
  replace_first :
      (rows : Rows) (q g : ParsedHeader) (y : Text)
      → Chain none 0 rows
      → read genesis_hex 0 ≡ ok g
      → read y 0 ≡ ok q
      → Worked y
      → q.hash ≡ g.hash
      → Chain none 0 (insert_row 0 y rows)
  unfolding insert_row
  replace_first rows q g y no_more pg py w same = linked q py w (g, pg, same) no_more
  replace_first rows q g y (linked p parses pow (g', pg', same') rest) pg py w same =
      let one : g ≡ g' = ok-injective (sym pg ∙ pg') in
      let hash_is : p.hash ≡ q.hash =
        same' ∙ ap (λ (h : ParsedHeader). h.hash) (sym one) ∙ sym same in
      linked q py w (g, pg, same) (rw (← hash_is) rest)

  -- What a step gives, if it is not a reorganisation.
  abbrev pub KeepsChain : Rows → ConnectResult → Type 0
  KeepsChain rows r = Chain none 0 rows ⊎ ((fork : ℕ) × ((tip : ℕ) × (r ≡ reorg fork tip)))

  store_as-ok :
      (result r : ConnectResult) (height : ℕ) (y : Text) (rows rows' : Rows)
      → store_as sha256 encode decode genesis_hex result height y rows ≡ ok (rows', r)
      → (insert_row height y rows ≡ rows') × (r ≡ result)
  store_as-ok result r height y rows rows' h =
      let (written, e, h') =
        >>=-eq-ok (insert_header sha256 encode decode genesis_hex height y rows) _ h in
      let pair = ok-injective h' in
      (
        insert_header-ok height y rows written e ∙ ap (λ (p : Rows × ConnectResult). p.0) pair,
        sym (ap (λ (p : Rows × ConnectResult). p.1) pair),
      )

  connect_genesis-KeepsChain :
      (q : ParsedHeader) (y : Text) (rows rows' : Rows) (r : ConnectResult)
      → Chain none 0 rows
      → read y 0 ≡ ok q
      → Worked y
      → connect_genesis sha256 encode decode genesis_hex q y rows ≡ ok (rows', r)
      → KeepsChain rows' r
  unfolding connect_genesis
  connect_genesis-KeepsChain q y rows rows' r chain py w h =
      elim (Bool-cases (same_hex sha256 encode decode genesis_hex y (get_header 0 rows))) [
        | inl b ↦
            let pair = ok-injective (rw (b, connect_genesis) at h) in
            inl (rw (← ap (λ (p : Rows × ConnectResult). p.0) pair) chain)
        | inr b ↦
            let (g, pg, h₁) = >>=-eq-ok (read genesis_hex 0) _ (rw (b, connect_genesis) at h) in
            let (same, h₂) =
              require-ok (bytes_eq q.hash g.hash) validation
                (store_as sha256 encode decode genesis_hex (connected 0) 0 y rows) (rows', r) h₁ in
            let (written, kind) = store_as-ok (connected 0) r 0 y rows rows' h₂ in
            inl (
              rw (← written)
                (replace_first rows q g y chain pg py w ((bytes_eq_iff q.hash g.hash).0 same)))
      ]

  connect_below-reorg :
      (q : ParsedHeader) (height : ℕ) (y : Text) (rows rows' : Rows) (below : Option Text)
      (r : ConnectResult)
      → connect_below sha256 encode decode genesis_hex q height y rows below ≡ ok (rows', r)
      → r ≡ reorg (height - 1) height
  unfolding connect_below
  connect_below-reorg q height y rows rows' none r h = cc h
  connect_below-reorg q height y rows rows' (some x) r h =
      let (p, e, h₁) = >>=-eq-ok (read x (height - 1)) _ h in
      let (same, h₂) =
        require-ok (bytes_eq q.prev_hash p.hash) validation
          (store_as sha256 encode decode genesis_hex (reorg (height - 1) height) height y rows)
          (rows', r) h₁ in
      (store_as-ok (reorg (height - 1) height) r height y rows rows' h₂).1

  connect_tip-KeepsChain :
      (q : ParsedHeader) (height : ℕ) (y : Text) (rows rows' : Rows) (tip : Option Row)
      (r : ConnectResult)
      → Chain none 0 rows
      → read y height ≡ ok q
      → Worked y
      → get_tip rows ≡ tip
      → connect_tip sha256 encode decode genesis_hex q height y rows tip ≡ ok (rows', r)
      → KeepsChain rows' r
  unfolding connect_tip
  connect_tip-KeepsChain q height y rows rows' none r chain py w at h = cc h
  connect_tip-KeepsChain q height y rows rows' (some t) r chain py w at h =
      let (tp, pt, h₁) = >>=-eq-ok (read (t.1) (t.0)) _ h in
      elim (if-cases (height == t.0 + 1 && bytes_eq q.prev_hash tp.hash)
        (store_as sha256 encode decode genesis_hex (connected height) height y rows) _ (rows', r)
        h₁) [
          | inl (both, stored) ↦
              let (next, link) = and-true (height == t.0 + 1) _ both in
              let (written, kind) = store_as-ok (connected height) r height y rows rows' stored in
              inl (
                rw (← written) (
                  extend none 0 height rows t tp q y chain at (ground (arith, next)) pt py w
                    ((bytes_eq_iff q.prev_hash tp.hash).0 link)))
          | inr other ↦
              elim (if-cases (same_hex sha256 encode decode genesis_hex y (get_header height rows))
                (ok (rows, already_exists height)) _ (rows', r) other) [
                  | inl (known, kept) ↦
                      inl (rw (← ap (λ (p : Rows × ConnectResult). p.0) (ok-injective kept)) chain)
                  | inr below ↦ inr (
                    height - 1,
                    (
                      height,
                      connect_below-reorg q height y rows rows' (get_header (height - 1) rows) r
                          below,
                    ),
                  )
                ]
        ]

  -- From a table that holds a chain from the genesis header on, connect_header leaves such a chain, whatever it
  -- answers, unless it answers with a reorganisation.
  pub connect_header-KeepsChain :
      (height : ℕ) (y : Text) (rows rows' : Rows) (r : ConnectResult)
      → IsChain sha256 encode decode genesis_hex none 0 rows
      → connect_header sha256 encode decode genesis_hex height y rows ≡ ok (rows', r)
      → KeepsChain rows' r
  unfolding connect_header
  connect_header-KeepsChain height y rows rows' r chain h =
      let (q, py, h₁) = >>=-eq-ok (read y height) _ h in
      let (w, h₂) =
        require-ok (pow_of sha256 encode decode genesis_hex (decode y)) validation _ (rows', r)
          h₁ in
      elim (if-cases (height == 0) (connect_genesis sha256 encode decode genesis_hex q y rows) _
        (rows', r) h₂) [
          | inl (zero_is, first) ↦
              let at : height ≡ 0 = ground (arith, zero_is) in
              connect_genesis-KeepsChain q y rows rows' r chain (rw (at) at py) w first
          | inr later ↦
              connect_tip-KeepsChain q height y rows rows' (get_tip rows) r chain py w refl later
        ]
