-- ===== src/HeaderStore/Store/Chain.antt =====
-- The chain that the rows of `HeaderStore` of network/header_store.rs hold.
use electrum_sv_mc.Prelude.{ℕ, suc, ◌+◌, ◌≤◌, ◌<◌, ◌≡◌, refl, ap, sym, ◌∙◌}
use electrum_sv_mc.Prelude.{◌↔◌, inl, inr, Bool, if◌then◌else◌, true, false, Option, none, some}
use electrum_sv_mc.Prelude.{List, [], ◌∷◌, arith, ◌==◌}
use electrum_sv_mc.Prelude.{Result, ok, err, Result-cases, >>=-eq-ok}
use electrum_sv_mc.Prelude.{lt→ltb, le→leb}
use electrum_sv_mc.Prelude.{length}
use electrum_sv_mc.CoinChooser.Types.{Text}
use electrum_sv_mc.Prelude.Bytes.{bytes_eq_refl, bytes_eq_iff}
use electrum_sv_mc.HeaderStore.Header.{NetworkError, ParsedHeader}
use electrum_sv_mc.HeaderStore.Store.{
  Row, Rows, get_header_range, parse, pow_of, check_linked, check_row, header_count,
}
use electrum_sv_mc.HeaderStore.Store.{verify_rows, verify_chain}

require-ok :
    {A : Type 0} (b : Bool) (e : NetworkError) (r : Result NetworkError A) (a : A)
    → (if b then r else err e) ≡ ok a
    → (b ≡ true) × (r ≡ ok a)
require-ok true e r a h = (refl, h)
require-ok false e r a h = cc h

module _ (sha256 : List ℕ → List ℕ) (encode : List ℕ → Text) (decode : Text → Option (List ℕ))
    (genesis_hex : Text) where
  -- What a header has to refer to: the row before it, or the genesis hash.
  abbrev pub LinksTo : Option Text → ParsedHeader → Type 0
  LinksTo none p =
      (g : ParsedHeader) × (parse sha256 encode decode genesis_hex genesis_hex 0 ≡ ok g)
      × (p.hash ≡ g.hash)
  LinksTo (some prev) p = p.prev_hash ≡ prev

  -- A chain from a height on: contiguous, every header with its proof of work and its link.
  pub data IsChain : Option Text → ℕ → Rows → Type 0 where
    no_more : {prev : Option Text} {n : ℕ} → IsChain prev n []
    linked :
        {prev : Option Text} {n : ℕ} {x : Text} {rows : Rows} (p : ParsedHeader)
        → parse sha256 encode decode genesis_hex x n ≡ ok p
        → pow_of sha256 encode decode genesis_hex (decode x) ≡ true
        → LinksTo prev p
        → IsChain (some p.hash) (suc n) rows
        → IsChain prev n ((n, x) ∷ rows)

  -- A row is checked against the genesis exactly if nothing stands before it.
  abbrev AtStart : Option Text → ℕ → Type 0
  AtStart none n = n ≡ 0
  AtStart (some prev) n = 0 < n

  abbrev check : Option Text → Row → Result NetworkError ParsedHeader
  check = check_row sha256 encode decode genesis_hex

  check_linked-ok :
      (prev : Option Text) (n : ℕ) (p : ParsedHeader)
      → AtStart prev n
      → LinksTo prev p
      → check_linked sha256 encode decode genesis_hex n p prev ≡ ok p
  unfolding check_linked
  check_linked-ok none n p start (g, parses, same) = rw (start, parses, same, bytes_eq_refl g.hash)
  check_linked-ok (some prev) n p start same =
      let later : (n == 0) ≡ false = ground arith in rw (later, same, bytes_eq_refl prev)

  check_row-ok :
      (prev : Option Text) (n : ℕ) (x : Text) (p : ParsedHeader)
      → AtStart prev n
      → parse sha256 encode decode genesis_hex x n ≡ ok p
      → pow_of sha256 encode decode genesis_hex (decode x) ≡ true
      → LinksTo prev p
      → check prev (n, x) ≡ ok p
  unfolding check_row
  check_row-ok prev n x p start parses pow links =
      rw (parses, pow) (check_linked-ok prev n p start links)

  verify_rows-IsChain :
      (prev : Option Text) (n : ℕ) (rows : Rows)
      → AtStart prev n
      → IsChain prev n rows
      → verify_rows sha256 encode decode genesis_hex prev rows ≡ ok tt
  unfolding verify_rows
  verify_rows-IsChain prev n rows start no_more = refl
  verify_rows-IsChain prev n rows start (linked {x = x} {rows = more} p parses pow links rest) =
      rw (check_row-ok prev n x p start parses pow links, verify_rows)
        (verify_rows-IsChain (some p.hash) (suc n) more (omega arith) rest)

  whole_range :
      (prev : Option Text) (n count : ℕ) (rows : Rows)
      → n + length rows ≤ count
      → IsChain prev n rows
      → get_header_range 0 count rows ≡ rows
  unfolding get_header_range
  whole_range prev n count rows fits no_more = refl
  whole_range prev n count rows fits (linked {x = x} {rows = more} p parses pow links rest) = rw (
    le→leb 0 n (omega arith),
    lt→ltb n (0 + count) (omega arith),
    whole_range (some p.hash) (suc n) count more (omega arith) rest,
  )

  -- Soundness of the checks of one row.
  check_linked-LinksTo :
      (prev : Option Text) (n : ℕ) (p q : ParsedHeader)
      → AtStart prev n
      → check_linked sha256 encode decode genesis_hex n p prev ≡ ok q
      → LinksTo prev p × (q ≡ p)
  unfolding check_linked
  check_linked-LinksTo none n p q start h =
      let (g, parses, h') =
        >>=-eq-ok (parse sha256 encode decode genesis_hex genesis_hex 0) _ (rw start at h) in
      let (same, e) = require-ok _ _ _ _ h' in
      ((g, parses, (bytes_eq_iff p.hash g.hash).0 same), cc e)
  check_linked-LinksTo (some prev) n p q start h =
      let later : (n == 0) ≡ false = ground arith in
      let (same, e) = require-ok _ _ _ _ (rw later at h) in
      ((bytes_eq_iff p.prev_hash prev).0 same, cc e)

  check_row_sound :
      (prev : Option Text) (n : ℕ) (x : Text) (q : ParsedHeader)
      → AtStart prev n
      → check prev (n, x) ≡ ok q
      → (parse sha256 encode decode genesis_hex x n ≡ ok q)
        × (pow_of sha256 encode decode genesis_hex (decode x) ≡ true)
        × LinksTo prev q
  unfolding check_row
  check_row_sound prev n x q start h =
      let (p, parses, h') = >>=-eq-ok (parse sha256 encode decode genesis_hex x n) _ h in
      let (pow, h'') = require-ok _ _ _ _ h' in
      let (links, same) = check_linked-LinksTo prev n p q start h'' in
      (rw same parses, pow, rw same links)

  -- The heights are consecutive.
  abbrev pub IsNumbered : ℕ → Rows → Type 0
  IsNumbered n [] = Unit {0}
  IsNumbered n (row ∷ rows) = (row.0 ≡ n) × IsNumbered (suc n) rows

  verify_rows_sound :
      (prev : Option Text) (n : ℕ) (rows : Rows)
      → AtStart prev n
      → IsNumbered n rows
      → verify_rows sha256 encode decode genesis_hex prev rows ≡ ok tt
      → IsChain prev n rows
  unfolding verify_rows
  verify_rows_sound prev n [] start numbered h = no_more
  verify_rows_sound prev n ((k, x) ∷ rows) start (same, numbered) h =
      elim (Result-cases (check prev (n, x))) [
        | inr (e, he) ↦ cc (rw (same, he, verify_rows) at h)
        | inl (q, hq) ↦
            let (parses, pow, links) = check_row_sound prev n x q start hq in
            let rest =
              verify_rows_sound (some q.hash) (suc n) rows (omega arith) numbered
                (rw (same, hq, verify_rows) at h) in
            rw same (linked q parses pow links rest)
      ]

  numbered_range :
      (n count : ℕ) (rows : Rows)
      → n + length rows ≤ count
      → IsNumbered n rows
      → get_header_range 0 count rows ≡ rows
  unfolding get_header_range
  numbered_range n count [] fits numbered = refl
  numbered_range n count ((k, x) ∷ rows) fits (same, numbered) = rw (
    le→leb 0 k (omega arith),
    lt→ltb k (0 + count) (omega arith),
    numbered_range (suc n) count rows (omega arith) numbered,
  )

  verify_chain-accepts :
      (rows : Rows)
      → IsChain none 0 rows
      → verify_chain sha256 encode decode genesis_hex rows ≡ ok (length rows)
  unfolding verify_chain
  verify_chain-accepts rows c =
      rw
        (
          whole_range none 0 (length rows) rows (omega arith) c,
          verify_rows-IsChain none 0 rows refl c,
        )
        (ground arith)

  verify_chain_sound :
      (rows : Rows) (n : ℕ)
      → IsNumbered 0 rows
      → verify_chain sha256 encode decode genesis_hex rows ≡ ok n
      → IsChain none 0 rows × (n ≡ length rows)
  unfolding verify_chain
  verify_chain_sound [] n numbered h = (no_more, cc h)
  verify_chain_sound (row ∷ rows) n numbered h =
      let some_row : (header_count (row ∷ rows) == 0) ≡ false = ground arith in
      let whole = numbered_range 0 (length (row ∷ rows)) (row ∷ rows) (omega arith) numbered in
      let (done, e, h') =
        >>=-eq-ok (verify_rows sha256 encode decode genesis_hex none (row ∷ rows)) _
          (rw (some_row, whole) at h) in
      (verify_rows_sound none 0 (row ∷ rows) refl numbered e, cc h')

  -- On rows with the heights 0, 1, 2 and so on, `verify_chain` accepts with a count exactly if the rows are a chain
  -- of this length from the genesis header on: each header parses, has its proof of work, and refers to the hash of
  -- the header before it.
  pub verify_chain-IsChain :
      (rows : Rows) (n : ℕ)
      → IsNumbered 0 rows
      → (verify_chain sha256 encode decode genesis_hex rows ≡ ok n)
        ↔ (IsChain none 0 rows × (n ≡ length rows))
  verify_chain-IsChain rows n numbered =
      (verify_chain_sound rows n numbered, λ p. verify_chain-accepts rows (p.0) ∙ ap ok (sym (p.1)))
