-- ===== src/HeaderStore/Store.antt =====
-- `HeaderStore` of network/header_store.rs. The table is the list of its rows in the order of the heights,
-- one row for a height; the statements are executed on it, and an error of the database is not modelled.
pub mod Chain
pub mod Extend
use electrum_sv_mc.Prelude.{
  ℕ, zero, suc, ◌+◌, ◌-◌, ◌*◌, ◌/◌, ◌%◌, ◌^◌, ◌≤◌, ◌<◌, ◌≡◌, refl, sym, ap, ◌∙◌,
}
use electrum_sv_mc.Prelude.{
  ◌≢◌, ◌↔◌, ◌⊎◌, inl, inr, Bool, true, false, ◌&&◌, ◌||◌, not, Option, none, some,
}
use electrum_sv_mc.Prelude.{List, [], ◌∷◌, ◌++◌, map, arith, ltb, leb, ◌==◌, if◌then◌else◌}
use electrum_sv_mc.Prelude.{
  Result, ok, err, ◌>>=◌, ok_or, Result-cases, >>=-eq-ok, Bool-cases, Option-cases, if-elim,
}
use electrum_sv_mc.Prelude.{ltb→lt, lt→ltb, leb→le, le→leb, ltb-false, leb-false, ==_iff}
use electrum_sv_mc.Prelude.{length, get_elem?, set, take, drop, replicate, sum_of, All}
use electrum_sv_mc.Prelude.{
  length-append, sum_of-append, take-append-drop, length-take, length-drop, sum_of-take_le,
}
use electrum_sv_mc.Prelude.Word.{IsU64, wrap, wrap_small, checked_add}
use electrum_sv_mc.CoinChooser.Types.{Text}
use electrum_sv_mc.Prelude.Bytes.{bytes_eq}
use electrum_sv_mc.HeaderStore.Header.{
  NetworkError, protocol, validation, not_found, ParsedHeader, from_hex, check_pow,
}
use electrum_sv_mc.HeaderStore.Merkle.{verify_merkle_proof}

abbrev pub Row : Type 0
Row = ℕ × Text

abbrev pub Rows : Type 0
Rows = List Row

pub data ConnectResult : Type 0 where
  connected : ℕ → ConnectResult
  already_exists : ℕ → ConnectResult
  reorg : ℕ → ℕ → ConnectResult

pub record ConnectBatchResult : Type 0 where
  pub connected : ℕ
  pub reorgs : List (ℕ × ℕ)

-- `INSERT OR REPLACE`
unfoldable pub insert_row : ℕ → Text → Rows → Rows
insert_row height header_hex [] = (height, header_hex) ∷ []
insert_row height header_hex (r ∷ rows) =
    let rest = insert_row height header_hex rows in
    if ltb height (r.0)
    then (height, header_hex) ∷ r ∷ rows
    else if height == r.0
    then (height, header_hex) ∷ rows
    else r ∷ rest

-- `SELECT header_hex FROM headers WHERE height = ?`
unfoldable pub get_header : ℕ → Rows → Option Text
get_header height [] = none
get_header height (r ∷ rows) =
    let rest = get_header height rows in if height == r.0 then some (r.1) else rest

-- `ORDER BY height DESC LIMIT 1`: the last row.
unfoldable pub get_tip : Rows → Option Row
get_tip [] = none
get_tip (r ∷ []) = some r
get_tip (r ∷ s ∷ rows) = get_tip (s ∷ rows)

-- `WHERE height >= ? AND height < ? ORDER BY height ASC`
unfoldable pub get_header_range : ℕ → ℕ → Rows → Rows
get_header_range start_height count [] = []
get_header_range start_height count (r ∷ rows) =
    let rest = get_header_range start_height count rows in
    if leb start_height (r.0) && ltb (r.0) (start_height + count) then r ∷ rest else rest

abbrev pub header_count : Rows → ℕ
header_count = length

-- `DELETE FROM headers WHERE height > ?`, with the rows affected.
unfoldable pub rollback_to : ℕ → Rows → Rows × ℕ
rollback_to height [] = ([], 0)
rollback_to height (r ∷ rows) =
    let rest = rollback_to height rows in
    if ltb height (r.0) then (rest.0, suc (rest.1)) else (r ∷ rest.0, rest.1)

module _ (sha256 : List ℕ → List ℕ) (encode : List ℕ → Text) (decode : Text → Option (List ℕ))
    (genesis_hex : Text) where
  abbrev pub parse : Text → ℕ → Result NetworkError ParsedHeader
  parse = from_hex sha256 encode decode

  -- `check_pow(&hex::decode(header_hex).unwrap())`, after the hex has been decoded once.
  abbrev pub pow_of : Option (List ℕ) → Bool
  pow_of none = false
  pow_of (some raw) = check_pow sha256 raw

  abbrev pub require :
      {A : Type 0} → Bool → NetworkError → Result NetworkError A → Result NetworkError A
  require b e r = if b then r else err e

  -- What `insert_header` does with the decoded bytes.
  abbrev pub insert_raw : ℕ → Text → Rows → List ℕ → Result NetworkError Rows
  insert_raw height header_hex rows raw =
      require (length raw == 80) protocol
        (require (check_pow sha256 raw) validation (ok (insert_row height header_hex rows)))

  unfoldable pub insert_header : ℕ → Text → Rows → Result NetworkError Rows
  insert_header height header_hex rows =
      ok_or (decode header_hex) protocol >>= insert_raw height header_hex rows

  -- `if let Ok(Some(existing)) = … { if existing == header_hex …`
  abbrev pub same_hex : Text → Option Text → Bool
  same_hex header_hex none = false
  same_hex header_hex (some existing) = bytes_eq existing header_hex

  abbrev pub store_as : ConnectResult → ℕ → Text → Rows → Result NetworkError (Rows × ConnectResult)
  store_as result height header_hex rows =
      insert_header height header_hex rows >>= λ rows'. ok (rows', result)

  unfoldable pub connect_genesis :
      ParsedHeader → Text → Rows → Result NetworkError (Rows × ConnectResult)
  connect_genesis parsed header_hex rows =
      if same_hex header_hex (get_header 0 rows)
      then ok (rows, already_exists 0)
      else (parse genesis_hex 0 >>= λ genesis.
          require (bytes_eq parsed.hash genesis.hash) validation
            (store_as (connected 0) 0 header_hex rows))

  -- The reorg case: the row below, if there is one.
  unfoldable pub connect_below :
      ParsedHeader → ℕ → Text → Rows → Option Text → Result NetworkError (Rows × ConnectResult)
  connect_below parsed height header_hex rows none = err validation
  connect_below parsed height header_hex rows (some prev_hex) =
      parse prev_hex (height - 1) >>= λ prev_parsed.
      require (bytes_eq parsed.prev_hash prev_parsed.hash) validation
        (store_as (reorg (height - 1) height) height header_hex rows)

  unfoldable pub connect_tip :
      ParsedHeader → ℕ → Text → Rows → Option Row → Result NetworkError (Rows × ConnectResult)
  connect_tip parsed height header_hex rows none = err validation
  connect_tip parsed height header_hex rows (some tip) = parse (tip.1) (tip.0) >>= λ tip_parsed.
      if height == tip.0 + 1 && bytes_eq parsed.prev_hash tip_parsed.hash
      then store_as (connected height) height header_hex rows
      else if same_hex header_hex (get_header height rows)
      then ok (rows, already_exists height)
      else connect_below parsed height header_hex rows (get_header (height - 1) rows)

  unfoldable pub connect_header : ℕ → Text → Rows → Result NetworkError (Rows × ConnectResult)
  connect_header height header_hex rows = parse header_hex height >>= λ parsed.
      require (pow_of (decode header_hex)) validation (
        if height == 0
        then connect_genesis parsed header_hex rows
        else connect_tip parsed height header_hex rows (get_tip rows))

  -- `match … { Connected | AlreadyExists => …, Reorg => … }`
  abbrev pub count_result : ConnectBatchResult → ConnectResult → ConnectBatchResult
  count_result batch (connected height) = record batch { connected = batch.connected + 1 }
  count_result batch (already_exists height) = record batch { connected = batch.connected + 1 }
  count_result batch (reorg fork_point new_tip) = record batch {
    connected = batch.connected + 1;
    reorgs = batch.reorgs ++ ((fork_point, new_tip) ∷ []);
  }

  -- The rows are written as the loop runs: an error keeps those of the headers before it.
  unfoldable pub connect_from :
      ConnectBatchResult → Rows → List Row → Rows × Result NetworkError ConnectBatchResult
  connect_from batch rows [] = (rows, ok batch)
  connect_from batch rows (h ∷ headers) = elim (connect_header (h.0) (h.1) rows) [
    | err e ↦ (rows, err e)
    | ok done ↦ connect_from (count_result batch (done.1)) (done.0) headers
  ]

  unfoldable pub connect_headers : List Row → Rows → Rows × Result NetworkError ConnectBatchResult
  connect_headers headers rows = connect_from (record { connected = 0; reorgs = [] }) rows headers

  unfoldable pub ensure_genesis : Rows → Result NetworkError Rows
  ensure_genesis rows = if header_count rows == 0 then insert_header 0 genesis_hex rows else ok rows

  -- The checks of one row in `verify_chain`.
  unfoldable pub check_linked : ℕ → ParsedHeader → Option Text → Result NetworkError ParsedHeader
  check_linked height parsed prev_hash =
      if height == 0
      then (parse genesis_hex 0 >>= λ genesis.
          require (bytes_eq parsed.hash genesis.hash) validation (ok parsed))
      else elim prev_hash [
        | none ↦ ok parsed
        | some prev ↦ require (bytes_eq parsed.prev_hash prev) validation (ok parsed)
      ]

  unfoldable pub check_row : Option Text → Row → Result NetworkError ParsedHeader
  check_row prev_hash row = parse (row.1) (row.0) >>= λ parsed.
      require (pow_of (decode (row.1))) validation (check_linked (row.0) parsed prev_hash)

  unfoldable pub verify_rows : Option Text → Rows → Result NetworkError Unit
  verify_rows prev_hash [] = ok tt
  verify_rows prev_hash (row ∷ rows) = elim (check_row prev_hash row) [
    | err e ↦ err e
    | ok parsed ↦ verify_rows (some parsed.hash) rows
  ]

  unfoldable pub verify_chain : Rows → Result NetworkError ℕ
  verify_chain rows =
      if header_count rows == 0
      then ok 0
      else (verify_rows none (get_header_range 0 (header_count rows) rows) >>= λ _.
          ok (header_count rows))

  unfoldable pub verify_spv_proof : Text → ℕ → List Text → ℕ → Rows → Result NetworkError Bool
  verify_spv_proof tx_hash block_height merkle_branch pos rows =
      ok_or (get_header block_height rows) not_found >>= λ header_hex.
      parse header_hex block_height >>= λ parsed.
      ok (verify_merkle_proof sha256 decode encode tx_hash merkle_branch pos parsed.merkle_root)
