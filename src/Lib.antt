-- ===== src/Lib.antt =====
-- A verification library for the wallet core of ElectrumSV-MC (src-tauri/src). It models the code that
-- decides which coins are spent and what a transaction pays, the plans that the wallet signs and
-- broadcasts, the signers and their scripts, the cache of transaction bytes, the header store that
-- verifies the chain, and the list of servers. Each definition is a translation of the Rust code by clauses.
--
-- The parts, and the code each one models (paths below src-tauri/src):
--   Transaction      core/transaction.rs. Types has the data and FeeEstimator; Select has
--                    CoinSelector::select; Build has TxBuilder::build_unsigned. build_unsigned calls
--                    select in a loop until the fee is that of the selection, or the coin chooser.
--   CoinChooser      core/coinchooser.rs. Bnb has select_bnb, bnb_recursive and
--                    fallback_largest_first; Prng the deterministic generator; Random the buckets,
--                    bucket_candidates and strip_unneeded; Chooser the penalties, assemble_result,
--                    select_random and CoinChooser::select.
--   Cache            db/cache.rs. Lru has LruCache: set (set_bytes), get, remove, contains and
--                    set_max_size; Transactions has TxFlags and TransactionCache, which keeps an
--                    LruCache beside the table of metadata.
--   HeaderStore      network/header_store.rs. Header has ParsedHeader, target_from_bits and check_pow;
--                    Merkle has verify_merkle_proof; Store has the operations of HeaderStore on the
--                    rows of the table.
--   Servers          network/server_list.rs. Health has ServerHealth: states, back-off, ban,
--                    eligibility; List has ServerList, its active index and select_best.
--   Signer           core/signer.rs. LocalSigner and MultisigSigner, which calls
--                    build_unlocking_script of Multisig.
--   Multisig         core/multisig.rs: pushes, the accumulator script, its unlocking script and
--                    RIPEMD-160.
--   Plans            commands/transactions.rs and state.rs. Plans has the store of plans and sign_tx,
--                    Cosign sign_multisig_tx; both call Signer. Prepare has prepare_tx, which calls
--                    build_unsigned and create_plan and stores the plan; Broadcast has broadcast_tx
--                    and estimate_fee; Trace has sequences of calls;
--                    Signed follows a plan from prepare_tx to the signed transaction.
--   LegacyMnemonic   core/legacy_mnemonic.rs: hex digits as words of a table, and back.
--   Bip276           features/bip276.rs: encoding and decoding of URIs.
--   OpReturn         features/op_return_decode.rs: data chunks, protocols and their decoders.
--   Prelude          lists, sorting, words, results and tests that the parts share.
--   Examples         the theorems applied at concrete inputs, and runs of the models.
--
-- Machine integers are natural numbers. The models are those of a release build on a 64-bit machine:
-- an operation on u64 that the code does not check wraps, written `wrap` (`% 2 ^ 64`), and
-- saturating_sub is the subtraction that stops at 0. Strings and byte vectors are lists of numbers. A
-- panic is the outer `none` of a result. i64 identifiers are only compared.
--
-- Loops: fee_loop runs on one round more than there are coins, and the fee grows with the number of
-- selected coins until it is stable. randint_loop has eight rounds, since p is shifted by 8 bits up to
-- a range of at most 2 ^ 64; refill has as many rounds as bytes are asked for. All other loops are
-- structural recursions.
--
-- Parameters: SHA-256 (documented: its output has 32 bytes), the order in which a HashMap yields its
-- entries (documented: each of them once), the calls of the SDK (the records Signer.Sdk and
-- Plans.Prepare.Tools; what is documented of its keys and transactions is IsWorking of Plans/Signed),
-- HASH160, the answers
-- of the clock, the database, the TOTP check and the network in one call, the table of legacy
-- words, the SDK's locking script of an address and its OP_RETURN script, and hex encoding and
-- decoding (documented: decoding undoes encoding, which gives two lower-case characters for a byte). The SQL statements of the header store are
-- functions on the list of rows in the order of heights below 2 ^ 63; an error of the database is not
-- modelled.
--
-- Not modelled: the texts of errors and flags, the default servers, TOTP, the words of the
-- legacy table, the other feature services, the network clients, the repositories of the database, key
-- derivation (thin layers over libraries), the other commands and the user interface. A command is one
-- step: the locks between its parts are not modelled, and the plan store is locked for a whole access.
pub mod Prelude
pub mod CoinChooser
pub mod Transaction
pub mod Cache
pub mod LegacyMnemonic
pub mod Multisig
pub mod Bip276
pub mod OpReturn
pub mod Plans
pub mod Signer
pub mod HeaderStore
pub mod Servers
mod Examples
