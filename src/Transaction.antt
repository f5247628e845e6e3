-- ===== src/Transaction.antt =====
-- src-tauri/src/core/transaction.rs: fees, coin selection and the unsigned transaction.
pub mod Types
pub mod Select
pub mod Build
