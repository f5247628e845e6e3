-- ===== src/CoinChooser.antt =====
-- src-tauri/src/core/coinchooser.rs: branch and bound, the random subset and the privacy strategies.
pub mod Types
pub mod Bnb
pub mod Prng
pub mod Random
pub mod Chooser
