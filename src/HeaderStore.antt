-- ===== src/HeaderStore.antt =====
-- Block headers, proof of work, Merkle proofs and the header chain of network/header_store.rs.
pub mod Header
pub mod Merkle
pub mod Store
