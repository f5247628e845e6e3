-- ===== src/Examples.antt =====
-- Runs of the models on concrete inputs: the theorems applied, and small tests.
mod Payment
mod Choice
mod Store
mod Servers
mod Plans
mod Scripts
mod Mnemonic
