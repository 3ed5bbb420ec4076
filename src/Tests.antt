-- ===== src/Tests.antt =====
-- Runs of the model at concrete data, and the theorems at inputs where their hypotheses hold.
mod Machines
mod Objects
mod Members
mod Plans
mod Bindings
mod Receipts
mod Repairs
mod Passes
mod Refusals
mod Discoveries
