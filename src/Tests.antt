-- ===== src/Tests.antt =====
-- The theorems at concrete inputs.
mod Data
mod Storage
mod Paths
mod Migration
mod Index
mod Others
mod Machines
mod Sound
mod Runs
mod Clients
mod Libraries
