-- ===== src/Tests.antt =====
-- Tests: the theorems at concrete inputs, one file for each layer of the crate.
mod Values
mod Channels
mod Loops
mod Caches
mod Fetches
mod Pages
mod Mutations
mod Payloads
mod Storages
mod Observers
mod Snapshots
mod Streams
mod Groups
