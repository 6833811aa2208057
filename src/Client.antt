-- ===== src/Client.antt =====
-- src/client.rs: `QueryClient`, the cache and what happens to it. `Core` has the state and the
-- notifications, `Data` reads and writes, `Bulk` the operations over filters, `Lifecycle` mounting,
-- reconnection and the activity counters; the others prove.
pub mod Core
pub mod Data
pub mod Bulk
pub mod Lifecycle
pub mod Reads
pub mod Marks
pub mod Removal
pub mod Selection
pub mod Mounting
pub mod Flight
pub mod Pages
pub mod Paging
