-- ===== src/Store.antt =====
-- internal/store: the jobs table and the statements that the program sends to PostgreSQL.
pub mod Types
pub mod Table
pub mod Jobs
pub mod Laws
pub mod Reads
pub mod History
pub mod Kept
pub mod Listing
pub mod Paging
pub mod Sorted
pub mod Connect
pub mod Connecting
pub mod Examples
