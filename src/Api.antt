-- ===== src/Api.antt =====
-- internal/api: requests, their validation, and the handlers over the store and the queue.
pub mod Types
pub mod Validator
pub mod Valid
pub mod Backend
pub mod Convert
pub mod Handlers
pub mod Listing
pub mod Extraction
pub mod ExtractCases
pub mod Extracting
pub mod PageExtracts
pub mod Limits
pub mod Answers
pub mod Shown
pub mod Examples
