-- ===== src/Library.antt =====
-- The services together: sequences of the calls that the handlers and the background jobs of
-- cmd/api/main.go make, and what stands after any of them.
pub mod Untouched
pub mod Calls
pub mod LendSteps
pub mod CatalogueSteps
pub mod EditCopySteps
pub mod QueueSteps
pub mod History
