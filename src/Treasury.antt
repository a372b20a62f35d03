-- ===== src/Treasury.antt =====
-- The administration of the treasury, admin-frontend/src/components/treasury.
mod Types
pub mod Utils
mod Forms
mod Plans
mod Draft
mod Execution
mod Executable
mod TokenOperations
mod RoundTrip
mod MetadataStore
mod Allocation
mod Ordering
mod Tests
