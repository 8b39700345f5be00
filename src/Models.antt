-- ===== src/Models.antt =====
-- The tables of the database, one module for each models.py: relay/common, relay/tenancy,
-- relay/content, relay/approvals, relay/audit, relay/social and relay/publications.
-- Every row has the `id` of TimeStampedUUIDModel where it is looked up by it. `created_at` is kept
-- where a query sorts by it, and `updated_at`, which is only shown, is not.
pub mod Lifecycle
pub mod Tenancy
pub mod Content
pub mod Approvals
pub mod Audit
pub mod Social
pub mod Publications
