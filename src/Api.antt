-- ===== src/Api.antt =====
-- frontend/src/api: the HTTP client, the payload types and the hooks that call the backend.
pub mod Json
pub mod Storage
pub mod Client
pub mod Es
pub mod Jobs
pub mod Clusters
pub mod Mutation
pub mod Queries
pub mod Operations
pub mod Refresh
pub mod Bodies
