-- ===== src/Contract.antt =====
-- How the interface (frontend/src) and the backend (backend/) fit: the requests of the hooks against the
-- routes, and the buttons on a job against the handlers.
pub mod Requests
pub mod Forms
pub mod Keys
pub mod Cluster
pub mod Rows
pub mod Jobs
pub mod Busy
pub mod Roles
pub mod Drains
