-- ===== src/Backend.antt =====
-- What the web interface relies on of the Python backend (backend/): the models of the request bodies,
-- the routes, and what the handlers of routes/jobs.py do to the status of a job.
pub mod Schemas
pub mod Routes
pub mod Jobs
pub mod Runner
pub mod Roles
pub mod Drain
pub mod Rebalance
