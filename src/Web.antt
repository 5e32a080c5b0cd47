-- ===== src/Web.antt =====
-- The parts behind the local web interface (src/web).
pub mod Job
pub mod Registry
pub mod Runner
pub mod Json
pub mod Http
pub mod Api
