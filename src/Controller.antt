-- ===== src/Controller.antt =====
-- internal/controller: the reconcilers, and the pipeline that joins the components.
pub mod Incident
pub mod Policy
pub mod Pipeline
pub mod Platform
