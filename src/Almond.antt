-- ===== src/Almond.antt =====
-- The part of the server that runs the users' engines (almond/).
pub mod EngineProcess
pub mod EngineManager
pub mod ManagerClient
pub mod Master
pub mod Worker
