-- ===== src/Training.antt =====
-- The training controller (training/): the table of jobs, the daemon that starts them, and one job.
pub mod Jobs
pub mod Job
pub mod Daemon
