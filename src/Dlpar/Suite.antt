-- ===== src/Dlpar/Suite.antt =====
-- dlpar/dlpar_main.py, `DlparTests`: the set-up and the tests.
pub mod SetUp
pub mod Outcome
pub mod Cpu
pub mod Memory
pub mod Console
pub mod Adding
pub mod Filling
pub mod Removing
pub mod Backup
pub mod Smt
