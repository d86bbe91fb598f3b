-- ===== src/Dlpar.antt =====
-- The DLPAR test suite: `dlpar/dlpar_api/api.py` and `dlpar/dlpar_main.py`.
pub mod Host
pub mod Num
pub mod Session
pub mod Connections
pub mod Engine
pub mod Validate
pub mod Dedicated
pub mod Units
pub mod Mem
pub mod Payload
pub mod Suite
mod Tests
