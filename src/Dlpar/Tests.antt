-- ===== src/Dlpar/Tests.antt =====
-- The theorems about dlpar/dlpar_api/api.py and dlpar/dlpar_main.py at concrete sessions.
mod Hosts
mod Operations
mod Amounts
mod Adding
mod Ends
