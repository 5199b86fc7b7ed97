-- ===== src/Windows.antt =====
-- The receiver on Windows: bridge/windows/observer.py.
pub mod Keys
pub mod Config
pub mod State
pub mod Removals
pub mod Commands
pub mod Progress
pub mod Broker
pub mod Helper
pub mod Scan
pub mod Session
pub mod Client
