-- ===== src/Engine.antt =====
-- The engine of internal/app/engine: what it does around the components that it owns.
pub mod Crashes
pub mod KillSwitch
pub mod Dispatch
pub mod NotionalGate
pub mod Processes
