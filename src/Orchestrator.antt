-- ===== src/Orchestrator.antt =====
-- app/orchestrator.py: one strategy's loop, iteration by iteration.
pub mod World
pub mod Calls
pub mod Final
pub mod Resting
pub mod Enter
pub mod Leave
pub mod Iteration
pub mod Startup
pub mod Quiet
pub mod Managed
pub mod Acting
pub mod Safety
pub mod Turns
pub mod Stopping
pub mod Starting
pub mod Adopted
pub mod Closing
pub mod Canceling
pub mod Ended
pub mod Trade
pub mod Sent
pub mod Asked
pub mod Exiting
