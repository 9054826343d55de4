-- ===== src/Tests.antt =====
-- Runs of the theorems at concrete inputs.
mod Lifecycle
mod Scheduling
mod Running
mod Systems
mod Streams
mod Runtimes
mod Serving
mod Configs
mod Contexts
mod Buses
mod Logs
