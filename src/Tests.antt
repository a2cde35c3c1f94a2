-- ===== src/Tests.antt =====
-- Runs of the models at fixed inputs.
mod Clipboard
mod Control
mod Editor
mod Gateway
mod Hierarchy
mod Scheduler
mod Topology
