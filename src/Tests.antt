-- ===== src/Tests.antt =====
-- Runs of the model at concrete inputs, and the theorems applied at inputs that meet their hypotheses.
mod Schedules
mod Buffers
mod Bytes
mod Pools
mod Memory
mod Channels
mod Links
mod Messages
mod Sessions
mod Rates
mod Images
mod Faults
mod Apps
mod Shutdowns
