-- ===== src/Tests.antt =====
-- Runs of the modelled operations on concrete inputs.
mod Storage
mod Policy
mod Requests
mod Routes
mod Responses
mod Snapshots
mod Boundary
mod Opening
mod Paths
mod WebSocket
mod Work
mod Files
mod Config
mod ServerFn
