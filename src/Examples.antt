-- ===== src/Examples.antt =====
-- The theorems at concrete inputs, and tests of the definitions.
mod Coordinator
mod Domain
mod Job
mod Kept
mod Payload
mod Piece
mod Planner
mod Recovery
mod Registry
mod Storage
mod Worker
mod Probe
mod Store
mod Swarm
mod Config
mod RateLimiter
