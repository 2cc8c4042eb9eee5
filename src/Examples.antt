-- ===== src/Examples.antt =====
-- The theorems applied to concrete runs, and tests of the definitions.
mod Fixtures
mod Serving
mod Receiving
mod Naming
mod Writing
mod Polling
mod Starting
mod Delivering
mod Fetching
mod Idling
mod Rotating
mod Closing
mod Crowding
mod Running
mod Opening
