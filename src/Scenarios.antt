-- ===== src/Scenarios.antt =====
-- The theorems at concrete inputs, and the inputs.
mod Fixtures
mod Server
mod Reading
mod Service
mod Control
mod Settings
mod Process
mod Redis
mod Guard
mod Databases
mod Values
mod Stores
mod Events
mod Queries
