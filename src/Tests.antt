-- ===== src/Tests.antt =====
-- Runs of the definitions on concrete inputs, and the properties at concrete inputs.
mod Chain
mod Texts
mod Block
mod Treasury
mod Sweeping
mod Signing
mod Search
mod Books
mod Releases
mod Monitor
mod Patching
