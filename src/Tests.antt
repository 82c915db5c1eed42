-- ===== src/Tests.antt =====
-- The theorems at concrete inputs.
mod Data
mod Access
mod Records
mod Runs
mod Services
mod Trust
mod Teams
mod Bundles
