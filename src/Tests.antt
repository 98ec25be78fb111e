-- ===== src/Tests.antt =====
-- The theorems at concrete inputs.
mod Verdicts
mod Behaviors
mod Analyses
mod Signing
mod Judging
mod Scans
mod Updating
mod Control
mod Packages
mod Rollbacks
mod Quarantines
mod Guards
mod Alarms
mod Threats
mod Watches
