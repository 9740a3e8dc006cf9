-- ===== src/Tests.antt =====
-- The theorems at concrete inputs.
mod Data
mod Ledgers
mod Engine
mod Accounts
mod Journal
mod Transfers
mod Hosts
mod Apps
mod Wire
mod Bin
mod Pendings
mod Scans
mod Sessions
