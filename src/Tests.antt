-- ===== src/Tests.antt =====
-- The theorems at concrete inputs.
mod Host
mod Agent
mod Tables
mod Addresses
mod Networks
mod Firewall
mod Backend
mod Quota
mod Dedicated
mod Resizing
