-- ===== src/Tests.antt =====
-- The theorems at concrete inputs, and concrete runs.
mod Dhcp6Runs
mod Dhcp4Runs
mod StoreRuns
mod DnsRuns
mod Uint128Runs
mod V6Runs
mod LifecycleRuns
mod ValuesRuns
mod ReplyRuns
mod OfferRuns
mod QuarantineRuns
mod HostRuns
mod ServerRuns
