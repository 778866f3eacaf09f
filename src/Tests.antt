-- ===== src/Tests.antt =====
-- The theorems at concrete inputs, and runs of the definitions.
mod Authority
mod Ledger
mod BusLog
mod Lifecycle
mod Negotiation
mod RateLimit
mod Claims
mod Timeouts
mod Relay
mod Plan
mod Wire
mod Policy
mod Recovery
