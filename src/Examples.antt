-- ===== src/Examples.antt =====
-- The theorems at concrete inputs.
mod Data
mod Exchanges
mod Exchanged
mod Issuances
mod Claims
mod Requests
mod Discovery
mod Keys
mod Starts
mod Lineages
mod Databases
mod Granted
mod Verified
mod Refused
mod Concurrently
mod Raced
