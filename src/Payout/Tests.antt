-- ===== src/Payout/Tests.antt =====
-- Runs of the gateway on concrete calls.
mod Samples
mod Runs
mod Histories
mod Failures
mod Memory
