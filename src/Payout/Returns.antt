-- ===== src/Payout/Returns.antt =====
-- What holds when an operation of the gateway returns: rules that follow the `do` blocks, and the
-- effect of each successful operation on the queue.
pub mod Rules
pub mod Decided
pub mod Executed
pub mod Dotted
pub mod Refused
