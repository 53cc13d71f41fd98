-- ===== src/Wire.antt =====
-- What runs in the background of a node: the polling loop (packages/core/src/lib/strategies/poll.ts)
-- and the timers that it is registered with (class PollingCallback of packages/core/src/lib/basics.ts).
pub mod Loop
pub mod Timers
pub mod Events
