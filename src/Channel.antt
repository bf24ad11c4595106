-- ===== src/Channel.antt =====
-- nsqd/channel.go: what a channel confirms to its disk queue, and its messages in flight.
pub mod Backend
pub mod Confirm
pub mod Flight
pub mod Confirmed
mod Tests
