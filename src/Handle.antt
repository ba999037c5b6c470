-- ===== src/Handle.antt =====
-- include/details/handle.hpp: one handle of a service, with its message cache and the thread that
-- talks to the hosts. The sockets are ZeroMQ's: what they answer is an argument of each step.
pub mod State
pub mod Wire
pub mod Controls
pub mod Sending
pub mod Receiving
pub mod Loop
pub mod Commands
pub mod Delivery
pub mod Quiet
pub mod Drain
pub mod Answers
pub mod Sockets
pub mod Connected
pub mod Responses
pub mod Batches
pub mod Resending
