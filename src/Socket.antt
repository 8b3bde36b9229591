-- ===== src/Socket.antt =====
-- gateserver/: the socket server. A server owns 65536 socket slots; clients reserve a slot, send a
-- request down the control pipe, and the poll thread carries the request out and turns the events
-- of epoll into messages.
pub mod Types
pub mod Slots
pub mod Send
pub mod Commands
pub mod Events
pub mod Poll
pub mod Api
pub mod Reserve
pub mod Race
pub mod Wire
pub mod Tidy
pub mod Life
pub mod Same
pub mod Local
pub mod Closing
pub mod Invariant
pub mod Silent
pub mod Served
pub mod Stream
pub mod Listen
pub mod Epoll
pub mod Unread
pub mod Handled
pub mod Rounds
pub mod Reach
mod Tests
