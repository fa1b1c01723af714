-- ===== src/Irc/Conn.antt =====
-- pkg/dal/irc/conn.go and numerics.go: one connection to a server. The read loop and the callers
-- take the connection's locks for each step, so a run is a sequence of the steps below. A pending
-- request is shared between the table of pending requests and the caller that waits on it: requests
-- live in a store, and the table and the waiting caller hold a request's number. What the
-- environment decides is an argument of each step: the time, and the error of a write, if any.
pub mod Table
pub mod State
pub mod Handle
pub mod Calls
pub mod Pending
pub mod Event
pub mod Written
pub mod Steps
pub mod Correlation
pub mod Replies
