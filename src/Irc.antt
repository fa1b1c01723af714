-- ===== src/Irc.antt =====
-- pkg/dal/irc: the IRC wire format and the client connection.
pub mod Message
pub mod Conn
