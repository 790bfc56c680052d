-- ===== src/Ping.antt =====
-- ping.c and ping.h: the Internet checksum, and the list of pinging threads.
mod Tests
mod EchoTests
pub mod Checksum
pub mod Threads
pub mod Echo
pub mod Replies
