-- ===== src/Tour.antt =====
-- tour.c and tour.h: the tour message, how it is started and passed on.
mod Tests
mod RunTests
mod HaltTests
pub mod Args
pub mod Message
pub mod Travel
pub mod Sockets
pub mod Run
pub mod Main
pub mod Loop
pub mod Keeps
pub mod Opens
pub mod Closes
pub mod Joins
pub mod Once
pub mod Halts
pub mod Overread
pub mod Print
pub mod Relay
pub mod Start
pub mod Visits
