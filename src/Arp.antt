-- ===== src/Arp.antt =====
-- arp.c and arp.h: the ARP daemon.
mod Tests
mod HandlerTests
mod RunTests
mod ExchangeTests
mod ClientTests
mod ListenTests
mod SelectTests
pub mod Fixtures
pub mod Select
pub mod Run
pub mod Listen
pub mod Main
pub mod Interfaces
pub mod Listing
pub mod Descriptor
pub mod Memory
pub mod Serve
pub mod Request
pub mod Refusals
pub mod Handle
pub mod Packet
pub mod Receive
pub mod Parse
pub mod Reply
pub mod Resolve
pub mod Fields
pub mod ReplyFrame
pub mod Answers
pub mod Reverse
pub mod Responds
pub mod Device
pub mod Dispatch
pub mod Answer
pub mod Build
