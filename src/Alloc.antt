-- ===== src/Alloc.antt =====
-- src/alloc: executable memory near an address.
pub mod Os
pub mod Search
pub mod Proximity
pub mod Thread
pub mod Tests
