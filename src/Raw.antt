-- ===== src/Raw.antt =====
-- src/raknet_python.cpp, the C++ binding.
pub mod Enums
pub mod MessageId
pub mod Interface
pub mod Methods
pub mod Members
pub mod Address
pub mod Guid
pub mod Target
pub mod Statistics
pub mod Socket
pub mod Peer
