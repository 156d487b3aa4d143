-- ===== src/Dto.antt =====
-- Package dto: the packets of the protocol and the containers that the routines share.
pub mod Packet
pub mod Getters
pub mod Hops
pub mod Safety
pub mod Counter
pub mod Arrays
pub mod Messages
pub mod Quit
