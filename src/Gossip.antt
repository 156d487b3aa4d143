-- ===== src/Gossip.antt =====
-- Package gossiper, the part that spreads rumors and routes packets: helpers.go, DSDV.go,
-- rumorMongering.go and the listening routines of gossiper.go.
pub mod Status
pub mod Node
pub mod Monger
pub mod Starts
