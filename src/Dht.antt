-- ===== src/Dht.antt =====
-- Package dht, and the k-buckets of gossiper/kBuckets.go.
pub mod Types
pub mod Distance
pub mod Nodes
pub mod Buckets
pub mod Listeners
pub mod Lookup
pub mod Handlers
pub mod Storage
