-- ===== src/Files.antt =====
-- Package fileparsing and gossiper/fileSharing.go: shared files and their chunks.
pub mod Parsing
pub mod Entries
pub mod Sharing
