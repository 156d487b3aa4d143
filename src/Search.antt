-- ===== src/Search.antt =====
-- Package filesearching and gossiper/fileSearching.go: who owns which chunks of which files, and the
-- searches for file names.
pub mod Owners
pub mod Filenames
pub mod Searches
pub mod Requests
pub mod Replies
pub mod Client
