-- ===== src/Tests.antt =====
-- Concrete inputs: for each theorem with a hypothesis or an argument, one case that it is applied to.
mod Dto
mod Gossip
mod Dht
mod Files
mod Sharing
mod Replies
mod Download
mod Chain
mod Lookup
mod Keys
mod Handlers
mod Storage
mod Crawl
