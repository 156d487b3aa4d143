-- ===== src/Lib.antt =====
-- Peerster: a peer-to-peer node that spreads rumors, routes private messages, shares and searches files,
-- keeps a distributed hash table with encrypted lookups, claims file names in a block chain, and crawls
-- pages.
--
-- The program's parts, and the files that model them:
--
-- * Packets (dto/DTO.go): Dto/Packet has the packets and their kinds, Dto/Getters the getters, Dto/Hops
--   the decrements of hop limits. A nil pointer is `none`; a getter returns an `Outcome`: `ok`, `fatal`
--   where LogError exits the process, or `nil_pointer` where the code would panic.
-- * Containers of package dto: Dto/Counter (SafeCounter.go), Dto/Arrays (SafeStringArray.go,
--   SafeHashFilenamePairArray.go, SafeMessageArray.go), Dto/Messages (SafeMessagesMap.go), Dto/Quit
--   (QuitChanMap.go, SafeChanMap.go). Base/SyncMap stands for Go's maps and sync.Map: a list of entries.
--   An inner map that the code reaches through a pointer is stored back after it changed. A method that
--   runs under a mutex is one step; a channel is a number.
-- * Routing (package routing): the next hop to each origin.
-- * Gossip/Node (gossiper/gossiper.go, gossiper/DSDV.go): the state of a peer, the dispatch of packets,
--   and the listening routines. receiveExternalUDP hands a packet to a channel by its kind; the routine
--   behind that channel reads it by the getters, updates the routing table and the known rumors, and
--   answers with a status. A routine is a function from a packet and the state to the new state and
--   what it sends.
--   Gossip/Starts has the routines that send for a client or from time to time, and statusListenRoutine.
-- * Gossip/Status (gossiper/helpers.go): what one peer has and another wants, from two statuses.
-- * Gossip/Monger (gossiper/rumorMongering.go, gossiper/antiEntropy.go): rumorMonger, trySend and
--   peerStatusListenRoutine. A random number is an argument, as is the state that a routine finds when it
--   goes on after a wait, which other routines may have changed. The loop of rumorMonger, which may go on
--   for ever, runs over a list of draws and is cut where the list ends.
-- * Dht (package dht, gossiper/kBuckets.go): Dht/Types the messages, Dht/Distance the distance of
--   identifiers, Dht/Nodes the nodes that a lookup knows (SafeNodeStateArray.go), Dht/Buckets the
--   k-buckets, with the answers to pings as a parameter, and Dht/Listeners who waits for which reply.
--   A TypeID is a list of bytes, and theorems ask for its 64 bytes where they matter.
--   Dht/Lookup (gossiper/dhtAPI.go) is a lookup as a run over events: a node that was asked answers, with
--   or without nodes, or the ticker fires; each event moves the array of nodes and the phase on, and the
--   run ends when the code returns. Dht/Handlers (gossiper/dht.go) has the requests and the replies, and
--   Dht/Handlers/Listening has dhtMessageListenRoutine, which reads each message, puts its sender into the
--   table, and answers, informs the one who waits, or hands the data to the store. Dht/Storage
--   (dht/storage.go) is the store behind it: bbolt is the record Bolt, an interface of operations and laws,
--   and the crawl queue is built on it.
-- * Chain (gossiper/blockchain.go): the ledger of file names. The tree of blocks is a map from hashes,
--   a hash standing for the pointer. Chain/Walks has the walks down a chain (claimed and taken names, the
--   common block), Chain/Insert the insertion of a block with its orphans, prunings and the change of the
--   head, Chain/Mining the mining routine as steps on its variables. A function returns a `Run`: done,
--   exited, crashed (a nil pointer) or spent (out of fuel).
-- * Keys (package diffiehellman): the group arithmetic over natural numbers. Keys/Sessions
--   (gossiper/diffiehellman.go, and the uses of a key in gossiper/webcrawler.go and gossiper/dht.go): the
--   sessions a peer holds. Keys/Negotiation (gossiper/diffiehellman.go): the packets of a negotiation,
--   with signatures and SHA-256 as parameters.
-- * Crawl (gossiper/webcrawler.go): how links are shared out to the nodes and cut into batches.
-- * Files/Parsing (fileparsing/helpers.go): chunks, metafiles and keywords. SHA-256 is a parameter.
--   Files/Entries (package fileparsing): the maps of files, chunks and downloads. Files/Sharing
--   (gossiper/fileSharing.go): sharing a file, the routines for data requests and data replies, and the
--   requests for a chunk, which go out again at every tick before the data arrive. Files/Sharing/Download
--   is downloadFile: each wait for data is an argument that says what arrives and what other routines do
--   to the state until then.
-- * Search/Owners, Search/Filenames and Search/Searches (package filesearching): who owns which chunk, the
--   names of files, and the searches that go on. Search/Requests and Search/Replies
--   (gossiper/fileSearching.go): the split of a budget over the peers and the routines for requests and
--   replies. A budget is a uint64 that the code converts to int; from 2^63 on nothing is sent.
--   Search/Client is searchFilesMatching: what its select waits for is a list of events.
--
-- Base has what the modules share. Under a component, its child modules hold properties of it. Tests has
-- concrete inputs.
--
-- Numbers are natural numbers. Hop limits and sequence numbers keep the wrap of uint32 (`% 2 ^ 32`);
-- lengths and indices are ints that the code never brings near their bound. Loops run over lists.
-- The walks and the recursions over the tree of blocks run on fuel, since nothing in the program's types
-- keeps the map of blocks from having a cycle; where every block is longer than the block before it,
-- fuel above the length of the block that a walk starts from is enough, and the theorems of Chain that
-- need an answer prove it from that. to_bytes of Keys has
-- its number as fuel. Search/Requests/Flood bounds the rounds of a search that it counts by an argument,
-- for which its theorem is stated for all values.
--
-- Not modelled: the start of the routines, sockets, protobuf and printing (I/O); what a node does with
-- the data of a store request (replyStore); AES-GCM and ECDSA (library calls); page rank, and the part of
-- the web crawler that fetches and parses pages (floating-point arithmetic and HTTP).
pub mod Base
pub mod Dht
pub mod Dto
pub mod Routing
pub mod Gossip
pub mod Files
pub mod Search
pub mod Chain
pub mod Keys
pub mod Crawl
pub mod Tests
