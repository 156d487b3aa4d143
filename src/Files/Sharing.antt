-- ===== src/Files/Sharing.antt =====
-- gossiper/fileSharing.go: sharing a file, answering requests for its chunks, and downloading it.
-- `sha256` is the standard library's function.
pub mod Answers
pub mod Retries
pub mod Delivered
pub mod Download
use peerster.Base.{Bytes, List, Map, Option, [], if◌then◌else◌, none, not, some, ℕ, ◌++◌, ◌∷◌}
use peerster.Dto.Packet.{
  DataReply, DataRequest, File, GossipPacket, Outcome, TxPublish, deref, ok, ◌>>=◌,
}
use peerster.Dto.Getters.{
  PacketAddressPair, get_data, get_destination, get_hash_value, get_origin, get_sender_address,
}
use peerster.Files.Parsing.{convert_to_hash32, create_chunks_map, verify_data_hash}
use peerster.Files.Entries.{
  DlChanMap, SafeChunkMap, SafeFileMap, SafeFileSet, add_chunk, add_entry, add_listener, get_chunk,
  inform_listener,
}
use peerster.Gossip.Node.{Gossiper, Send, add_to_peers, bytes_eq, forward, no_packet}

-- The fields of a gossiper that file sharing uses, beside those of gossip.
pub record Sharer : Type 0 where
  pub gossip : Gossiper
  pub file_map : SafeFileMap
  pub chunk_map : SafeChunkMap
  pub dl_files_set : SafeFileSet
  pub dl_chunk_listeners : DlChanMap

abbrev pub default_hop_limit : ℕ
default_hop_limit = 10

unfoldable pub make_data_reply : Bytes → Bytes → Bytes → Sharer → DataReply
make_data_reply destination data_bytes checksum s = record {
  origin = s.gossip.name;
  destination = destination;
  hop_limit = default_hop_limit;
  hash_value = checksum;
  data_bytes = data_bytes;
}

unfoldable pub make_data_request : Bytes → Bytes → Sharer → DataRequest
make_data_request destination checksum s = record {
  origin = s.gossip.name;
  destination = destination;
  hop_limit = default_hop_limit;
  hash_value = checksum;
}

unfoldable pub answer_data_request : Bytes → Bytes → Sharer → Option DataReply
unfolding make_data_reply
answer_data_request origin hash s = elim (convert_to_hash32 hash) [
  | none ↦ none
  | some hash32 ↦ elim (get_chunk hash32 s.chunk_map) [
    | none ↦ none
    | some chunk ↦ some (make_data_reply origin chunk hash32 s)
  ]
]

-- What one round of a listening routine does: the state, what it sends, and the data put on a channel.
pub record FileRound : Type 0 where
  pub after : Sharer
  pub sends : List Send
  pub told : Option (ℕ × Bytes)

unfoldable pub data_request_listen : PacketAddressPair → Sharer → Outcome FileRound
unfolding answer_data_request
data_request_listen pap s = do
  sender ← get_sender_address pap
  let s' = record s { gossip = (add_to_peers sender s.gossip).0 }
  origin ← get_origin pap.packet
  hash ← get_hash_value pap.packet
  destination ← get_destination pap.packet
  if bytes_eq destination s.gossip.name
      then elim (answer_data_request origin hash s') [
        | none ↦ ok (record { after = s'; sends = []; told = none })
        | some drep ↦ do
          (_, sends) ← forward (record no_packet { data_reply = some drep }) s'.gossip
          ok (record { after = s'; sends = sends; told = none })
      ]
      else (do
        (_, sends) ← forward pap.packet s'.gossip
        ok (record { after = s'; sends = sends; told = none }))

module _ (sha256 : Bytes → Bytes) where
  unfoldable pub data_reply_listen : PacketAddressPair → Sharer → Outcome FileRound
  data_reply_listen pap s = do
    sender ← get_sender_address pap
    let s' = record s { gossip = (add_to_peers sender s.gossip).0 }
    origin ← get_origin pap.packet
    hash ← get_hash_value pap.packet
    verified ← deref pap.packet.data_reply (λ r. verify_data_hash sha256 r.hash_value r.data_bytes)
    if not verified then ok (record { after = s'; sends = []; told = none }) else (do
      destination ← get_destination pap.packet
      if bytes_eq destination s.gossip.name
          then elim (convert_to_hash32 hash) [
            | none ↦ ok (record { after = s'; sends = []; told = none })
            | some hash32 ↦ do
              payload ← get_data pap.packet
              let r = inform_listener hash32 payload s'.dl_chunk_listeners
              ok (record { after = record s' { dl_chunk_listeners = r.0 }; sends = []; told = r.1 })
          ]
          else (do
            (_, sends) ← forward pap.packet s'.gossip
            ok (record { after = s'; sends = sends; told = none })))

  -- The range over the map that `CreateChunksMap` made.
  unfoldable pub add_chunks : Map Bytes Bytes → SafeChunkMap → SafeChunkMap
  add_chunks [] scm = scm
  add_chunks ((checksum, chunk) ∷ entries) scm = add_chunks entries (add_chunk checksum chunk scm).0

  -- A file that a client shares: the state, and the transaction that names the file.
  unfoldable pub client_file_share :
      Bytes → Option (List Bytes × ℕ) → Sharer → Option (Sharer × TxPublish)
  unfolding add_chunks
  client_file_share file_name none s = none
  client_file_share file_name (some (chunks, size)) s =
      let (chunks_map, metafile, metahash) = create_chunks_map sha256 chunks in
      let file_map' = (add_entry file_name size metafile metahash s.file_map).0 in
      let chunk_map' = add_chunks chunks_map (add_chunk metahash metafile s.chunk_map).0 in
      let file : File = record { name = file_name; size = size; metafile_hash = metahash } in
      some (
        record s { file_map = file_map'; chunk_map = chunk_map' },
        record { file = file; hop_limit = default_hop_limit },
      )

-- The same packet is forwarded once more at every tick, by what the routing table then says. `ticks`
-- are the states at the ticks before the data arrive.
unfoldable pub retransmit : List Gossiper → GossipPacket → Outcome (GossipPacket × List Send)
retransmit [] packet = ok (packet, [])
retransmit (g ∷ ticks) packet = do
  (packet', sends) ← forward packet g
  (packet'', more) ← retransmit ticks packet'
  ok (packet'', sends ++ more)

-- `downloadChunk`, up to the data: the listener's channel, and the requests sent.
unfoldable pub download_chunk :
    Bytes → Bytes → ℕ → List Gossiper → Sharer → Outcome (Sharer × ℕ × List Send)
unfolding retransmit make_data_request
download_chunk hash origin c_data ticks s =
    let (listeners, c, _) = add_listener hash c_data s.dl_chunk_listeners in
    let packet = record no_packet { data_request = some (make_data_request origin hash s) } in
    (do
      (_, sends) ← retransmit (s.gossip ∷ ticks) packet
      ok (record s { dl_chunk_listeners = listeners }, c, sends))
