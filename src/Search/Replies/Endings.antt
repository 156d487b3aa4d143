-- ===== src/Search/Replies/Endings.antt =====
-- Properties of how the routine for the replies to searches ends.
use peerster.Dto.Getters.{PacketAddressPair, get_destination, get_search_results}
use peerster.Gossip.Node.{add_to_peers, c_search_reply, receive_external}
use peerster.Gossip.Node.Relay.{forward-Routed}
use peerster.Search.Replies.{
  Searcher, handle_result, handle_results, inform_searches, search_reply_listen, zeros,
}
use peerster.Dto.Safety.{
  Routed, Routed_lem, answers, answers→ok, ending, get_sender_address-ok, panics,
}
use peerster.Files.Parsing.{convert_to_hash32}
use peerster.Base.{
  All, Bool, Bytes, Bytes-discrete, List, Option-cases, [], arith, false, if◌then◌else◌, inl, inr,
  length, load, load-store_self, none, present, refl, some, true, ◌==◌, ◌∙◌, ◌∷◌, ◌≡◌, ◌≢◌,
}
use peerster.Dto.Packet.{
  GossipPacket, SearchReply, SearchResult, get_underlying_type, nil_pointer, ok, searchreply_t,
}
use peerster.Dto.Arrays.{append_unique_to_array, new_safe_string_array}
use peerster.Search.Filenames.{SafeFilenamesMap, add_mapping}

-- A name that is added can be read.
add_mapping-present :
    (h name : Bytes) (m : SafeFilenamesMap)
    → present Bytes-discrete h (add_mapping h name m).0 ≡ true
unfolding add_mapping
add_mapping-present h name m =
    let fresh = new_safe_string_array (name ∷ []) in
    elim (Option-cases (load Bytes-discrete h m)) [
      | inl e ↦ ground (arith, e, load-store_self Bytes-discrete h fresh m)
      | inr (arr, e) ↦ ground (
        arith,
        e,
        load-store_self Bytes-discrete h (append_unique_to_array Bytes-discrete name arr).0 m,
      )
    ]

inform_searches-ending :
    (made : Bool) (h : Bytes) (w : Searcher)
    → ending (inform_searches made h w)
      ≡ (if present Bytes-discrete h w.filenames_map then answers else panics)
unfolding inform_searches
inform_searches-ending made h w = ground arith

abbrev pub IsHash : SearchResult → Type 0
IsHash sres = length sres.metafile_hash ≡ 32

handle_result-ending :
    (origin : Bytes) (sres : SearchResult) (w : Searcher)
    → IsHash sres
    → ending (handle_result origin sres w) ≡ answers
unfolding handle_result convert_to_hash32
handle_result-ending origin sres w size =
    let whole : (length sres.metafile_hash == 32) ≡ true = ground (arith, size) in
    rw (whole, handle_result)
      (inform_searches-ending _ _ _
        ∙ ground (arith, add_mapping-present sres.metafile_hash sres.file_name w.filenames_map))

handle_results-ending :
    (origin : Bytes) (sress : List SearchResult) (w : Searcher)
    → All IsHash sress
    → ending (handle_results origin sress w) ≡ answers
unfolding handle_results
handle_results-ending origin [] w h = refl
handle_results-ending origin (sres ∷ sress) w h =
    let first = answers→ok (handle_result origin sres w) (handle_result-ending origin sres w h.0) in
    let rest =
      answers→ok (handle_results origin sress first.0.0)
        (handle_results-ending origin sress first.0.0 h.1) in
    ground (arith, first.1, rest.1)

handle_result-panics :
    (origin : Bytes) (sres : SearchResult) (w : Searcher)
    → length sres.metafile_hash ≢ 32
    → load Bytes-discrete (zeros 32) w.filenames_map ≡ none
    → handle_result origin sres w ≡ nil_pointer
unfolding handle_result inform_searches convert_to_hash32
handle_result-panics origin sres w ne unnamed =
    let other : (length sres.metafile_hash == 32) ≡ false = ground (arith, ne) in
    rw (other, handle_result, unnamed, inform_searches) refl

dispatched_reply :
    (use_simple : Bool) (packet : GossipPacket)
    → receive_external use_simple packet ≡ c_search_reply
    → get_underlying_type packet ≡ searchreply_t
unfolding receive_external
dispatched_reply use_simple packet h = ground arith

results_of :
    (packet : GossipPacket) (m : SearchReply)
    → get_underlying_type packet ≡ searchreply_t
    → packet.search_reply ≡ some m
    → get_search_results packet ≡ ok m.results
unfolding get_search_results
results_of packet m t e = ground arith

reply-Routed : (packet : GossipPacket) → get_underlying_type packet ≡ searchreply_t → Routed packet
reply-Routed packet t = Routed_lem packet (rw t tt)

module _ (pap : PacketAddressPair) (w : Searcher) (m : SearchReply) where
  -- A reply to a search that the dispatcher hands over is handled to the end, if each of its results
  -- has a hash of 32 bytes: no getter exits the process, and no pointer that is followed is nil.
  pub search_reply_listen-safe :
      receive_external w.gossip.use_simple pap.packet ≡ c_search_reply
      → pap.packet.search_reply ≡ some m
      → All IsHash m.results
      → ending (search_reply_listen pap w) ≡ answers
  unfolding search_reply_listen
  search_reply_listen-safe h e hashes =
      let t = dispatched_reply w.gossip.use_simple pap.packet h in
      let r = reply-Routed pap.packet t in
      let sender = get_sender_address-ok pap in
      let w1 = record w { gossip = (add_to_peers sender.0 w.gossip).0 } in
      let handled =
        answers→ok (handle_results r.source m.results w1)
          (handle_results-ending r.source m.results w1 hashes) in
      ground (
        arith,
        sender.1,
        r.has_destination,
        r.has_hops,
        r.has_origin,
        results_of pap.packet m t e,
        handled.1,
        forward-Routed pap.packet w1.gossip r,
      )

  -- A dispatched reply to this peer whose first result has a hash that is not of 32 bytes makes the
  -- routine follow a nil pointer, unless the peer knows a name for the hash of zeros.
  search_reply_listen-panics :
      (sres : SearchResult) (sress : List SearchResult)
      → receive_external w.gossip.use_simple pap.packet ≡ c_search_reply
      → pap.packet.search_reply ≡ some m
      → m.destination ≡ w.gossip.name
      → m.results ≡ sres ∷ sress
      → length sres.metafile_hash ≢ 32
      → load Bytes-discrete (zeros 32) w.filenames_map ≡ none
      → ending (search_reply_listen pap w) ≡ panics
  unfolding search_reply_listen handle_results get_destination
  search_reply_listen-panics sres sress h e mine first ne unnamed =
      let t = dispatched_reply w.gossip.use_simple pap.packet h in
      let r = reply-Routed pap.packet t in
      let sender = get_sender_address-ok pap in
      let w1 = record w { gossip = (add_to_peers sender.0 w.gossip).0 } in
      let here : get_destination pap.packet ≡ ok m.destination = ground (arith, t, e) in
      ground (
        arith,
        sender.1,
        here,
        r.has_hops,
        r.has_origin,
        results_of pap.packet m t e,
        handle_result-panics r.source sres w1 ne unnamed,
      )
