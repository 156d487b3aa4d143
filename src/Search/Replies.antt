-- ===== src/Search/Replies.antt =====
-- gossiper/fileSearching.go: what a peer does with the reply to a search.
pub mod Endings
use peerster.Base.{
  Bool, Bytes, List, Option, [], if◌then◌else◌, none, some, suc, zero, ℕ, ◌++◌, ◌∷◌,
}
use peerster.Dto.Packet.{Outcome, SearchResult, deref, ok, ◌>>=◌}
use peerster.Dto.Getters.{
  PacketAddressPair, get_destination, get_hop_limit, get_origin, get_search_results,
  get_sender_address,
}
use peerster.Dto.Arrays.{SafeHashFilenamePairArray, append_pair}
use peerster.Files.Parsing.{convert_to_hash32}
use peerster.Gossip.Node.{Gossiper, Send, add_to_peers, bytes_eq, forward}
use peerster.Search.Owners.{MetahashToChunkOwnersMap, update_with_search_result}
use peerster.Search.Filenames.{SafeFilenamesMap, add_mapping, get_mapping}
use peerster.Search.Searches.{Report, SafeSearchMap, inform_listeners}

-- The fields of a gossiper that searches use, beside those of gossip.
pub record Searcher : Type 0 where
  pub gossip : Gossiper
  pub filenames_map : SafeFilenamesMap
  pub metahash_to_chunk_owners_map : MetahashToChunkOwnersMap
  pub search_map : SafeSearchMap
  pub matches_gui_map : SafeHashFilenamePairArray

-- The array of bytes that a failed conversion leaves.
unfoldable pub zeros : ℕ → Bytes
zeros zero = []
zeros (suc n) = 0 ∷ zeros n

abbrev pub hash_or_zero : Option Bytes → Bytes
hash_or_zero none = zeros 32
hash_or_zero (some hash32) = hash32

-- The names are read through a pointer, which is nil if the hash has no names.
unfoldable pub inform_searches : Bool → Bytes → Searcher → Outcome (Searcher × List Report)
inform_searches made_total_match hash32 w = do
  names ← deref (get_mapping hash32 w.filenames_map) (λ arr. arr.array)
  if made_total_match
      then (let (searches, reports) = inform_listeners names hash32 w.search_map in
          ok (record w { search_map = searches }, reports))
      else ok (w, [])

-- One result. Whether any search matched only decides what is printed, but `CheckIfMatches` reads the
-- names through the pointer all the same.
unfoldable pub handle_result : Bytes → SearchResult → Searcher → Outcome (Searcher × List Report)
unfolding inform_searches zeros
handle_result origin sres w =
    let converted = convert_to_hash32 sres.metafile_hash in
    let hash32 = hash_or_zero converted in
    let names : SafeFilenamesMap = elim converted [
      | none ↦ w.filenames_map
      | some h ↦ (add_mapping h sres.file_name w.filenames_map).0
    ] in
    let (owners, found) = update_with_search_result origin sres w.metahash_to_chunk_owners_map in
    let matches =
      if found.has_total_match
      then (append_pair hash32 sres.file_name w.matches_gui_map).0
      else w.matches_gui_map in
    inform_searches found.made_total_match hash32 (record w {
      filenames_map = names;
      metahash_to_chunk_owners_map = owners;
      matches_gui_map = matches;
    })

unfoldable pub handle_results :
    Bytes → List SearchResult → Searcher → Outcome (Searcher × List Report)
unfolding handle_result
handle_results origin [] w = ok (w, [])
handle_results origin (sres ∷ sress) w = do
  (w', reports) ← handle_result origin sres w
  (w'', more) ← handle_results origin sress w'
  ok (w'', reports ++ more)

pub record ReplyRound : Type 0 where
  pub after : Searcher
  pub sends : List Send
  pub reports : List Report

-- `searchReplyListenRoutine`
unfoldable pub search_reply_listen : PacketAddressPair → Searcher → Outcome ReplyRound
unfolding handle_results
search_reply_listen pap w = do
  sender ← get_sender_address pap
  let w1 = record w { gossip = (add_to_peers sender w.gossip).0 }
  destination ← get_destination pap.packet
  hops ← get_hop_limit pap.packet
  if bytes_eq destination w.gossip.name
      then (do
        sress ← get_search_results pap.packet
        origin ← get_origin pap.packet
        (w2, reports) ← handle_results origin sress w1
        ok (record { after = w2; sends = []; reports = reports }))
      else (do
        (_, sends) ← forward pap.packet w1.gossip
        ok (record { after = w1; sends = sends; reports = [] }))
