-- ===== src/Tests/Replies.antt =====
-- Cases for the replies to searches.
use peerster.Search.Client.{SearchEvent, expired, tick}
use peerster.Base.{Bytes, List, [], false, refl, some, ℕ, ◌∷◌, ◌≡◌}
use peerster.Dto.Packet.{SearchReply, get_underlying_type}
use peerster.Dto.Getters.{PacketAddressPair}
use peerster.Dto.Safety.{answers, ending}
use peerster.Dto.Counter.{new_safe_counter}
use peerster.Dto.Arrays.{MetahashFilenamePair-discrete, new_safe_string_array, new_unique_array}
use peerster.Dto.Messages.{new_safe_messages_map}
use peerster.Dto.Quit.{new_quit_chan_map}
use peerster.Routing.{new_safe_routing_table}
use peerster.Gossip.Node.{no_packet, receive_external}
use peerster.Search.Replies.{Searcher, search_reply_listen, zeros}
use peerster.Search.Replies.Endings.{search_reply_listen-safe}

abbrev alice : Bytes
alice = b'A' ∷ []

abbrev bob : Bytes
bob = b'B' ∷ []

abbrev searcher : Searcher
searcher = record {
  gossip = record {
    address = b'a' ∷ [];
    name = alice;
    use_simple = false;
    peers = new_safe_string_array (bob ∷ []);
    seq_id_counter = new_safe_counter;
    status_chan_map = [];
    quit_chan_map = new_quit_chan_map;
    msg_map = new_safe_messages_map;
    latest_messages = record { array = [] };
    origins = new_safe_string_array [];
    routing_table = new_safe_routing_table;
  };
  filenames_map = [];
  metahash_to_chunk_owners_map = [];
  search_map = [];
  matches_gui_map = new_unique_array MetahashFilenamePair-discrete [];
}

abbrev reply_of : Bytes → SearchReply
reply_of hash = record {
  origin = bob;
  destination = alice;
  hop_limit = 3;
  results =
      record { file_name = b'f' ∷ []; metafile_hash = hash; chunk_map = 1 ∷ []; chunk_count = 1 }
      ∷ [];
}

abbrev reply_pair : Bytes → PacketAddressPair
reply_pair hash = record {
  packet = record no_packet { search_reply = some (reply_of hash) };
  sender_address = bob;
}

search_reply_listen-safe_example :
    ending (search_reply_listen (reply_pair (zeros 32)) searcher) ≡ answers
unfolding receive_external get_underlying_type zeros
search_reply_listen-safe_example =
    search_reply_listen-safe (reply_pair (zeros 32)) searcher (reply_of (zeros 32)) refl refl
      (refl, tt)

abbrev words : List Bytes
words = (b'f' ∷ []) ∷ []

abbrev ticks : List (Searcher × SearchEvent)
ticks = (searcher, tick) ∷ (searcher, expired) ∷ []

abbrev no_budget : ℕ
no_budget = 0
