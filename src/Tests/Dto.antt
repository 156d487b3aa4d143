-- ===== src/Tests/Dto.antt =====
-- Cases for the packets and the containers of package dto.
use peerster.Base.{
  All, Bytes, Bytes-discrete, List, [], arith, delete, false, if◌then◌else◌, is_yes, load,
  load_or_store, none, refl, some, store, true, ℕ, ℕ_discrete, ◌&&◌, ◌∷◌, ◌≡◌,
}
use peerster.Dto.Packet.{GossipPacket, RumorMessage, StatusPacket}
use peerster.Dto.Hops.{dec32}
use peerster.Dto.Arrays.{UniqueArray, new_unique_array}
use peerster.Dto.Arrays.Unique.{IsUnique, contains, distinct, new-IsUnique}
use peerster.Dto.Messages.{
  add_message, add_messages, add_to_origin, get_own_status_packet, max_id, new_safe_messages_map,
}
use peerster.Dto.Messages.Status.{IsTrue, own_status-IsTrue}
use peerster.Dto.Quit.{
  QuitChanMap, add_listener, inform_listeners, inform_loop, new_quit_chan_map, quit_range,
}
use peerster.Dto.Quit.Inform.{acknowledged, inform_listeners-chan_of, sender}
use peerster.Gossip.Node.{no_packet}

abbrev alice : Bytes
alice = b'A' ∷ []

abbrev bob : Bytes
bob = b'B' ∷ []

abbrev rumor_of : Bytes → ℕ → RumorMessage
rumor_of origin id = record { origin = origin; id = id; text = b'h' ∷ [] }

-- The second message of Alice comes before her first one, and is lost.
abbrev arrivals : List RumorMessage
arrivals = rumor_of alice 2 ∷ rumor_of alice 1 ∷ rumor_of alice 2 ∷ rumor_of bob 1 ∷ []

arrivals-status :
    (get_own_status_packet (add_messages arrivals new_safe_messages_map)).want
    ≡ record { identifier = alice; next_id = 3 } ∷ record { identifier = bob; next_id = 2 } ∷ []
unfolding get_own_status_packet add_messages add_message add_to_origin load_or_store store max_id
    load Bytes-discrete ℕ_discrete dec32
arrivals-status = refl

own_status-IsTrue_example :
    let scm = add_messages arrivals new_safe_messages_map in
    All (IsTrue scm) (get_own_status_packet scm).want
own_status-IsTrue_example =
    own_status-IsTrue arrivals (omega arith)
      (omega arith, (omega arith, (omega arith, (omega arith, tt))))

abbrev private_packet : GossipPacket
private_packet = record no_packet {
  private = some (record { origin = alice; id = 0; text = []; destination = bob; hop_limit = 10 });
}

abbrev status_packet : GossipPacket
status_packet = record no_packet { status = some (record { want = [] }) }

abbrev two_peers : UniqueArray Bytes
two_peers = new_unique_array Bytes-discrete (alice ∷ bob ∷ [])

two_peers-distinct : distinct Bytes-discrete (alice ∷ bob ∷ []) ≡ true
unfolding distinct contains Bytes-discrete ℕ_discrete
two_peers-distinct = refl

two_peers-IsUnique : IsUnique Bytes-discrete two_peers
two_peers-IsUnique = new-IsUnique Bytes-discrete (alice ∷ bob ∷ []) two_peers-distinct

-- Two senders to Bob: of Alice's messages 1 and 2.
abbrev two_senders : QuitChanMap
two_senders = (add_listener bob alice 2 101 (add_listener bob alice 1 100 new_quit_chan_map).0).0

abbrev has_first : StatusPacket
has_first = record { want = record { identifier = alice; next_id = 2 } ∷ [] }

abbrev has_both : StatusPacket
has_both = record { want = record { identifier = alice; next_id = 3 } ∷ [] }

inform_listeners-chan_of_example :
    let after = (inform_listeners bob has_first two_senders).0 in
    sender bob alice 1 after ≡ (
      if is_yes (Bytes-discrete bob bob) && acknowledged alice 1 has_first.want
      then none
      else sender bob alice 1 two_senders)
inform_listeners-chan_of_example = inform_listeners-chan_of bob bob alice 1 has_first two_senders

first_closed :
    (inform_listeners bob has_first two_senders).1
    ≡ record { closed = 100 ∷ []; all_stopped = false }
unfolding inform_listeners inform_loop quit_range load_or_store store load delete add_listener
    Bytes-discrete ℕ_discrete
first_closed = refl

both_stopped : (inform_listeners bob has_both two_senders).1.all_stopped ≡ true
unfolding inform_listeners inform_loop quit_range load_or_store store load delete add_listener
    Bytes-discrete ℕ_discrete
both_stopped = refl
