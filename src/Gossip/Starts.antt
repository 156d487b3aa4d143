-- ===== src/Gossip/Starts.antt =====
-- gossiper/DSDV.go and gossiper/gossiper.go: the routines that send for a client or from time to time, and
-- the one that hands a status packet to the routine for its sender.
use peerster.Base.{Bool, List, Option, [], none, some, ℕ, ◌∷◌}
use peerster.Dto.Packet.{Outcome, PrivateMessage, StatusPacket, deref, ok, ◌>>=◌}
use peerster.Dto.Getters.{PacketAddressPair, get_destination, get_sender_address}
use peerster.Dto.Quit.{add_or_get_peer_status_listener}
use peerster.Routing.{get_next_hop}
use peerster.Gossip.Node.{Gossiper, Send, add_message, add_to_peers, make_route_rumor_packet}
use peerster.Gossip.Monger.{pick_random_peer, try_send}

-- `clientPMListenRoutine`. The hop limit of 10 that it sets is above 0.
unfoldable pub client_pm_listen : PacketAddressPair → Gossiper → Outcome (List Send)
client_pm_listen pap g = do
  pm ←
      deref pap.packet.private
        (λ (m : PrivateMessage). record m { id = 0; hop_limit = 10; origin = g.name })
  let packet = record pap.packet { private = some pm }
  destination ← get_destination packet
  ok (elim (get_next_hop destination g.routing_table) [
    | none ↦ []
    | some next_hop ↦ (packet, next_hop) ∷ []
  ])

-- One round of `periodicRouteRumor`, if its timeout is not 0: `n` picks the peer, `quit` is the new
-- channel, and `confirmed` says whether a status packet confirms the message.
unfoldable pub periodic_route_rumor : ℕ → ℕ → Bool → Gossiper → Outcome (Gossiper × List Send)
periodic_route_rumor n quit confirmed g = elim (pick_random_peer ([] ∷ []) n g) [
  | none ↦ ok (g, [])
  | some peer ↦
      let (g1, packet) = make_route_rumor_packet g in
      (do
        rumor ← deref packet.rumor (λ m. m)
        let g2 = (add_message rumor g1).0
        (g3, sends, _) ← try_send packet peer quit confirmed g2
        ok (g3, sends))
]

-- `statusListenRoutine`: the channel that the status is put on, and whether a routine is started for it.
-- `c_new` is the new channel.
unfoldable pub status_listen :
    PacketAddressPair → ℕ → Gossiper → Outcome (Gossiper × Bool × ℕ × Option StatusPacket)
status_listen pap c_new g = do
  peer ← get_sender_address pap
  let g1 = (add_to_peers peer g).0
  let (chans, c, is_new) = add_or_get_peer_status_listener peer c_new g1.status_chan_map
  ok (record g1 { status_chan_map = chans }, is_new, c, pap.packet.status)
