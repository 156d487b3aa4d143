-- ===== src/Gossip/Monger.antt =====
-- gossiper/rumorMongering.go and gossiper/antiEntropy.go. Random numbers, and the state that a
-- routine finds when it goes on after others ran, are arguments.
pub mod Picks
use peerster.Base.{
  Bool, Bytes, List, Option, [], false, get_elem?, if◌then◌else◌, none, some, true, ℕ, ◌&&◌, ◌++◌,
  ◌==◌, ◌∷◌,
}
use peerster.Dto.Packet.{GossipPacket, Outcome, PeerStatus, StatusPacket, ok, ◌>>=◌}
use peerster.Dto.Getters.{get_origin, get_seq_id}
use peerster.Dto.Quit.{add_listener, delete_listener, inform_listeners}
use peerster.Gossip.Status.{peer_status_difference, string_array_difference}
use peerster.Dto.Messages.{SafeMessagesMap, get_message, get_own_status_packet}
use peerster.Gossip.Node.{Gossiper, Send, no_packet, send_status_packet}

-- `pickRandom` with the number that `rand.Intn` gave. Out of range the source panics, as the
-- documented range of `rand.Intn` excludes.
abbrev pub pick_random : List Bytes → ℕ → Option Bytes
pick_random choices n = get_elem? choices n

unfoldable pub pick_random_peer : List Bytes → ℕ → Gossiper → Option Bytes
pick_random_peer exceptions n g = pick_random (string_array_difference g.peers.array exceptions) n

-- `trySend`: what it sends, the state, and whether a status packet confirmed the message. `quit` is
-- the new channel, `confirmed` whether it closes before the ticker fires.
unfoldable pub try_send :
    GossipPacket → Bytes → ℕ → Bool → Gossiper → Outcome (Gossiper × List Send × Bool)
try_send packet peer quit confirmed g = do
  origin ← get_origin packet
  id ← get_seq_id packet
  let (quits, _, already_sending) = add_listener peer origin id quit g.quit_chan_map
  if already_sending
      then ok (record g { quit_chan_map = quits }, [], false)
      else if confirmed
      then ok (record g { quit_chan_map = quits }, (packet, peer) ∷ [], true)
      else ok (
        record g { quit_chan_map = delete_listener peer origin id quits },
        (packet, peer) ∷ [],
        false,
      )

-- One round of `rumorMonger` after the first pick: the coin (1 stops), the state of the peer when the
-- next pick is made, and the number drawn for it.
pub record Draw : Type 0 where
  pub coin : ℕ
  pub seen : Gossiper
  pub pick : ℕ

-- The peers that `rumorMonger` tries in turn. The loop is cut where the draws end.
unfoldable pub monger_loop : Bytes → List Draw → List Bytes
monger_loop peer [] = peer ∷ []
monger_loop peer (d ∷ draws) = peer ∷ elim (d.coin == 1) [
  | true ↦ []
  | false ↦ elim (pick_random_peer (peer ∷ []) d.pick d.seen) [
    | none ↦ []
    | some next ↦ monger_loop next draws
  ]
]

-- The empty string leaves nobody out.
abbrev pub exceptions_of : Bytes → List Bytes
exceptions_of [] = []
exceptions_of (c ∷ cs) = (c ∷ cs) ∷ []

unfoldable pub rumor_monger : Bytes → ℕ → List Draw → Gossiper → List Bytes
unfolding monger_loop
rumor_monger except n draws g = elim (pick_random_peer (exceptions_of except) n g) [
  | none ↦ []
  | some peer ↦ monger_loop peer draws
]

-- `peerStatusListenRoutine`: one status packet `sp` of a peer.
pub record StatusRound : Type 0 where
  pub after : Gossiper
  pub closed : List ℕ
  pub sends : List Send
  pub in_sync : Bool

-- The messages sent for the statuses that the peer lacks. A message that is not there goes out as a
-- packet without a part.
unfoldable pub send_desired :
    List PeerStatus → Bytes → SafeMessagesMap → SafeMessagesMap × List Send
send_desired [] peer_address scm = (scm, [])
send_desired (v ∷ desired) peer_address scm =
    let (scm', rm) = get_message v.identifier v.next_id scm in
    let (scm'', sends) = send_desired desired peer_address scm' in
    (scm'', (record no_packet { rumor = rm }, peer_address) ∷ sends)

abbrev is_nil : List PeerStatus → Bool
is_nil [] = true
is_nil (x ∷ xs) = false

unfoldable pub peer_status_listen : Bytes → StatusPacket → Gossiper → StatusRound
unfolding send_desired
peer_status_listen peer_address sp g =
    let my_sp = get_own_status_packet g.msg_map in
    let (quits, told) = inform_listeners peer_address sp g.quit_chan_map in
    let desired = peer_status_difference my_sp.want sp.want in
    let (msg_map', sends) = send_desired desired peer_address g.msg_map in
    let g' = record g { msg_map = msg_map'; quit_chan_map = quits } in
    let ours = peer_status_difference sp.want my_sp.want in
    if told.all_stopped && is_nil desired
    then (if is_nil ours
        then record { after = g'; closed = told.closed; sends = sends; in_sync = true }
        else record {
          after = g';
          closed = told.closed;
          sends = sends ++ send_status_packet peer_address g' ∷ [];
          in_sync = false;
        })
    else record { after = g'; closed = told.closed; sends = sends; in_sync = false }

-- gossiper/antiEntropy.go: one tick of the ticker.
unfoldable pub anti_entropy_tick : ℕ → Gossiper → List Send
anti_entropy_tick n g =
    if g.use_simple
    then []
    else elim (pick_random_peer [] n g) [ none ↦ [] | some pick ↦ send_status_packet pick g ∷ [] ]
