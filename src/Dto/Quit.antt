-- ===== src/Dto/Quit.antt =====
-- dto/QuitChanMap.go and dto/SafeChanMap.go: the channels by which routines that send a rumor are told
-- to stop. A channel is a number; closing it is reported in a list.
pub mod Inform
pub mod Stopped
use peerster.Base.{
  Bool, Bytes, Bytes-discrete, List, Map, [], delete, false, if◌then◌else◌, load_or_store, ltb, not,
  store, true, ℕ, ℕ_discrete, ◌++◌, ◌∷◌,
}
use peerster.Dto.Packet.{PeerStatus, StatusPacket}

-- The channels of one origin by message number, and of one peer by origin.
abbrev pub OriginChans : Type 0
OriginChans = Map ℕ ℕ

abbrev pub PeerChans : Type 0
PeerChans = Map Bytes OriginChans

pub record QuitChanMap : Type 0 where
  pub peers_map : Map Bytes PeerChans

abbrev pub new_quit_chan_map : QuitChanMap
new_quit_chan_map = record { peers_map = [] }

-- `quit` is the new channel; the call returns the channel in use and whether it was there before.
unfoldable pub add_listener : Bytes → Bytes → ℕ → ℕ → QuitChanMap → QuitChanMap × ℕ × Bool
add_listener peer_address origin message_id quit scm =
    let (pm, _, m) = load_or_store Bytes-discrete peer_address [] scm.peers_map in
    let (om, _, pm') = load_or_store Bytes-discrete origin [] pm in
    let (v, loaded, om') = load_or_store ℕ_discrete message_id quit om in
    let pm'' = store Bytes-discrete origin om' pm' in
    (record { peers_map = store Bytes-discrete peer_address pm'' m }, v, loaded)

unfoldable pub delete_listener : Bytes → Bytes → ℕ → QuitChanMap → QuitChanMap
delete_listener peer_address origin message_id scm =
    let (pm, _, m) = load_or_store Bytes-discrete peer_address [] scm.peers_map in
    let (om, _, pm') = load_or_store Bytes-discrete origin [] pm in
    let pm'' = store Bytes-discrete origin (delete ℕ_discrete message_id om) pm' in
    record { peers_map = store Bytes-discrete peer_address pm'' m }

-- What a run of `InformListeners` changes: the channels closed so far, and `allStopped`.
pub record Told : Type 0 where
  pub closed : List ℕ
  pub all_stopped : Bool

-- The range of `quitter` over the channels of one origin, which it deletes from on the way.
unfoldable pub quit_range : ℕ → OriginChans → OriginChans → Told → OriginChans × Told
quit_range next_id [] om told = (om, told)
quit_range next_id ((id, quit) ∷ entries) om told =
    quit_range next_id entries (if ltb id next_id then delete ℕ_discrete id om else om) (
      if ltb id next_id
      then record told { closed = told.closed ++ quit ∷ [] }
      else record told { all_stopped = false })

unfoldable pub inform_loop : List PeerStatus → PeerChans → Told → PeerChans × Told
inform_loop [] pm told = (pm, told)
inform_loop (v ∷ want) pm told =
    let (om, _, pm') = load_or_store Bytes-discrete v.identifier [] pm in
    let (om', told') = quit_range v.next_id om om told in
    inform_loop want (store Bytes-discrete v.identifier om' pm') told'

unfoldable pub inform_listeners : Bytes → StatusPacket → QuitChanMap → QuitChanMap × Told
unfolding inform_loop
inform_listeners peer_address sp scm =
    let (pm, _, m) = load_or_store Bytes-discrete peer_address [] scm.peers_map in
    let (pm', told) = inform_loop sp.want pm (record { closed = []; all_stopped = true }) in
    (record { peers_map = store Bytes-discrete peer_address pm' m }, told)

-- dto/SafeChanMap.go
unfoldable pub add_or_get_peer_status_listener : Bytes → ℕ → Map Bytes ℕ → Map Bytes ℕ × ℕ × Bool
add_or_get_peer_status_listener peer_address c_status peers_map =
    let (c, loaded, m) = load_or_store Bytes-discrete peer_address c_status peers_map in
    (m, c, not loaded)
