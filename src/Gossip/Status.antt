-- ===== src/Gossip/Status.antt =====
-- gossiper/helpers.go: what one peer has and another wants.
pub mod Sync
pub mod Offers
use peerster.Base.{
  Bool, Bytes, Bytes-discrete, List, Map, [], if◌then◌else◌, load, ltb, none, present, some, store,
  true, ℕ, ◌++◌, ◌∷◌,
}
use peerster.Dto.Packet.{PeerStatus}

-- `wantMap`: of two statuses of one origin the later one counts.
unfoldable pub fill_want_map : List PeerStatus → Map Bytes ℕ → Map Bytes ℕ
fill_want_map [] m = m
fill_want_map (ps ∷ want) m = fill_want_map want (store Bytes-discrete ps.identifier ps.next_id m)

abbrev pub want_map : List PeerStatus → Map Bytes ℕ
want_map want = fill_want_map want []

-- The messages to provide for one status of our own.
abbrev pub wanted_of : Map Bytes ℕ → PeerStatus → List PeerStatus
wanted_of wants ps = elim (load Bytes-discrete ps.identifier wants) [
  | some want ↦
      if ltb want ps.next_id then record { identifier = ps.identifier; next_id = want } ∷ [] else []
  | none ↦ record { identifier = ps.identifier; next_id = 1 } ∷ []
]

unfoldable pub difference_loop : Map Bytes ℕ → List PeerStatus → List PeerStatus
difference_loop wants [] = []
difference_loop wants (ps ∷ have) = wanted_of wants ps ++ difference_loop wants have

unfoldable pub peer_status_difference : List PeerStatus → List PeerStatus → List PeerStatus
unfolding difference_loop
peer_status_difference have want = difference_loop (want_map want) have

unfoldable pub updated_loop : Map Bytes ℕ → List PeerStatus → List PeerStatus → List PeerStatus
updated_loop wants [] want = want
updated_loop wants (ps ∷ have) want =
    updated_loop wants have (elim (load Bytes-discrete ps.identifier wants) [
      | some n ↦ want
      | none ↦ want ++ record { identifier = ps.identifier; next_id = 1 } ∷ []
    ])

unfoldable pub peer_status_updated : List PeerStatus → List PeerStatus → List PeerStatus
unfolding updated_loop
peer_status_updated have want = updated_loop (want_map want) have want

unfoldable pub fill_set : List Bytes → Map Bytes Bool → Map Bytes Bool
fill_set [] m = m
fill_set (key ∷ keys) m = fill_set keys (store Bytes-discrete key true m)

unfoldable pub difference_keys : Map Bytes Bool → List Bytes → List Bytes
difference_keys m [] = []
difference_keys m (key ∷ keys) =
    (if present Bytes-discrete key m then [] else key ∷ []) ++ difference_keys m keys

unfoldable pub string_array_difference : List Bytes → List Bytes → List Bytes
unfolding fill_set difference_keys
string_array_difference first second = difference_keys (fill_set second []) first
