-- ===== src/Dht/Nodes.antt =====
-- dht/SafeNodeStateArray.go: the nodes that a lookup knows of, by distance to its target. Each method
-- runs under the mutex.
pub mod Sound
pub mod Select
use peerster.Base.{
  Bool, Bytes, Bytes-discrete, List, Map, [], false, if◌then◌else◌, is_yes, load, none, not, some,
  store, suc, true, zero, ℕ, ◌||◌, ◌∷◌,
}
use peerster.Dht.Types.{NodeState}
use peerster.Dht.Distance.{insert_ordered}

-- A Go int that counts down from a number: `left n`, or below 0.
pub data Countdown : Type 0 where
  left : ℕ → Countdown
  passed : Countdown

abbrev pub tick : Countdown → Countdown
tick (left zero) = passed
tick (left (suc n)) = left n
tick passed = passed

abbrev pub is_zero : Countdown → Bool
is_zero (left zero) = true
is_zero _ = false

pub record SafeNodeStateArray : Type 0 where
  pub target : Bytes
  pub exists : Map Bytes Bool
  pub queried : Map Bytes Bool
  pub responded : Map Bytes Bool
  pub array : List NodeState

abbrev pub new_safe_node_state_array : Bytes → SafeNodeStateArray
new_safe_node_state_array target = record {
  target = target;
  exists = [];
  queried = [];
  responded = [];
  array = [];
}

-- `m[k]` of a map of Booleans: false for a missing key.
abbrev pub lookup_bool : Bytes → Map Bytes Bool → Bool
lookup_bool k m = elim (load Bytes-discrete k m) [ none ↦ false | some b ↦ b ]

-- Whether the first entry is the pointer that was given: the new node, since no other entry has its
-- identifier.
abbrev pub heads : NodeState → List NodeState → Bool
heads potential [] = false
heads potential (n ∷ ns) = is_yes (Bytes-discrete n.node_id potential.node_id)

unfoldable pub insert : NodeState → SafeNodeStateArray → SafeNodeStateArray × Bool
insert potential snsa =
    if lookup_bool potential.node_id snsa.exists
    then (snsa, false)
    else (let array' = insert_ordered snsa.target snsa.array potential in
        (
          record snsa {
            exists = store Bytes-discrete potential.node_id true snsa.exists;
            array = array';
          },
          heads potential array',
        ))

-- `closer = closer || snsa.Insert(node)`: once `closer` is true, no node is inserted any more.
unfoldable pub insert_array :
    List NodeState → Bytes → Bool → SafeNodeStateArray → SafeNodeStateArray × Bool
insert_array [] except closer snsa = (snsa, closer)
insert_array (node ∷ nodes) except closer snsa =
    let skip = is_yes (Bytes-discrete node.node_id except) || closer in
    let (snsa', closest) = insert node snsa in
    insert_array nodes except (if skip then closer else closest) (if skip then snsa else snsa')

unfoldable pub set_queried : NodeState → SafeNodeStateArray → SafeNodeStateArray
set_queried ns snsa = record snsa { queried = store Bytes-discrete ns.node_id true snsa.queried }

unfoldable pub set_responded : NodeState → SafeNodeStateArray → SafeNodeStateArray
set_responded ns snsa = record snsa {
  responded = store Bytes-discrete ns.node_id true snsa.responded;
}

abbrev pub was_queried : SafeNodeStateArray → NodeState → Bool
was_queried snsa ns = lookup_bool ns.node_id snsa.queried

abbrev pub has_responded : SafeNodeStateArray → NodeState → Bool
has_responded snsa ns = lookup_bool ns.node_id snsa.responded

-- The loop of `GetAlphaUnqueried`.
unfoldable pub alpha_loop : SafeNodeStateArray → Countdown → List NodeState → List NodeState
alpha_loop snsa alpha [] = []
alpha_loop snsa alpha (ns ∷ rest) = elim (was_queried snsa ns) [
  | true ↦ alpha_loop snsa alpha rest
  | false ↦
      ns ∷ elim (is_zero (tick alpha)) [ true ↦ [] | false ↦ alpha_loop snsa (tick alpha) rest ]
]

unfoldable pub get_alpha_unqueried : ℕ → SafeNodeStateArray → List NodeState
unfolding alpha_loop
get_alpha_unqueried alpha snsa = alpha_loop snsa (left alpha) snsa.array

abbrev pub get_array_copy : SafeNodeStateArray → List NodeState
get_array_copy snsa = snsa.array

-- The loop of `GetKClosestUnqueried`: the unqueried nodes, and those that responded.
unfoldable pub k_unqueried_loop :
    SafeNodeStateArray → Countdown → List NodeState → List NodeState × List NodeState
k_unqueried_loop snsa k [] = ([], [])
k_unqueried_loop snsa k (node ∷ rest) =
    let counts = has_responded snsa node || not (was_queried snsa node) in
    let k' = if counts then tick k else k in
    let more : List NodeState × List NodeState = elim (is_zero k') [
      | true ↦ ([], [])
      | false ↦ k_unqueried_loop snsa k' rest
    ] in
    if has_responded snsa node
    then (more.0, node ∷ more.1)
    else if not (was_queried snsa node)
    then (node ∷ more.0, more.1)
    else more

unfoldable pub get_k_closest_unqueried : ℕ → SafeNodeStateArray → List NodeState × List NodeState
unfolding k_unqueried_loop
get_k_closest_unqueried k snsa = k_unqueried_loop snsa (left k) snsa.array

-- The loop of `GetKClosestResponded`.
unfoldable pub k_responded_loop :
    SafeNodeStateArray → Countdown → List NodeState → List NodeState × Bool
k_responded_loop snsa k [] = ([], false)
k_responded_loop snsa k (node ∷ rest) =
    let k' = if has_responded snsa node then tick k else k in
    let more : List NodeState × Bool = elim (is_zero k') [
      | true ↦ ([], true)
      | false ↦ k_responded_loop snsa k' rest
    ] in
    if has_responded snsa node then (node ∷ more.0, more.1) else more

unfoldable pub get_k_closest_responded : ℕ → SafeNodeStateArray → List NodeState × Bool
unfolding k_responded_loop
get_k_closest_responded k snsa = k_responded_loop snsa (left k) snsa.array
