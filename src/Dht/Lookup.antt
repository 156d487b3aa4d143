-- ===== src/Dht/Lookup.antt =====
-- gossiper/dhtAPI.go: the lookup of the nodes that are closest to an identifier, and of a value. What a
-- lookup waits for in `select` is an event; a lookup is run on a list of events.
pub mod Runs
pub mod Phases
pub mod Bound
pub mod Answers
pub mod Silent
use peerster.Base.{
  Bool, Bytes, List, Option, [], false, if◌then◌else◌, length, none, some, suc, take, ℕ, ◌++◌, ◌==◌,
  ◌∷◌,
}
use peerster.Dht.Types.{Message, NodeState, ValueReply}
use peerster.Dht.Distance.{insert_ordered}
use peerster.Dht.Nodes.{
  SafeNodeStateArray, get_alpha_unqueried, get_k_closest_unqueried, insert_array,
  new_safe_node_state_array, set_queried, set_responded,
}
use peerster.Dht.Buckets.{BucketTable, alpha_closest, bucket_size}
use peerster.Dto.Packet.{Outcome, deref, ok, ◌>>=◌}

-- `lookupRound` and `lookupFinalPhase`; both start each other.
pub data Phase : Type 0 where
  round final : Phase

-- A phase that waits for the nodes that it asked; `phases` counts those begun, `asked` has the nodes
-- that they asked, the latest first.
pub record Waiting : Type 0 where
  pub phase : Phase
  pub snsa : SafeNodeStateArray
  pub expected : ℕ
  pub answered : ℕ
  pub closer : Bool
  pub phases : ℕ
  pub asked : List NodeState

-- How a lookup stands; `finished` has what it returns.
pub data Lookup (R : Type 0) : Type 0 where
  waiting : Waiting → Lookup R
  finished : R → SafeNodeStateArray → ℕ → Lookup R

unfoldable pub query_all : List NodeState → SafeNodeStateArray → SafeNodeStateArray
query_all [] snsa = snsa
query_all (node ∷ nodes) snsa = query_all nodes (set_queried node snsa)

-- The nodes that a phase asks, and those that it returns if it asks none.
abbrev pub selected : Phase → SafeNodeStateArray → List NodeState × List NodeState
selected round snsa = (get_alpha_unqueried 3 snsa, [])
selected final snsa = get_k_closest_unqueried bucket_size snsa

-- The start of a phase; `asked` are the nodes that earlier phases asked.
unfoldable pub begin_phase :
    {R : Type 0} → (List NodeState → R) → Phase → SafeNodeStateArray → ℕ → List NodeState → Lookup R
unfolding query_all
begin_phase give phase snsa phases asked =
    let (nodes, closest) = selected phase snsa in
    elim nodes [
      | List.[] ↦ finished (give closest) snsa phases
      | List.◌∷◌ node rest ↦ waiting (record {
        phase = phase;
        snsa = query_all (node ∷ rest) snsa;
        expected = length (node ∷ rest);
        answered = 0;
        closer = false;
        phases = suc phases;
        asked = (node ∷ rest) ++ asked;
      })
    ]

-- `if closer { return g.lookupRound(snsa) }; return g.lookupFinalPhase(snsa)`
abbrev pub next_phase : {R : Type 0} → (List NodeState → R) → Waiting → Lookup R
next_phase give w = begin_phase give (if w.closer then round else final) w.snsa w.phases w.asked

-- Nodes that an answer brought.
unfoldable pub take_nodes :
    {R : Type 0} → (List NodeState → R) → Bytes → List NodeState → Waiting → Lookup R
unfolding begin_phase
take_nodes give my_id nodes w =
    let (snsa', closer) = insert_array nodes my_id false w.snsa in
    let w' = record w { snsa = snsa'; closer = closer; answered = suc w.answered } in
    if w'.answered == w.expected then next_phase give w' else waiting w'

-- `lookupSingle` has marked a node as one that responded; `select` has read a reply of one of the
-- phase's nodes; the ticker has fired.
pub data Event : Type 0 where
  responds : NodeState → Event
  replies : Message → Event
  times_out : Event

-- What `LookupValue` returns.
abbrev pub Found : Type 0
Found = Option Bytes

abbrev pub not_found : List NodeState → Found
not_found closest = none

module _ (my_id : Bytes) where
  -- One event of `LookupNodes`. The reply is read from `NodeReply`. In a round the ticker is stopped as
  -- soon as it is made.
  unfoldable pub node_event : Event → Waiting → Outcome (Lookup (List NodeState))
  unfolding take_nodes begin_phase
  node_event (responds ns) w = ok (waiting (record w { snsa = set_responded ns w.snsa }))
  node_event (replies msg) w =
      deref msg.node_reply (λ r. take_nodes (λ closest. closest) my_id r.node_states w)
  node_event times_out w = elim w.phase [
    | round ↦ ok (waiting w)
    | final ↦ ok (next_phase (λ closest. closest) w)
  ]

  -- One event of `LookupValue`, with the array as it is then.
  unfoldable pub value_event : Event → Waiting → Outcome (Lookup Found)
  unfolding take_nodes begin_phase
  value_event (responds ns) w = ok (waiting (record w { snsa = set_responded ns w.snsa }))
  value_event (replies msg) w = do
    r ← deref msg.value_reply (λ (r : ValueReply). r)
    elim r.data_bytes [
      | some data_bytes ↦ ok (finished (some data_bytes) w.snsa w.phases)
      | none ↦ deref r.node_states (λ nodes. take_nodes not_found my_id nodes w)
    ]
  value_event times_out w = ok (next_phase not_found w)

-- The events after the first phase has begun.
unfoldable pub run_lookup :
    {R : Type 0}
    → (Event → Waiting → Outcome (Lookup R))
    → List Event
    → Lookup R
    → Outcome (Lookup R)
run_lookup step [] l = ok l
run_lookup step (e ∷ es) l = elim l [
  | finished r snsa phases ↦ ok (finished r snsa phases)
  | waiting w ↦ step e w >>= λ l'. run_lookup step es l'
]

-- The array with which both lookups start.
unfoldable pub start_array : Bytes → BucketTable → Bytes → SafeNodeStateArray
start_array my_id table id =
    (insert_array (alpha_closest id 3 table) my_id false (new_safe_node_state_array id)).0

-- `LookupNodes` after the rounds: the own node is inserted, and up to 20 nodes are returned.
unfoldable pub with_own_node : Bytes → NodeState → List NodeState → List NodeState
with_own_node id my_node closest = take bucket_size (insert_ordered id closest my_node)

abbrev pub return_nodes : Bytes → NodeState → Lookup (List NodeState) → Lookup (List NodeState)
return_nodes id my_node (waiting w) = waiting w
return_nodes id my_node (finished closest snsa phases) =
    finished (with_own_node id my_node closest) snsa phases

unfoldable pub lookup_nodes :
    NodeState → BucketTable → Bytes → List Event → Outcome (Lookup (List NodeState))
unfolding run_lookup node_event start_array begin_phase with_own_node
lookup_nodes my_node table id events =
    run_lookup (node_event my_node.node_id) events
      (begin_phase (λ closest. closest) round (start_array my_node.node_id table id) 0 [])
    >>= λ l. ok (return_nodes id my_node l)

-- `LookupValue`; `local` is what the own store has.
unfoldable pub lookup_value :
    Bytes → BucketTable → Bytes → Option Bytes → List Event → Outcome (Lookup Found)
unfolding run_lookup value_event start_array begin_phase
lookup_value my_id table id local events =
    let snsa = start_array my_id table id in
    elim local [
      | some data_bytes ↦ ok (finished (some data_bytes) snsa 0)
      | none ↦ run_lookup (value_event my_id) events (begin_phase not_found round snsa 0 [])
    ]
