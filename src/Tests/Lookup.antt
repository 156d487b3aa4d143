-- ===== src/Tests/Lookup.antt =====
-- Cases for lookups in the hash table.
use peerster.Dht.Distance.{compare_ids, insert_ordered, is_closer, xor_distance}
use peerster.Dht.Lookup.Silent.{StaysIn, count_replies, round-waits}
use peerster.Dht.Lookup.Answers.{lookup_nodes-responded}
use peerster.Dht.Lookup.Bound.{lookup_nodes-phases}
use peerster.Dht.Lookup.Runs.{IfOk}
use peerster.Base.{
  All, Bytes-discrete, List, [], arith, false, length, load, none, refl, some, store, true, ℕ,
  ℕ_discrete, ◌∷◌, ◌≡◌, ◌≤◌, ◌⊎◌,
}
use peerster.Dht.Types.{Message, NodeState}
use peerster.Dht.Buckets.{BucketTable, alpha_closest, bucket_size}
use peerster.Dht.Nodes.{
  SafeNodeStateArray, get_alpha_unqueried, get_k_closest_unqueried, has_responded, insert,
  insert_array, set_queried, set_responded,
}
use peerster.Dht.Lookup.{
  Event, Waiting, finished, lookup_nodes, node_event, replies, responds, round, run_lookup,
  times_out, waiting,
}
use peerster.Dto.Packet.{ok}

abbrev node : ℕ → NodeState
node b = record { node_id = b ∷ []; address = b ∷ [] }

abbrev table : BucketTable
table = record { my_node_id = 0 ∷ []; buckets = (node 1 ∷ []) ∷ [] }

-- A reply that brings the nodes.
abbrev reply : List NodeState → Message
reply nodes = record {
  nonce = 7;
  sender_id = 1 ∷ [];
  store = none;
  ping = none;
  ping_reply = none;
  node_lookup = none;
  node_reply = some (record { node_states = nodes });
  value_lookup = none;
  value_reply = none;
}

-- The first node names a closer one, which is asked next and names none.
abbrev both_answer : List Event
both_answer =
    responds (node 1) ∷ replies (reply (node 2 ∷ [])) ∷ responds (node 2) ∷ replies (reply []) ∷ []

abbrev array_after : SafeNodeStateArray
array_after = record {
  target = 3 ∷ [];
  exists = (1 ∷ [], true) ∷ (2 ∷ [], true) ∷ [];
  queried = (1 ∷ [], true) ∷ (2 ∷ [], true) ∷ [];
  responded = (1 ∷ [], true) ∷ (2 ∷ [], true) ∷ [];
  array = node 2 ∷ node 1 ∷ [];
}

looked_up :
    lookup_nodes (node 0) table (3 ∷ []) both_answer
    ≡ ok (finished (node 2 ∷ node 1 ∷ node 0 ∷ []) array_after 2)
unfolding lookup_nodes get_alpha_unqueried insert_array alpha_closest Bytes-discrete ℕ_discrete
    insert load insert_ordered get_k_closest_unqueried set_responded set_queried store is_closer
    compare_ids xor_distance
looked_up = refl

lookup_nodes-phases_example : 2 ≤ length array_after.array
lookup_nodes-phases_example =
    lookup_nodes-phases (node 0) table (3 ∷ []) both_answer
      (finished (node 2 ∷ node 1 ∷ node 0 ∷ []) array_after 2) looked_up

lookup_nodes-responded_example :
    All (λ n. (n ≡ node 0) ⊎ (has_responded array_after n ≡ true)) (node 2 ∷ node 1 ∷ node 0 ∷ [])
    × (3 ≤ bucket_size)
lookup_nodes-responded_example =
    lookup_nodes-responded (node 0) table (3 ∷ []) both_answer (node 2 ∷ node 1 ∷ node 0 ∷ [])
      array_after 2 looked_up

-- A round that asked two nodes.
abbrev asking : Waiting
asking = record {
  phase = round;
  snsa = array_after;
  expected = 2;
  answered = 0;
  closer = false;
  phases = 1;
  asked = node 1 ∷ node 2 ∷ [];
}

one_reply : count_replies (times_out ∷ replies (reply []) ∷ times_out ∷ []) ≡ 1
unfolding count_replies
one_reply = refl

round-waits_example : IfOk (StaysIn asking) (
    run_lookup
      (node_event (0 ∷ []))
      (times_out ∷ replies (reply []) ∷ times_out ∷ [])
      (waiting asking))
round-waits_example =
    round-waits (0 ∷ []) (times_out ∷ replies (reply []) ∷ times_out ∷ []) asking refl
      (omega (arith, one_reply))
