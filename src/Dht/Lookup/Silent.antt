-- ===== src/Dht/Lookup/Silent.antt =====
-- gossiper/dhtAPI.go: a round of `LookupNodes` waits for all the nodes that it asked.
use peerster.Dto.Packet.{ok}
use peerster.Base.{
  Bytes, List, Option-cases, [], arith, false, inl, inr, refl, suc, ℕ, ◌+◌, ◌<◌, ◌==◌, ◌∷◌, ◌≡◌,
}
use peerster.Dht.Types.{NodeState}
use peerster.Dht.Nodes.{insert_array, set_responded}
use peerster.Dht.Lookup.{
  Event, Lookup, Waiting, finished, node_event, replies, responds, round, run_lookup, take_nodes,
  times_out, waiting,
}
use peerster.Dht.Lookup.Runs.{IfOk}

-- The replies among the events.
unfoldable pub count_replies : List Event → ℕ
count_replies [] = 0
count_replies (responds ns ∷ es) = count_replies es
count_replies (replies msg ∷ es) = suc (count_replies es)
count_replies (times_out ∷ es) = count_replies es

-- The lookup is in the phase that it was in, and waits.
abbrev pub StaysIn : Waiting → Lookup (List NodeState) → Type 0
StaysIn w (waiting w') = (w'.phase ≡ round) × (w'.phases ≡ w.phases)
StaysIn w (finished r snsa phases) = ⊥

round-ticks :
    (my_id : Bytes) (w : Waiting) → w.phase ≡ round → node_event my_id times_out w ≡ ok (waiting w)
unfolding node_event
round-ticks my_id w r = ground (arith, r)

take_nodes-waits :
    (my_id : Bytes) (nodes : List NodeState) (w : Waiting)
    → suc w.answered < w.expected
    → let r = insert_array nodes my_id false w.snsa in
      take_nodes (λ closest. closest) my_id nodes w
      ≡ waiting (record w { snsa = r.0; closer = r.1; answered = suc w.answered })
unfolding take_nodes
take_nodes-waits my_id nodes w l =
    let more : (suc w.answered == w.expected) ≡ false = ground (arith, l) in
    rw (take_nodes, more) refl

-- While a node that a round of `LookupNodes` asked is silent, neither further replies nor the
-- ticker end the round: the lookup does not return, and it does not ask another node.
pub round-waits :
    (my_id : Bytes) (es : List Event) (w : Waiting)
    → w.phase ≡ round
    → w.answered + count_replies es < w.expected
    → IfOk (StaysIn w) (run_lookup (node_event my_id) es (waiting w))
unfolding run_lookup node_event count_replies take_nodes
round-waits my_id [] w r l = (r, refl)
round-waits my_id (responds ns ∷ es) w r l =
    round-waits my_id es (record w { snsa = set_responded ns w.snsa }) r l
round-waits my_id (times_out ∷ es) w r l = rw (round-ticks my_id w r) (round-waits my_id es w r l)
round-waits my_id (replies msg ∷ es) w r l = elim (Option-cases msg.node_reply) [
  | inl e ↦ rw (e) tt
  | inr (reply, e) ↦
      let r' = insert_array reply.node_states my_id false w.snsa in
      rw (e, take_nodes-waits my_id reply.node_states w (omega (arith, l)))
        (round-waits my_id es (record w { snsa = r'.0; closer = r'.1; answered = suc w.answered }) r
          (omega (arith, l)))
]
