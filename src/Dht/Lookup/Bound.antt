-- ===== src/Dht/Lookup/Bound.antt =====
-- gossiper/dhtAPI.go: a lookup begins at most as many phases as it comes to know nodes.
use peerster.Dht.Lookup.Runs.{>>=-IfOk, IfOk, run_lookup-keeps}
use peerster.Dht.Buckets.{BucketTable, alpha_closest}
use peerster.Base.{
  Bool-cases, Bytes, List, List-cases, Option-cases, [], ap, arith, false, if◌then◌else◌, inl, inr,
  length, subst, suc, ℕ, ◌+◌, ◌==◌, ◌∷◌, ◌≡◌, ◌≤◌,
}
use peerster.Dht.Types.{NodeState}
use peerster.Dht.Nodes.{SafeNodeStateArray, insert_array, new_safe_node_state_array, set_responded}
use peerster.Dht.Lookup.{
  Event, Lookup, Phase, Waiting, begin_phase, final, finished, lookup_nodes, next_phase, node_event,
  not_found, replies, responds, return_nodes, round, selected, start_array, take_nodes, times_out,
  value_event, waiting,
}
use peerster.Dht.Lookup.Phases.{
  count_unqueried, insert_array-unqueried, query_all-array, query_all-loses, selected-unqueried,
}
use peerster.Dto.Packet.{Outcome, ok}

-- The phases begun, with the nodes that are not asked, are at most the nodes known.
abbrev pub Fits : SafeNodeStateArray → ℕ → Type 0
Fits snsa phases = phases + count_unqueried snsa ≤ length snsa.array

abbrev pub Bounded : {R : Type 0} → Lookup R → Type 0
Bounded (waiting w) = Fits w.snsa w.phases
Bounded (finished r snsa phases) = Fits snsa phases

module _ {R : Type 0} (give : List NodeState → R) where
  begin_phase-Bounded :
      (phase : Phase) (snsa : SafeNodeStateArray) (phases : ℕ) (asked : List NodeState)
      → Fits snsa phases
      → Bounded (begin_phase give phase snsa phases asked)
  unfolding begin_phase
  begin_phase-Bounded phase snsa phases asked h = elim (List-cases (selected phase snsa).0) [
    | inl e ↦ rw (begin_phase, e) h
    | inr (n, ns, e) ↦
        let (u, m) = selected-unqueried phase snsa n ns e in
        rw (begin_phase, e)
          (omega (
            arith,
            h,
            query_all-loses n ns snsa m u,
            ap (λ xs. length xs) (query_all-array (n ∷ ns) snsa),
          ))
  ]

  take_nodes-Bounded :
      (my_id : Bytes) (nodes : List NodeState) (w : Waiting)
      → Fits w.snsa w.phases
      → Bounded (take_nodes give my_id nodes w)
  unfolding take_nodes
  take_nodes-Bounded my_id nodes w h =
      let r = insert_array nodes my_id false w.snsa in
      let more : Fits r.0 w.phases =
        omega (arith, h, insert_array-unqueried nodes my_id false w.snsa) in
      elim (Bool-cases (suc w.answered == w.expected)) [
        | inl e ↦
            rw (take_nodes, e)
              (begin_phase-Bounded (if r.1 then round else final) r.0 w.phases w.asked more)
        | inr e ↦ rw (take_nodes, e) more
      ]

set_responded-Fits :
    (ns : NodeState) (snsa : SafeNodeStateArray) (phases : ℕ)
    → Fits snsa phases
    → Fits (set_responded ns snsa) phases
unfolding set_responded
set_responded-Fits ns snsa phases h = h

node_event-Bounded :
    (my_id : Bytes) (e : Event) (w : Waiting)
    → Fits w.snsa w.phases
    → IfOk Bounded (node_event my_id e w)
unfolding node_event
node_event-Bounded my_id (responds ns) w h = set_responded-Fits ns w.snsa w.phases h
node_event-Bounded my_id (replies msg) w h = elim (Option-cases msg.node_reply) [
  | inl e ↦ rw (e) tt
  | inr (r, e) ↦ rw (e) (take_nodes-Bounded (λ closest. closest) my_id r.node_states w h)
]
node_event-Bounded my_id times_out w h = over w.phase
  where
    over :
        (phase : Phase)
        → IfOk Bounded (elim phase as (λ x. Outcome (Lookup (List NodeState))) [
          | round ↦ ok (waiting w)
          | final ↦ ok (next_phase (λ closest. closest) w)
        ])
    over round = h
    over final =
        begin_phase-Bounded (λ closest. closest) (if w.closer then round else final) w.snsa w.phases
          w.asked h

value_event-Bounded :
    (my_id : Bytes) (e : Event) (w : Waiting)
    → Fits w.snsa w.phases
    → IfOk Bounded (value_event my_id e w)
unfolding value_event
value_event-Bounded my_id (responds ns) w h = set_responded-Fits ns w.snsa w.phases h
value_event-Bounded my_id (replies msg) w h = elim (Option-cases msg.value_reply) [
  | inl e ↦ rw (e) tt
  | inr (r, e) ↦ elim (Option-cases r.data_bytes) [
    | inr (d, q) ↦ rw (e, q) h
    | inl q ↦ elim (Option-cases r.node_states) [
      | inl s ↦ rw (e, q, s) tt
      | inr (nodes, s) ↦ rw (e, q, s) (take_nodes-Bounded not_found my_id nodes w h)
    ]
  ]
]
value_event-Bounded my_id times_out w h =
    begin_phase-Bounded not_found (if w.closer then round else final) w.snsa w.phases w.asked h

start_array-Fits :
    (my_id : Bytes) (table : BucketTable) (id : Bytes) → Fits (start_array my_id table id) 0
unfolding start_array
start_array-Fits my_id table id = omega (
  arith,
  insert_array-unqueried (alpha_closest id 3 table) my_id false (new_safe_node_state_array id),
)

return_nodes-Bounded :
    (id : Bytes) (my_node : NodeState) (l : Lookup (List NodeState))
    → Bounded l
    → Bounded (return_nodes id my_node l)
return_nodes-Bounded id my_node (waiting w) h = h
return_nodes-Bounded id my_node (finished closest snsa phases) h = h

abbrev pub phases_of : {R : Type 0} → Lookup R → ℕ
phases_of (waiting w) = w.phases
phases_of (finished r snsa phases) = phases

abbrev pub known : {R : Type 0} → Lookup R → SafeNodeStateArray
known (waiting w) = w.snsa
known (finished r snsa phases) = snsa

Bounded-phases : {R : Type 0} (l : Lookup R) → Bounded l → phases_of l ≤ length (known l).array
Bounded-phases (waiting w) h = omega (arith, h)
Bounded-phases (finished r snsa phases) h = omega (arith, h)

-- However the nodes answer, when the run of `LookupNodes` has come to some point, or to its end, it has
-- begun at most as many phases as there are nodes in its array, so it ends if the answers bring it
-- finitely many nodes and each phase ends.
pub lookup_nodes-phases :
    (my_node : NodeState) (table : BucketTable) (id : Bytes) (events : List Event)
    (l : Lookup (List NodeState))
    → lookup_nodes my_node table id events ≡ ok l
    → phases_of l ≤ length (known l).array
unfolding lookup_nodes
lookup_nodes-phases my_node table id events l e = Bounded-phases l (
    subst (λ o. IfOk Bounded o) e
      (>>=-IfOk Bounded Bounded _ (λ l'. ok (return_nodes id my_node l'))
        (return_nodes-Bounded id my_node)
        (run_lookup-keeps Bounded (node_event my_node.node_id) (node_event-Bounded my_node.node_id)
          events _
          (begin_phase-Bounded (λ closest. closest) round _ 0 []
            (start_array-Fits my_node.node_id table id)))))
