-- ===== src/Dht/Lookup/Answers.antt =====
-- gossiper/dhtAPI.go: the nodes that `LookupNodes` returns are nodes that responded, and the own one.
use peerster.Dht.Lookup.Runs.{>>=-IfOk, IfOk, run_lookup-keeps}
use peerster.Base.{
  All, All-mono, Bool, Bool-cases, Bytes, List, List-cases, Option-cases, [], ap, arith, false,
  if◌then◌else◌, inl, inr, keep, length, length-take, refl, subst, suc, sym, take, true, zero, ℕ,
  ◌==◌, ◌∷◌, ◌≡◌, ◌≤◌, ◌⊎◌,
}
use peerster.Dht.Types.{NodeState}
use peerster.Dht.Buckets.{BucketTable, bucket_size}
use peerster.Dht.Distance.{insert_ordered, is_closer}
use peerster.Dht.Nodes.{SafeNodeStateArray, has_responded, insert_array}
use peerster.Dht.Nodes.Select.{live, selections}
use peerster.Dht.Lookup.{
  Event, Lookup, Phase, Waiting, begin_phase, final, finished, lookup_nodes, next_phase, node_event,
  replies, responds, return_nodes, round, selected, take_nodes, times_out, waiting, with_own_node,
}
use peerster.Dto.Packet.{Outcome, ok}

abbrev Responded : SafeNodeStateArray → NodeState → Type 0
Responded snsa n = has_responded snsa n ≡ true

abbrev Answered : Lookup (List NodeState) → Type 0
Answered (waiting w) = Unit
Answered (finished r snsa phases) = All (Responded snsa) r

keep-All : (p : NodeState → Bool) (ns : List NodeState) → All (λ n. p n ≡ true) (keep p ns)
keep-All p [] = tt
keep-All p (n ∷ ns) = elim (Bool-cases (p n)) [
  | inl e ↦ rw (keep, e) (e, keep-All p ns)
  | inr e ↦ rw (keep, e) (keep-All p ns)
]

take-All {κ} : (P : NodeState → Type κ) (k : ℕ) (ns : List NodeState) → All P ns → All P (take k ns)
take-All P zero ns h = tt
take-All P (suc k) [] h = tt
take-All P (suc k) (n ∷ ns) h = (h.0, take-All P k ns h.1)

insert_ordered-All {κ} :
    (P : NodeState → Type κ) (target : Bytes) (ns : List NodeState) (p : NodeState)
    → P p
    → All P ns
    → All P (insert_ordered target ns p)
unfolding insert_ordered
insert_ordered-All P target [] p h hs = (h, tt)
insert_ordered-All P target (n ∷ ns) p h hs =
    elim (Bool-cases (is_closer target n.node_id p.node_id)) [
      | inl e ↦ rw (insert_ordered, e) (h, hs)
      | inr e ↦ rw (insert_ordered, e) (hs.0, insert_ordered-All P target ns p h hs.1)
    ]

selected-Responded :
    (phase : Phase) (snsa : SafeNodeStateArray) → All (Responded snsa) (selected phase snsa).1
selected-Responded round snsa = tt
selected-Responded final snsa =
    let sel =
      ap (λ (x : List NodeState × List NodeState). x.1)
        (selections snsa bucket_size (omega arith)).2 in
    subst (λ ns. All (Responded snsa) ns) (sym sel)
      (keep-All (has_responded snsa) (take bucket_size (keep (live snsa) snsa.array)))

begin_phase-Answered :
    (phase : Phase) (snsa : SafeNodeStateArray) (phases : ℕ) (asked : List NodeState)
    → Answered (begin_phase (λ closest. closest) phase snsa phases asked)
unfolding begin_phase
begin_phase-Answered phase snsa phases asked = elim (List-cases (selected phase snsa).0) [
  | inl e ↦ rw (begin_phase, e) (selected-Responded phase snsa)
  | inr (n, ns, e) ↦ rw (begin_phase, e) tt
]

take_nodes-Answered :
    (my_id : Bytes) (nodes : List NodeState) (w : Waiting)
    → Answered (take_nodes (λ closest. closest) my_id nodes w)
unfolding take_nodes
take_nodes-Answered my_id nodes w =
    let r = insert_array nodes my_id false w.snsa in
    elim (Bool-cases (suc w.answered == w.expected)) [
      | inl e ↦
          rw (take_nodes, e)
            (begin_phase-Answered (if r.1 then round else final) r.0 w.phases w.asked)
      | inr e ↦ rw (take_nodes, e) tt
    ]

node_event-Answered :
    (my_id : Bytes) (e : Event) (w : Waiting) → IfOk Answered (node_event my_id e w)
unfolding node_event
node_event-Answered my_id (responds ns) w = tt
node_event-Answered my_id (replies msg) w = elim (Option-cases msg.node_reply) [
  | inl e ↦ rw (e) tt
  | inr (r, e) ↦ rw (e) (take_nodes-Answered my_id r.node_states w)
]
node_event-Answered my_id times_out w = over w.phase
  where
    over :
        (phase : Phase)
        → IfOk Answered (elim phase as (λ x. Outcome (Lookup (List NodeState))) [
          | round ↦ ok (waiting w)
          | final ↦ ok (next_phase (λ closest. closest) w)
        ])
    over round = tt
    over final = begin_phase-Answered (if w.closer then round else final) w.snsa w.phases w.asked

-- What `LookupNodes` gives: nodes that responded or the own one, and up to 20 of them.
abbrev Returned : NodeState → Lookup (List NodeState) → Type 0
Returned my_node (waiting w) = Unit
Returned my_node (finished r snsa phases) =
    All (λ n. (n ≡ my_node) ⊎ (has_responded snsa n ≡ true)) r × (length r ≤ bucket_size)

return_nodes-Returned :
    (id : Bytes) (my_node : NodeState) (l : Lookup (List NodeState))
    → Answered l
    → Returned my_node (return_nodes id my_node l)
unfolding with_own_node
return_nodes-Returned id my_node (waiting w) h = tt
return_nodes-Returned id my_node (finished r snsa phases) h =
    let Allowed : NodeState → Type 0 = λ n. (n ≡ my_node) ⊎ (has_responded snsa n ≡ true) in
    (
      take-All Allowed bucket_size _ (
          insert_ordered-All Allowed id r my_node (inl refl)
            (All-mono _ Allowed r (λ n e. inr e) h)),
      omega (arith, length-take bucket_size (insert_ordered id r my_node)),
    )

-- Whatever the nodes answer and in whatever order, when `LookupNodes` returns, it returns up to 20
-- nodes, and each is the own node or one that responded to a question.
pub lookup_nodes-responded :
    (my_node : NodeState) (table : BucketTable) (id : Bytes) (events : List Event)
    (closest : List NodeState) (snsa : SafeNodeStateArray) (phases : ℕ)
    → lookup_nodes my_node table id events ≡ ok (finished closest snsa phases)
    → All (λ n. (n ≡ my_node) ⊎ (has_responded snsa n ≡ true)) closest
      × (length closest ≤ bucket_size)
unfolding lookup_nodes
lookup_nodes-responded my_node table id events closest snsa phases e =
    subst (λ o. IfOk (Returned my_node) o) e
      (>>=-IfOk Answered (Returned my_node) _ (λ l. ok (return_nodes id my_node l))
        (return_nodes-Returned id my_node)
        (run_lookup-keeps Answered (node_event my_node.node_id)
          (λ ev w h. node_event-Answered my_node.node_id ev w) events _
          (begin_phase-Answered round _ 0 [])))
