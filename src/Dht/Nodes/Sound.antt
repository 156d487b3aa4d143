-- ===== src/Dht/Nodes/Sound.antt =====
-- Properties of the array of a lookup: its order, its members, and its set.
use mathlib.Core.List.{map}
use peerster.Base.{
  All, Bool, Bool-cases, Bytes, Bytes-discrete, List, [], arith, false, inl, inr, is_yes, load,
  load-store, map, refl, subst, sym, true, ◌||◌, ◌∙◌, ◌∷◌, ◌≡◌, ◌≢◌, ◌⊎◌,
}
use peerster.Dto.Arrays.Unique.{contains, distinct}
use peerster.Dht.Types.{NodeState}
use peerster.Dht.Distance.{insert_ordered, xor_distance}
use peerster.Dht.Distance.Ordered.{All-insert, HasId, IsId, Nearer, Ordered, insert_ordered-Ordered}
use peerster.Dht.Distance.Order.{≼_refl, ◌≼◌}
use peerster.Dht.Nodes.{
  SafeNodeStateArray, heads, insert, insert_array, lookup_bool, new_safe_node_state_array,
}

abbrev pub ids : List NodeState → List Bytes
ids = map (λ n. n.node_id)

abbrev pub has : Bytes → List Bytes → Bool
has = contains Bytes-discrete

pub record IsSound (snsa : SafeNodeStateArray) : Type 0 where
  pub sized : IsId snsa.target
  pub nodes : All HasId snsa.array
  pub ordered : Ordered snsa.target snsa.array
  pub tracked : (k : Bytes) → lookup_bool k snsa.exists ≡ has k (ids snsa.array)
  pub once : distinct Bytes-discrete (ids snsa.array) ≡ true

pub new-IsSound : (target : Bytes) → IsId target → IsSound (new_safe_node_state_array target)
unfolding load contains distinct
new-IsSound target sized = record {
  sized = sized;
  nodes = tt;
  ordered = tt;
  tracked = λ k. refl;
  once = refl;
}

insert_ordered-has :
    (target k : Bytes) (ns : List NodeState) (p : NodeState)
    → has k (ids (insert_ordered target ns p))
      ≡ (is_yes (Bytes-discrete p.node_id k) || has k (ids ns))
unfolding insert_ordered contains
insert_ordered-has target k [] p = refl
insert_ordered-has target k (n ∷ ns) p = ground (arith, insert_ordered-has target k ns p)

insert_ordered-distinct :
    (target : Bytes) (ns : List NodeState) (p : NodeState)
    → has p.node_id (ids ns) ≡ false
    → distinct Bytes-discrete (ids ns) ≡ true
    → distinct Bytes-discrete (ids (insert_ordered target ns p)) ≡ true
unfolding insert_ordered contains distinct
insert_ordered-distinct target [] p h d = refl
insert_ordered-distinct target (n ∷ ns) p h d = ground (
  arith,
  insert_ordered-has target n.node_id ns p,
  insert_ordered-distinct target ns p,
  Bytes-discrete n.node_id p.node_id,
  Bytes-discrete p.node_id n.node_id,
)

-- The head of an ordered list is nearer than all of it.
head-Nearer :
    (target : Bytes) (ns : List NodeState) (p : NodeState)
    → heads p ns ≡ true
    → Ordered target ns
    → All (λ n. xor_distance target p.node_id ≼ xor_distance target n.node_id) ns
head-Nearer target [] p h o = tt
head-Nearer target (n ∷ ns) p h o =
    let same : n.node_id ≡ p.node_id = ground arith in
    subst (λ id. All (λ m. xor_distance target id ≼ xor_distance target m.node_id) (n ∷ ns)) same
      (≼_refl (xor_distance target n.node_id), o.0)

-- `Insert` of a node with an identifier of 64 bytes into a sound array: the array stays sound and
-- then holds exactly the nodes it held and the one given; the result is false, or the node is new
-- and no node of the array is closer to the target.
pub insert-IsSound :
    (p : NodeState) (snsa : SafeNodeStateArray)
    → HasId p
    → IsSound snsa
    → let r = insert p snsa in
      IsSound r.0
      × ((k : Bytes)
          → has k (ids r.0.array) ≡ (is_yes (Bytes-discrete p.node_id k) || has k (ids snsa.array)))
      × ((r.1 ≡ false)
          ⊎ ((has p.node_id (ids snsa.array) ≡ false) × All (Nearer snsa.target p) r.0.array))
unfolding insert
insert-IsSound p snsa hp s = elim (Bool-cases (lookup_bool p.node_id snsa.exists)) [
  | inl old ↦ rw old (s, λ k. ground (arith, s.tracked p.node_id), inl refl)
  | inr fresh ↦
      let absent : has p.node_id (ids snsa.array) ≡ false = sym (s.tracked p.node_id) ∙ fresh in
      let ordered = insert_ordered-Ordered snsa.target s.sized snsa.array p hp s.nodes s.ordered in
      rw fresh (
        record {
          sized = s.sized;
          nodes = All-insert snsa.target s.sized HasId snsa.array p hp s.nodes;
          ordered = ordered;
          tracked = λ k. ground (
            arith,
            s.tracked k,
            load-store Bytes-discrete p.node_id k true snsa.exists,
            insert_ordered-has snsa.target k snsa.array p,
          );
          once = insert_ordered-distinct snsa.target snsa.array p absent s.once;
        },
        λ k. insert_ordered-has snsa.target k snsa.array p,
        elim (Bool-cases (heads p (insert_ordered snsa.target snsa.array p))) [
          | inl e ↦ inr (absent, head-Nearer snsa.target _ p e ordered)
          | inr e ↦ inl e
        ],
      )
]

-- `InsertArray` of nodes with identifiers of 64 bytes keeps a sound array sound: ordered by
-- distance to the target, without a node twice, and with a set that has exactly its nodes.
insert_array-IsSound :
    (nodes : List NodeState) (except : Bytes) (closer : Bool) (snsa : SafeNodeStateArray)
    → All HasId nodes
    → IsSound snsa
    → IsSound (insert_array nodes except closer snsa).0
unfolding insert_array
insert_array-IsSound [] except closer snsa h s = s
insert_array-IsSound (node ∷ nodes) except closer snsa h s =
    elim (Bool-cases (is_yes (Bytes-discrete node.node_id except) || closer)) [
      | inl skip ↦ rw (skip, insert_array) (insert_array-IsSound nodes except closer snsa h.1 s)
      | inr take_it ↦
          rw (take_it, insert_array)
            (insert_array-IsSound nodes except (insert node snsa).1 (insert node snsa).0 h.1
              (insert-IsSound node snsa h.0 s).0)
    ]

insert_array-closer :
    (nodes : List NodeState) (except : Bytes) (snsa : SafeNodeStateArray)
    → insert_array nodes except true snsa ≡ (snsa, true)
unfolding insert_array
insert_array-closer [] except snsa = refl
insert_array-closer (node ∷ nodes) except snsa =
    ground (arith, insert_array-closer nodes except snsa)

-- If the first node of a reply is not the excepted one and becomes the closest so far, the nodes
-- behind it in the reply are not inserted: the array is as after the first one alone.
insert_array-drops :
    (node : NodeState) (nodes : List NodeState) (except : Bytes) (snsa : SafeNodeStateArray)
    → node.node_id ≢ except
    → (insert node snsa).1 ≡ true
    → insert_array (node ∷ nodes) except false snsa ≡ ((insert node snsa).0, true)
unfolding insert_array
insert_array-drops node nodes except snsa ne h =
    ground (arith, h, insert_array-closer nodes except (insert node snsa).0)
