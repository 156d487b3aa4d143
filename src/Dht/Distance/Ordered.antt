-- ===== src/Dht/Distance/Ordered.antt =====
-- Properties of `InsertOrdered`: the order by distance to the target.
use mathlib.Core.List.Perm
use mathlib.Core.List.{Perm}
use peerster.Base.{All, Bool-cases, Bytes, List, [], arith, inl, inr, length, ◌∷◌, ◌≡◌}
use peerster.Dht.Types.{NodeState}
use peerster.Dht.Distance.{id_byte_size, insert_ordered, is_closer, xor_distance}
use peerster.Dht.Distance.Order.{length-xor_distance, ≼_of_above, ≼_trans, ◌≼◌}

-- The identifier has the 64 bytes of a `TypeID`.
abbrev pub IsId : Bytes → Type 0
IsId id = length id ≡ id_byte_size

abbrev pub HasId : NodeState → Type 0
HasId ns = IsId ns.node_id

module _ (target : Bytes) where
  -- The first node is not farther from the target than the second.
  abbrev pub Nearer : NodeState → NodeState → Type 0
  Nearer n m = xor_distance target n.node_id ≼ xor_distance target m.node_id

  -- From the closest to the farthest.
  abbrev pub Ordered : List NodeState → Type 0
  Ordered [] = Unit
  Ordered (n ∷ ns) = All (Nearer n) ns × Ordered ns

  module _ (sized : IsId target) where
    distance-size :
        (n : NodeState) → HasId n → length (xor_distance target n.node_id) ≡ id_byte_size
    distance-size n h = omega (arith, length-xor_distance target n.node_id (omega arith))

    Nearer-trans :
        (a b c : NodeState) → HasId a → HasId b → HasId c → Nearer a b → Nearer b c → Nearer a c
    Nearer-trans a b c ha hb hc =
        ≼_trans (xor_distance target a.node_id) (xor_distance target b.node_id)
          (xor_distance target c.node_id) (omega (arith, distance-size a ha, distance-size b hb))
          (omega (arith, distance-size b hb, distance-size c hc))

    All-Nearer-trans :
        (a b : NodeState) (ns : List NodeState)
        → HasId a
        → HasId b
        → All HasId ns
        → Nearer a b
        → All (Nearer b) ns
        → All (Nearer a) ns
    All-Nearer-trans a b [] ha hb hs p h = tt
    All-Nearer-trans a b (n ∷ ns) ha hb hs p h =
        (Nearer-trans a b n ha hb hs.0 p h.0, All-Nearer-trans a b ns ha hb hs.1 p h.1)

    pub All-insert :
        (P : NodeState → Type 0) (ns : List NodeState) (p : NodeState)
        → P p
        → All P ns
        → All P (insert_ordered target ns p)
    unfolding insert_ordered
    All-insert P [] p h hs = (h, tt)
    All-insert P (n ∷ ns) p h hs = elim (Bool-cases (is_closer target n.node_id p.node_id)) [
      | inl e ↦ rw e (h, hs)
      | inr e ↦ rw e (hs.0, All-insert P ns p h hs.1)
    ]

    -- To a target of 64 bytes, `InsertOrdered` of a node into nodes ordered from the closest to the
    -- farthest, all with identifiers of 64 bytes, gives nodes in that order.
    pub insert_ordered-Ordered :
        (ns : List NodeState) (p : NodeState)
        → HasId p
        → All HasId ns
        → Ordered ns
        → Ordered (insert_ordered target ns p)
    unfolding insert_ordered is_closer
    insert_ordered-Ordered [] p hp hs o = (tt, tt)
    insert_ordered-Ordered (n ∷ ns) p hp hs o =
        elim (Bool-cases (is_closer target n.node_id p.node_id)) [
          | inl e ↦
              let near : Nearer p n = ≼_of_above _ _ e in
              rw e ((near, All-Nearer-trans p n ns hp hs.0 hs.1 near o.0), o)
          | inr e ↦ rw e (All-insert (Nearer n) ns p e o.0, insert_ordered-Ordered ns p hp hs.1 o.1)
        ]

  insert_ordered-perm :
      (ns : List NodeState) (p : NodeState) → Perm (insert_ordered target ns p) (p ∷ ns)
  unfolding insert_ordered
  insert_ordered-perm [] p = Perm.refl (p ∷ [])
  insert_ordered-perm (n ∷ ns) p = elim (Bool-cases (is_closer target n.node_id p.node_id)) [
    | inl e ↦ rw e (Perm.refl (p ∷ n ∷ ns))
    | inr e ↦ rw e (Perm.trans (Perm.cons n (insert_ordered-perm ns p)) (Perm.swap p n ns))
  ]
