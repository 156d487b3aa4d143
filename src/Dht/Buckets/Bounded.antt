-- ===== src/Dht/Buckets/Bounded.antt =====
-- Properties of the buckets: their size, their members, and the indices that an update uses.
use mathlib.Core.List.{append-nil}
use peerster.Base.{
  All, Bool, Bool-cases, Bytes, Bytes-discrete, List, Option, Option-cases, [], ap, arith, false,
  get_elem?, inl, inr, is_yes, leb, length, length-append, ltb, none, refl, set, some, subst, suc,
  sym, take, true, zero, ℕ, ◌*◌, ◌++◌, ◌+◌, ◌-◌, ◌<◌, ◌∙◌, ◌∷◌, ◌≡◌, ◌≤◌,
}
use peerster.Dto.Arrays.Unique.{contains, distinct}
use peerster.Dht.Types.{NodeState}
use peerster.Dht.Distance.{common_leading_bits, id_byte_size}
use peerster.Dht.Nodes.Sound.{has, ids}
use peerster.Dht.Buckets.{
  Bucket, BucketTable, bucket_size, empty_buckets, find_node, new_bucket_table, update_node,
  update_table,
}

-- The bucket of a layer: within its size, with nodes of the layer only, and none twice.
pub record IsLayer (my_id : Bytes) (layer : ℕ) (nodes : Bucket) : Type 0 where
  pub bounded : length nodes ≤ bucket_size
  pub shared : All (λ n. common_leading_bits my_id n.node_id ≡ layer) nodes
  pub once : distinct Bytes-discrete (ids nodes) ≡ true

-- What the search finds splits the bucket.
abbrev pub Splits : Bytes → Bucket → Option (Bucket × NodeState × Bucket) → Type 0
Splits id nodes none = has id (ids nodes) ≡ false
Splits id nodes (some (before, found, behind)) =
    (nodes ≡ before ++ found ∷ behind) × (found.node_id ≡ id) × (has id (ids before) ≡ false)

cons-Splits :
    (id : Bytes) (node : NodeState) (nodes : Bucket) (r : Option (Bucket × NodeState × Bucket))
    → is_yes (Bytes-discrete node.node_id id) ≡ false
    → Splits id nodes r
    → Splits id (node ∷ nodes) (elim r [
      | none ↦ none
      | some (before, found, behind) ↦ some (node ∷ before, found, behind)
    ])
unfolding contains
cons-Splits id node nodes none ne h = ground (arith, h)
cons-Splits id node nodes (some (before, found, behind)) ne h =
    (ap (◌∷◌ node) h.0, h.1, ground (arith, h.2))

find_node-Splits : (id : Bytes) (nodes : Bucket) → Splits id nodes (find_node id nodes)
unfolding find_node contains
find_node-Splits id [] = refl
find_node-Splits id (node ∷ nodes) = elim (Bool-cases (is_yes (Bytes-discrete node.node_id id))) [
  | inl e ↦ rw (e, find_node) (refl, ground arith, refl)
  | inr e ↦
      rw (e, find_node)
        (cons-Splits id node nodes (find_node id nodes) e (find_node-Splits id nodes))
]

-- Moving an entry to the front.
All-front :
    (P : NodeState → Type 0) (before : Bucket) (found : NodeState) (behind : Bucket)
    → All P (before ++ found ∷ behind)
    → All P ((found ∷ before) ++ behind)
All-front P [] found behind h = h
All-front P (n ∷ before) found behind h =
    let rest = All-front P before found behind h.1 in (rest.0, (h.0, rest.1))

length-front :
    (before : Bucket) (found : NodeState) (behind : Bucket)
    → length ((found ∷ before) ++ behind) ≡ length (before ++ found ∷ behind)
length-front before found behind =
    omega (arith, length-append before behind, length-append before (found ∷ behind))

has-front :
    (k : Bytes) (before : Bucket) (found : NodeState) (behind : Bucket)
    → has k (ids ((found ∷ before) ++ behind)) ≡ has k (ids (before ++ found ∷ behind))
unfolding contains
has-front k [] found behind = refl
has-front k (n ∷ before) found behind = ground (arith, has-front k before found behind)

distinct-front :
    (before : Bucket) (found : NodeState) (behind : Bucket)
    → distinct Bytes-discrete (ids (before ++ found ∷ behind)) ≡ true
    → distinct Bytes-discrete (ids ((found ∷ before) ++ behind)) ≡ true
unfolding contains distinct
distinct-front [] found behind h = h
distinct-front (n ∷ before) found behind h = ground (
  arith,
  distinct-front before found behind,
  has-front n.node_id before found behind,
  Bytes-discrete n.node_id found.node_id,
  Bytes-discrete found.node_id n.node_id,
)

-- A full bucket ends in the node that is pinged.
take-last :
    (n : ℕ) (nodes : Bucket) (l : NodeState)
    → length nodes ≡ suc n
    → get_elem? nodes n ≡ some l
    → nodes ≡ take n nodes ++ l ∷ []
take-last n [] l h e = absurd (omega arith)
take-last zero (x ∷ []) l h e = ground arith
take-last zero (x ∷ y ∷ nodes) l h e = absurd (omega arith)
take-last (suc n) (x ∷ nodes) l h e = ap (◌∷◌ x) (take-last n nodes l (omega arith) e)

has-take :
    (k : Bytes) (n : ℕ) (nodes : Bucket)
    → has k (ids nodes) ≡ false
    → has k (ids (take n nodes)) ≡ false
unfolding contains
has-take k zero nodes h = refl
has-take k (suc n) [] h = refl
has-take k (suc n) (x ∷ nodes) h = ground (arith, has-take k n nodes)

module _ (my_id : Bytes) (layer : ℕ) where
  abbrev Here : NodeState → Type 0
  Here n = common_leading_bits my_id n.node_id ≡ layer

  front-IsLayer :
      (before : Bucket) (found : NodeState) (behind : Bucket)
      → IsLayer my_id layer (before ++ found ∷ behind)
      → IsLayer my_id layer ((found ∷ before) ++ behind)
  front-IsLayer before found behind h = record {
    bounded = omega (arith, h.bounded, length-front before found behind);
    shared = All-front Here before found behind h.shared;
    once = distinct-front before found behind h.once;
  }

  -- The last node of a full bucket moved to the front.
  last-IsLayer :
      (nodes : Bucket) (l : NodeState)
      → IsLayer my_id layer nodes
      → bucket_size ≤ length nodes
      → get_elem? nodes (bucket_size - 1) ≡ some l
      → IsLayer my_id layer (l ∷ take (bucket_size - 1) nodes)
  last-IsLayer nodes l h full e =
      let before = take (bucket_size - 1) nodes in
      let split = take-last (bucket_size - 1) nodes l (omega (arith, h.bounded)) e in
      subst (λ b. IsLayer my_id layer (l ∷ b)) (append-nil before)
        (front-IsLayer before l [] (subst (IsLayer my_id layer) split h))

  -- A new node in place of the first of a bucket.
  replace-IsLayer :
      (ns l : NodeState) (before : Bucket)
      → Here ns
      → has ns.node_id (ids before) ≡ false
      → IsLayer my_id layer (l ∷ before)
      → IsLayer my_id layer (ns ∷ before)
  unfolding distinct
  replace-IsLayer ns l before here new h = record {
    bounded = omega (arith, h.bounded);
    shared = (here, h.shared.1);
    once = ground (arith, h.once);
  }

  new_node-IsLayer :
      (answers : NodeState → Bool) (ns : NodeState) (nodes : Bucket)
      → Here ns
      → IsLayer my_id layer nodes
      → find_node ns.node_id nodes ≡ none
      → has ns.node_id (ids nodes) ≡ false
      → IsLayer my_id layer (update_node answers ns nodes).0
  unfolding update_node distinct
  new_node-IsLayer answers ns nodes here h e new =
      elim (Bool-cases (leb bucket_size (length nodes))) [
        | inr room ↦
            rw (e, room, update_node)
              (record {
                bounded = ground arith;
                shared = (here, h.shared);
                once = ground (arith, h.once);
              })
        | inl full ↦ elim (Option-cases (get_elem? nodes (bucket_size - 1))) [
          | inl missing ↦ rw (e, full, missing, update_node) h
          | inr (l, found) ↦
              let moved = last-IsLayer nodes l h (ground arith) found in
              elim (Bool-cases (answers l)) [
                | inl alive ↦ rw (e, full, found, alive, update_node) moved
                | inr dead ↦
                    rw (e, full, found, dead, update_node)
                      (replace-IsLayer ns l (take (bucket_size - 1) nodes) here
                        (has-take ns.node_id (bucket_size - 1) nodes new) moved)
              ]
        ]
      ]

  -- `updateNode` with a node of the layer keeps the bucket within its size, in its layer and without
  -- repeats, whatever answers the pings.
  update_node-IsLayer :
      (answers : NodeState → Bool) (ns : NodeState) (nodes : Bucket)
      → Here ns
      → IsLayer my_id layer nodes
      → IsLayer my_id layer (update_node answers ns nodes).0
  unfolding update_node
  update_node-IsLayer answers ns nodes here h = elim (Option-cases (find_node ns.node_id nodes)) [
    | inl e ↦
        new_node-IsLayer answers ns nodes here h e
          (subst (Splits ns.node_id nodes) e (find_node-Splits ns.node_id nodes))
    | inr ((before, found, behind), e) ↦
        let split = subst (Splits ns.node_id nodes) e (find_node-Splits ns.node_id nodes) in
        rw (e, update_node)
          (front-IsLayer before found behind (subst (IsLayer my_id layer) split.0 h))
  ]

-- The buckets from a layer on, each sound for its layer.
abbrev pub Layers : Bytes → ℕ → List Bucket → Type 0
Layers my_id layer [] = Unit
Layers my_id layer (b ∷ bs) = IsLayer my_id layer b × Layers my_id (suc layer) bs

pub record IsTable (bt : BucketTable) : Type 0 where
  pub count : length bt.buckets ≡ id_byte_size * 8
  pub layers : Layers bt.my_node_id 0 bt.buckets

-- A bucket by its index, and a table with that bucket replaced.
Layers-set :
    (my_id : Bytes) (layer i : ℕ) (bs : List Bucket)
    → i < length bs
    → Layers my_id layer bs
    → (b : Bucket) × (get_elem? bs i ≡ some b)
      × IsLayer my_id (layer + i) b
      × ((b' : Bucket)
          → IsLayer my_id (layer + i) b'
          → Layers my_id layer (set bs i b') × (length (set bs i b') ≡ length bs))
Layers-set my_id layer i [] h k = absurd (omega arith)
Layers-set my_id layer zero (b ∷ bs) h k =
    let e : layer ≡ layer + 0 = omega arith in
    (
      b,
      refl,
      subst (λ n. IsLayer my_id n b) e k.0,
      λ b' s. ((subst (λ n. IsLayer my_id n b') (sym e) s, k.1), refl),
    )
Layers-set my_id layer (suc i) (b ∷ bs) h k =
    let rest = Layers-set my_id (suc layer) i bs (omega arith) k.1 in
    let e : suc layer + i ≡ layer + suc i = omega arith in
    (
      rest.0,
      rest.1,
      subst (λ n. IsLayer my_id n rest.0) e rest.2,
      λ b' s.
          let r = rest.3 b' (subst (λ n. IsLayer my_id n b') (sym e) s) in ((k.0, r.0), ap suc r.1),
    )

-- An update of a sound table never indexes out of range, and leaves the table sound: 512 buckets,
-- each of at most 20 nodes that share exactly as many leading bits with the own identifier as the
-- bucket's index says, none twice.
pub update_table-IsTable :
    (answers : NodeState → Bool) (ns : NodeState) (bt : BucketTable)
    → IsTable bt
    → (bt' : BucketTable) × (changed : Bool) × (update_table answers ns bt ≡ some (bt', changed))
      × IsTable bt'
unfolding update_table
update_table-IsTable answers ns bt h =
    let clb = common_leading_bits bt.my_node_id ns.node_id in
    elim (Bool-cases (ltb clb (id_byte_size * 8))) [
      | inl inside ↦
          let at = Layers-set bt.my_node_id 0 clb bt.buckets (ground (arith, h.count)) h.layers in
          let e : clb ≡ 0 + clb = omega arith in
          let b' = (update_node answers ns at.0).0 in
          let kept = update_node-IsLayer bt.my_node_id (0 + clb) answers ns at.0 e at.2 in
          let done = at.3 b' kept in
          (
            record bt { buckets = set bt.buckets clb b' },
            (update_node answers ns at.0).1,
            rw (inside, at.1, update_table),
            record { count = done.1 ∙ h.count; layers = done.0 },
          )
      | inr outside ↦ (bt, false, rw (outside, update_table), h)
    ]

empty-Layers :
    (my_id : Bytes) (n layer : ℕ)
    → Layers my_id layer (empty_buckets n) × (length (empty_buckets n) ≡ n)
unfolding empty_buckets distinct
empty-Layers my_id zero layer = (tt, refl)
empty-Layers my_id (suc n) layer =
    let rest = empty-Layers my_id n (suc layer) in
    ((record { bounded = omega arith; shared = tt; once = refl }, rest.0), ap suc rest.1)

pub new_bucket_table-IsTable : (my_node_id : Bytes) → IsTable (new_bucket_table my_node_id)
unfolding new_bucket_table
new_bucket_table-IsTable my_node_id =
    let e = empty-Layers my_node_id (id_byte_size * 8) 0 in record { count = e.1; layers = e.0 }
