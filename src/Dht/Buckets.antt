-- ===== src/Dht/Buckets.antt =====
-- gossiper/kBuckets.go: the table of known nodes, by the number of leading bits shared with the own
-- identifier.
pub mod Bounded
pub mod Closest
use peerster.Base.{
  Bool, Bytes, Bytes-discrete, List, Option, [], false, get_elem?, if◌then◌else◌, is_yes, leb,
  length, ltb, none, set, some, suc, take, true, zero, ℕ, ◌*◌, ◌++◌, ◌-◌, ◌∷◌,
}
use peerster.Dht.Types.{NodeState}
use peerster.Dht.Distance.{common_leading_bits, id_byte_size, insert_ordered}

abbrev pub bucket_size : ℕ
bucket_size = 20

abbrev pub Bucket : Type 0
Bucket = List NodeState

-- The search for the node in the bucket: the nodes before it, the entry, and those behind it.
unfoldable pub find_node : Bytes → Bucket → Option (Bucket × NodeState × Bucket)
find_node id [] = none
find_node id (node ∷ nodes) =
    if is_yes (Bytes-discrete node.node_id id)
    then some ([], node, nodes)
    else elim (find_node id nodes) [
      | none ↦ none
      | some (before, found, behind) ↦ some (node ∷ before, found, behind)
    ]

-- `updateNode`. `answers` says whether a node answers a ping.
unfoldable pub update_node : (NodeState → Bool) → NodeState → Bucket → Bucket × Bool
unfolding find_node
update_node answers ns nodes = elim (find_node ns.node_id nodes) [
  | some (before, found, behind) ↦ ((found ∷ before) ++ behind, false)
  | none ↦
      if leb bucket_size (length nodes)
      then elim (get_elem? nodes (bucket_size - 1)) [
        | none ↦ (nodes, false)
        | some last_node ↦
            if answers last_node
            then (last_node ∷ take (bucket_size - 1) nodes, false)
            else (ns ∷ take (bucket_size - 1) nodes, true)
      ]
      else (ns ∷ nodes, true)
]

pub record BucketTable : Type 0 where
  pub my_node_id : Bytes
  pub buckets : List Bucket

unfoldable pub empty_buckets : ℕ → List Bucket
empty_buckets zero = []
empty_buckets (suc n) = [] ∷ empty_buckets n

unfoldable pub new_bucket_table : Bytes → BucketTable
unfolding empty_buckets
new_bucket_table my_node_id = record {
  my_node_id = my_node_id;
  buckets = empty_buckets (id_byte_size * 8);
}

-- `none` is an index out of range, which panics.
unfoldable pub update_table :
    (NodeState → Bool) → NodeState → BucketTable → Option (BucketTable × Bool)
update_table answers ns bt =
    let clb = common_leading_bits bt.my_node_id ns.node_id in
    if ltb clb (id_byte_size * 8)
    then elim (get_elem? bt.buckets clb) [
      | none ↦ none
      | some bucket ↦
          let (bucket', changed) = update_node answers ns bucket in
          some (record bt { buckets = set bt.buckets clb bucket' }, changed)
    ]
    else some (bt, false)

-- The inner loop of `alphaClosest`: up to `alpha` nodes are taken as they come, and only the later ones
-- are inserted by distance.
unfoldable pub closest_in_bucket : Bytes → ℕ → Bucket → List NodeState → List NodeState
closest_in_bucket target alpha [] results = results
closest_in_bucket target alpha (node ∷ nodes) results = closest_in_bucket target alpha nodes (
    if ltb (length results) alpha
    then results ++ node ∷ []
    else take alpha (insert_ordered target results node))

unfoldable pub closest_in_buckets : Bytes → ℕ → List Bucket → List NodeState → List NodeState
unfolding closest_in_bucket
closest_in_buckets target alpha [] results = results
closest_in_buckets target alpha (bucket ∷ buckets) results =
    closest_in_buckets target alpha buckets (closest_in_bucket target alpha bucket results)

unfoldable pub alpha_closest : Bytes → ℕ → BucketTable → List NodeState
unfolding closest_in_buckets
alpha_closest target alpha bt = closest_in_buckets target alpha bt.buckets []
