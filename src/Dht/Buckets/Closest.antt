-- ===== src/Dht/Buckets/Closest.antt =====
-- Properties of what `alphaClosest` returns.
use mathlib.Core.List.{append-nil, append_assoc}
use peerster.Base.{
  Bytes, List, [], arith, length, length-append, length-take, lt→ltb, sym, ℕ, ◌++◌, ◌+◌, ◌∙◌, ◌∷◌,
  ◌≡◌, ◌≤◌,
}
use peerster.Dht.Types.{NodeState}
use peerster.Dht.Distance.{insert_ordered}
use peerster.Dht.Buckets.{Bucket, BucketTable, alpha_closest, closest_in_bucket, closest_in_buckets}

unfoldable pub all_nodes : List Bucket → List NodeState
all_nodes [] = []
all_nodes (b ∷ bs) = b ++ all_nodes bs

closest_in_bucket-length :
    (target : Bytes) (alpha : ℕ) (nodes : Bucket) (results : List NodeState)
    → length results ≤ alpha
    → length (closest_in_bucket target alpha nodes results) ≤ alpha
unfolding closest_in_bucket
closest_in_bucket-length target alpha [] results h = h
closest_in_bucket-length target alpha (n ∷ nodes) results h =
    closest_in_bucket-length target alpha nodes _ (
      ground (
        arith,
        length-append results (n ∷ []),
        length-take alpha (insert_ordered target results n),
      ))

closest_in_buckets-length :
    (target : Bytes) (alpha : ℕ) (bs : List Bucket) (results : List NodeState)
    → length results ≤ alpha
    → length (closest_in_buckets target alpha bs results) ≤ alpha
unfolding closest_in_buckets
closest_in_buckets-length target alpha [] results h = h
closest_in_buckets-length target alpha (b ∷ bs) results h =
    closest_in_buckets-length target alpha bs (closest_in_bucket target alpha b results)
      (closest_in_bucket-length target alpha b results h)

closest_in_bucket-few :
    (target : Bytes) (alpha : ℕ) (nodes : Bucket) (results : List NodeState)
    → length results + length nodes ≤ alpha
    → closest_in_bucket target alpha nodes results ≡ results ++ nodes
unfolding closest_in_bucket
closest_in_bucket-few target alpha [] results h = sym (append-nil results)
closest_in_bucket-few target alpha (n ∷ nodes) results h =
    rw (lt→ltb (length results) alpha (omega arith)) (
      closest_in_bucket-few target alpha nodes (results ++ n ∷ [])
        (omega (arith, length-append results (n ∷ [])))
      ∙ append_assoc results (n ∷ []) nodes)

closest_in_buckets-few :
    (target : Bytes) (alpha : ℕ) (bs : List Bucket) (results : List NodeState)
    → length results + length (all_nodes bs) ≤ alpha
    → closest_in_buckets target alpha bs results ≡ results ++ all_nodes bs
unfolding closest_in_buckets all_nodes
closest_in_buckets-few target alpha [] results h = sym (append-nil results)
closest_in_buckets-few target alpha (b ∷ bs) results h =
    let room = length-append b (all_nodes bs) in
    rw (closest_in_bucket-few target alpha b results (omega (arith, room))) (
      closest_in_buckets-few target alpha bs (results ++ b)
        (omega (arith, room, length-append results b))
      ∙ append_assoc results b (all_nodes bs))

-- `alphaClosest` returns at most `alpha` nodes.
pub alpha_closest-length :
    (target : Bytes) (alpha : ℕ) (bt : BucketTable) → length (alpha_closest target alpha bt) ≤ alpha
unfolding alpha_closest
alpha_closest-length target alpha bt =
    closest_in_buckets-length target alpha bt.buckets [] (omega arith)

-- If the table holds no more than `alpha` nodes, `alphaClosest` returns all of them in the order of
-- the table, whatever the target.
alpha_closest-few :
    (target : Bytes) (alpha : ℕ) (bt : BucketTable)
    → length (all_nodes bt.buckets) ≤ alpha
    → alpha_closest target alpha bt ≡ all_nodes bt.buckets
unfolding alpha_closest
alpha_closest-few target alpha bt h =
    closest_in_buckets-few target alpha bt.buckets [] (omega arith)
