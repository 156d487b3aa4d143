-- ===== src/Tests/Dht.antt =====
-- Cases for the hash table's nodes and buckets.
use peerster.Base.{
  All, Bool, Bytes, Bytes-discrete, [], arith, false, is_yes, keep, leb, length, none, refl, some,
  suc, take, true, zero, ℕ, ◌<◌, ◌||◌, ◌∷◌, ◌≡◌, ◌≢◌, ◌⊎◌,
}
use peerster.Dht.Types.{Message, NodeState}
use peerster.Dht.Distance.{
  common_leading_bits, compare_ids, insert_ordered, is_closer, xor_distance,
}
use peerster.Dht.Distance.Ordered.{Nearer, Ordered, insert_ordered-Ordered}
use peerster.Dht.Distance.Xor.{IsByte, more_leading_bits-is_closer}
use peerster.Dht.Nodes.{
  SafeNodeStateArray, get_alpha_unqueried, get_k_closest_responded, get_k_closest_unqueried,
  has_responded, insert, new_safe_node_state_array, set_queried, set_responded,
}
use peerster.Dht.Nodes.Sound.{IsSound, has, ids, insert-IsSound, new-IsSound}
use peerster.Dht.Nodes.Select.{live, selections, silent, unqueried}
use peerster.Dht.Buckets.{BucketTable, new_bucket_table, update_table}
use peerster.Dht.Buckets.Bounded.{IsTable, new_bucket_table-IsTable, update_table-IsTable}
use peerster.Dht.Listeners.{ChanMap}

unfoldable pad : ℕ → Bytes
pad zero = []
pad (suc n) = 0 ∷ pad n

-- The identifier that starts with the byte.
abbrev id_of : ℕ → Bytes
id_of b = b ∷ pad 63

abbrev node : ℕ → NodeState
node b = record { node_id = id_of b; address = b ∷ [] }

node_id-size : length (id_of 0) ≡ 64
unfolding pad
node_id-size = refl

abbrev target : Bytes
target = id_of 0

two-Ordered : Ordered target (node 1 ∷ node 4 ∷ [])
unfolding pad xor_distance compare_ids
two-Ordered = ((refl, tt), (tt, tt))

insert_ordered-Ordered_example :
    Ordered target (insert_ordered target (node 1 ∷ node 4 ∷ []) (node 2))
unfolding pad
insert_ordered-Ordered_example =
    insert_ordered-Ordered target node_id-size (node 1 ∷ node 4 ∷ []) (node 2) refl
      (refl, (refl, tt)) two-Ordered

bytes_of : (b : ℕ) → b < 256 → All IsByte (id_of b)
unfolding pad
bytes_of b h = (h, pad_bytes 63)
  where
    pad_bytes : (n : ℕ) → All IsByte (pad n)
    pad_bytes zero = tt
    pad_bytes (suc n) = (omega arith, pad_bytes n)

one_two-differ : id_of 1 ≢ id_of 2
one_two-differ h = ground (arith, h)

more_leading_bits-is_closer_example : is_closer target (id_of 2) (id_of 1) ≡ true
unfolding pad common_leading_bits
more_leading_bits-is_closer_example =
    more_leading_bits-is_closer target (id_of 2) (id_of 1) refl refl (omega arith)

abbrev start : SafeNodeStateArray
start = new_safe_node_state_array target

start-IsSound : IsSound start
start-IsSound = new-IsSound target node_id-size

insert-IsSound_example :
    let r = insert (node 2) start in
    IsSound r.0
    × ((k : Bytes)
        → has k (ids r.0.array)
          ≡ (is_yes (Bytes-discrete (node 2).node_id k) || has k (ids start.array)))
    × ((r.1 ≡ false)
        ⊎ ((has (node 2).node_id (ids start.array) ≡ false)
            × All (Nearer start.target (node 2)) r.0.array))
unfolding pad
insert-IsSound_example = insert-IsSound (node 2) start refl start-IsSound

four_nine-differ : id_of 4 ≢ id_of 9
four_nine-differ h = ground (arith, h)

abbrev asked : SafeNodeStateArray
asked = set_responded (node 1) (set_queried (node 1) (insert (node 2) (insert (node 1) start).0).0)

selections_example :
    (get_alpha_unqueried 2 asked ≡ take 2 (keep (unqueried asked) asked.array))
    × (get_k_closest_responded 2 asked ≡ (
      take 2 (keep (has_responded asked) asked.array),
      leb 2 (length (keep (has_responded asked) asked.array)),
    ))
    × (get_k_closest_unqueried 2 asked ≡ (
      keep (silent asked) (take 2 (keep (live asked) asked.array)),
      keep (has_responded asked) (take 2 (keep (live asked) asked.array)),
    ))
selections_example = selections asked 2 (omega arith)

update_table-IsTable_example :
    (bt' : BucketTable) × (changed : Bool) × (update_table
        (λ n. true)
        (node 2)
        (new_bucket_table target)
      ≡ some (bt', changed))
    × IsTable bt'
update_table-IsTable_example =
    update_table-IsTable (λ n. true) (node 2) (new_bucket_table target)
      (new_bucket_table-IsTable target)

-- The farther node first.
abbrev two_buckets : BucketTable
two_buckets = record { my_node_id = target; buckets = (node 4 ∷ node 1 ∷ []) ∷ [] }

abbrev reply : Message
reply = record {
  nonce = 7;
  sender_id = id_of 1;
  store = none;
  ping = none;
  ping_reply = some tt;
  node_lookup = none;
  node_reply = none;
  value_lookup = none;
  value_reply = none;
}

abbrev nobody : ChanMap
nobody = record { nonce_message_map = [] }
