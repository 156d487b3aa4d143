-- ===== src/Chain/Mining/Pending.antt =====
-- gossiper/blockchain.go: the names that the mining routine keeps, over all of its rounds.
use peerster.Base.{
  All, All-store, Bool, Bool-cases, Bytes, Bytes-discrete, DistinctKeys, Map, [], arith, inl, inr,
  load, load-store, not, present, refl, store, store-DistinctKeys, true, ◌&&◌, ◌||◌, ◌∷◌, ◌≡◌,
}
use peerster.Chain.Mining.{create_block, difference_into, map_difference}
use peerster.Chain.Walks.{tx_names}
use peerster.Chain.Walks.Names.{claims, taken}
use peerster.Dto.Arrays.Unique.{contains, distinct}
use peerster.Dto.Packet.{TxPublish}

abbrev pub Txs : Type 0
Txs = Map Bytes TxPublish

abbrev pub named : Bytes → Txs → Bool
named k txs = present Bytes-discrete k txs

-- Each transaction stands under the name of its file, and no name twice.
pub record IsFiled (txs : Txs) : Type 0 where
  pub by_name : All (λ (e : Bytes × TxPublish). e.0 ≡ e.1.file.name) txs
  pub once : DistinctKeys Bytes-discrete txs

pub nothing-IsFiled : IsFiled []
nothing-IsFiled = record { by_name = tt; once = tt }

pub store-IsFiled :
    (k : Bytes) (tx : TxPublish) (txs : Txs)
    → k ≡ tx.file.name
    → IsFiled txs
    → IsFiled (store Bytes-discrete k tx txs)
store-IsFiled k tx txs e h = record {
  by_name =
      All-store Bytes-discrete (λ (e : Bytes × TxPublish). e.0 ≡ e.1.file.name) k tx txs e
        h.by_name;
  once = store-DistinctKeys Bytes-discrete k tx txs h.once;
}

difference_into-IsFiled :
    (first : Txs) (second : Map Bytes Bool) (result : Txs)
    → All (λ (e : Bytes × TxPublish). e.0 ≡ e.1.file.name) first
    → IsFiled result
    → IsFiled (difference_into first second result)
unfolding difference_into
difference_into-IsFiled [] second result h r = r
difference_into-IsFiled ((k, tx) ∷ first) second result h r = elim (Bool-cases (taken k second)) [
  | inl e ↦ rw (e) (difference_into-IsFiled first second result h.1 r)
  | inr e ↦ rw (e) (
      difference_into-IsFiled first second (store Bytes-discrete k tx result) h.1
        (store-IsFiled k tx result h.0 r))
]

-- The difference has the names of the first map that the second does not have.
difference_into-named :
    (k : Bytes) (first : Txs) (second : Map Bytes Bool) (result : Txs)
    → named k (difference_into first second result)
      ≡ ((named k first && not (taken k second)) || named k result)
unfolding difference_into load
difference_into-named k [] second result = ground arith
difference_into-named k ((j, tx) ∷ first) second result = elim (Bool-cases (taken j second)) [
  | inl e ↦ ground (arith, e, difference_into-named k first second result)
  | inr e ↦ ground (
    arith,
    e,
    difference_into-named k first second (store Bytes-discrete j tx result),
    load-store Bytes-discrete j k tx result,
  )
]

pub map_difference-named :
    (k : Bytes) (first : Txs) (second : Map Bytes Bool)
    → named k (map_difference first second) ≡ (named k first && not (taken k second))
unfolding map_difference load
map_difference-named k first second = ground (arith, difference_into-named k first second [])

pub map_difference-IsFiled :
    (first : Txs) (second : Map Bytes Bool) → IsFiled first → IsFiled (map_difference first second)
unfolding map_difference
map_difference-IsFiled first second h =
    difference_into-IsFiled first second [] h.by_name nothing-IsFiled

-- The names that the block claims are those it is made of.
pub keys-claims :
    (k : Bytes) (prev_hash nonce : Bytes) (txs : Txs)
    → All (λ (e : Bytes × TxPublish). e.0 ≡ e.1.file.name) txs
    → claims k (tx_names (create_block prev_hash nonce txs).transactions) ≡ named k txs
unfolding create_block contains load
keys-claims k prev_hash nonce [] h = refl
keys-claims k prev_hash nonce ((j, tx) ∷ txs) h =
    ground (arith, h.0, keys-claims k prev_hash nonce txs h.1)

keys-distinct :
    (prev_hash nonce : Bytes) (txs : Txs)
    → All (λ (e : Bytes × TxPublish). e.0 ≡ e.1.file.name) txs
    → DistinctKeys Bytes-discrete txs
    → distinct Bytes-discrete (tx_names (create_block prev_hash nonce txs).transactions) ≡ true
unfolding create_block distinct
keys-distinct prev_hash nonce [] h d = refl
keys-distinct prev_hash nonce ((j, tx) ∷ txs) h d = ground (
  arith,
  h.0,
  d.0,
  keys-claims tx.file.name prev_hash nonce txs h.1,
  keys-distinct prev_hash nonce txs h.1 d.1,
)

pub create_block-distinct :
    (prev_hash nonce : Bytes) (txs : Txs)
    → IsFiled txs
    → distinct Bytes-discrete (tx_names (create_block prev_hash nonce txs).transactions) ≡ true
create_block-distinct prev_hash nonce txs h = keys-distinct prev_hash nonce txs h.by_name h.once
