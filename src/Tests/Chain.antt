-- ===== src/Tests/Chain.antt =====
-- Cases for the block chain.
use peerster.Gossip.Status.{difference_keys, fill_set, string_array_difference}
use peerster.Chain.Mining.Pending.{named}
use peerster.Chain.Mining.Runs.{Reach, hears_tx, later, mined-distinct, start, taken_names-stale}
use peerster.Gossip.Node.{no_packet}
use peerster.Dto.Hops.{dec32, decrement_hop_count}
use peerster.Dto.Getters.{PacketAddressPair, get_sender_address}
use peerster.Chain.Mining.{Miner, create_block, forward_block_or_tx, hear_tx, start_mining}
use peerster.Chain.Insert.Accepts.{insert_block-extends}
use peerster.Chain.Insert.Extends.{after_entry, before_entry, linked}
use peerster.Dto.Arrays.{
  SafeStringArray, append_unique_to_array, mark_all, new_safe_string_array, new_unique_array,
}
use peerster.Dto.Arrays.Unique.{distinct}
use peerster.Chain.Walks.Names.{claims, taken}
use peerster.Chain.Insert.Dangling.{insert_block-crashes, left_by}
use peerster.Chain.Insert.Settled.{Ready}
use peerster.Chain.Insert.{Chains, insert_block, refused}
use peerster.Base.{
  Bool, Bytes, Bytes-discrete, List, Map, [], ap, arith, drop, false, if◌then◌else◌, load, none,
  refl, some, store, sym, take, true, zero_bytes, ℕ, ℕ_discrete, ◌<◌, ◌||◌, ◌↔◌, ◌∙◌, ◌∷◌, ◌≡◌, ◌≢◌,
}
use peerster.Chain.{
  BlockOfChain, block_hash, check_valid, crashed, done, find, mine, new_blockchain_ledger,
  new_genesis_block, no_hash,
}
use peerster.Chain.Nonces.{be_value, mine_iff, weight}
use peerster.Chain.Walks.{
  check_valid_transactions_backwards, claim_backwards, claim_names, get_head, get_names,
  get_taken_names, previous, tx_names,
}
use peerster.Chain.Walks.Paths.{IsRanked}
use peerster.Dto.Packet.{Block, TxPublish, get_underlying_type}

abbrev tx_of : ℕ → TxPublish
tx_of name = record {
  file = record { name = name ∷ []; size = 1; metafile_hash = 7 ∷ [] };
  hop_limit = 10;
}

-- A hash that keeps the nonce of a block alone: the two bytes after the 32 of the hash before it.
abbrev digest : Bytes → Bytes
digest bytes = take 2 (drop 32 bytes)

abbrev block_of : ℕ → ℕ → List TxPublish → Block
block_of x y txs = record { prev_hash = zero_bytes 32; nonce = x ∷ y ∷ []; transactions = txs }

abbrev first_block : Block
first_block = block_of 0 0 (tx_of 1 ∷ [])

first_hash : block_hash digest first_block ≡ 0 ∷ 0 ∷ []
unfolding block_hash
first_hash = refl

mine_iff_example :
    ((check_valid digest first_block ≡ true)
      ↔ (be_value (block_hash digest first_block) < weight 0))
    × (mine digest first_block ≡ (
        if check_valid digest first_block
        then some (record { block = first_block; hop_limit = 10 })
        else none))
mine_iff_example = mine_iff digest first_block 0 0 [] first_hash (omega arith, (omega arith, tt))

start-IsRanked : IsRanked new_blockchain_ledger.chains
unfolding new_blockchain_ledger previous store load new_genesis_block
start-IsRanked h bc prev_bc e p = absurd (ground (arith, e, p))

abbrev genesis : BlockOfChain
genesis = record {
  length_of_chain = 0;
  block = record { prev_hash = zero_bytes 32; nonce = zero_bytes 32; transactions = [] };
  forks = [];
}

start-found :
    (k : Bytes) (o : BlockOfChain)
    → find k new_blockchain_ledger.chains ≡ some o
    → new_genesis_block ≡ o
unfolding new_blockchain_ledger store load
start-found k o e = ground (arith, e)

start-unfollowed :
    (k : Bytes) (o : BlockOfChain)
    → find k new_blockchain_ledger.chains ≡ some o
    → block_hash digest first_block ≢ o.block.prev_hash
unfolding new_genesis_block no_hash block_hash
start-unfollowed k o e q =
    let same : 0 ∷ 0 ∷ [] ≡ zero_bytes 32 =
      q ∙ ap (λ (x : BlockOfChain). x.block.prev_hash) (sym (start-found k o e)) in
    absurd (ground (arith, same))

start-Ready : Ready digest new_blockchain_ledger first_block genesis
unfolding new_blockchain_ledger store load new_genesis_block block_hash no_hash Bytes-discrete
    ℕ_discrete
start-Ready = record {
  at_head = refl;
  follows = refl;
  fresh = refl;
  genesis = genesis;
  rooted = refl;
  genesis_block = refl;
  orphans_stored = tt;
  unfollowed = start-unfollowed;
  ranked = start-IsRanked;
}

-- A second block, which follows the first.
abbrev next_block : Block
next_block = record { prev_hash = 0 ∷ 0 ∷ []; nonce = 0 ∷ 1 ∷ []; transactions = tx_of 2 ∷ [] }

abbrev one_block : Chains
one_block = after_entry digest new_blockchain_ledger first_block genesis

first_accepted :
    check_valid_transactions_backwards 2 first_block
      (before_entry digest new_blockchain_ledger first_block genesis)
    ≡ done (some (append_unique_to_array Bytes-discrete (1 ∷ []) (new_safe_string_array [])).0)
unfolding check_valid_transactions_backwards claim_names claim_backwards append_unique_to_array
    new_unique_array mark_all load Bytes-discrete ℕ_discrete no_hash
first_accepted = refl

insert_block-extends_example :
    let bc = (linked digest new_blockchain_ledger first_block genesis).1 in
    (insert_block digest 2 first_block new_blockchain_ledger
      ≡ done (record {
        valid = true;
        head_changed = false;
        head_grew = true;
        ledger = record { longest_chain = block_hash digest first_block; chains = one_block };
      }))
    × IsRanked one_block
    × ((names : Map Bytes Bool) × (names' : Map Bytes Bool) × (get_taken_names 2 genesis
            new_blockchain_ledger.chains
          ≡ done names)
        × (get_taken_names 2 bc one_block ≡ done names')
        × ((k : Bytes)
            → taken k names' ≡ (claims k (tx_names first_block.transactions) || taken k names)))
insert_block-extends_example =
    insert_block-extends digest new_blockchain_ledger first_block genesis 2
      (append_unique_to_array Bytes-discrete (1 ∷ []) (new_safe_string_array [])).0 start-Ready
      (omega arith) first_accepted

abbrev bad_block : Block
bad_block = block_of 0 1 (tx_of 1 ∷ tx_of 1 ∷ [])

hashes_differ : block_hash digest first_block ≢ block_hash digest bad_block
unfolding block_hash
hashes_differ e = absurd (ground (arith, e))

insert_block-crashes_example :
    (insert_block digest 1 bad_block new_blockchain_ledger
      ≡ done (refused (left_by digest bad_block genesis new_blockchain_ledger)))
    × (insert_block digest 2 first_block (left_by digest bad_block genesis new_blockchain_ledger)
        ≡ crashed)
unfolding new_blockchain_ledger store load new_genesis_block block_hash no_hash Bytes-discrete
    ℕ_discrete claim_names append_unique_to_array new_unique_array mark_all
insert_block-crashes_example =
    insert_block-crashes digest 1 new_blockchain_ledger genesis bad_block first_block refl refl refl
      refl hashes_differ refl refl refl refl

abbrev no_peers : SafeStringArray
no_peers = new_safe_string_array []

abbrev miner : Miner
miner = record {
  every_tx_ever = [];
  pending_names = [];
  head_hash = zero_bytes 32;
  taken_names = [];
  nonce = 0 ∷ 0 ∷ [];
  last_time_mined = 0;
  first_block = true;
  can_mine = true;
  ledger = new_blockchain_ledger;
  peers = no_peers;
}

started : start_mining 1 (0 ∷ 0 ∷ []) 0 new_blockchain_ledger no_peers ≡ done miner
unfolding start_mining new_blockchain_ledger store load new_genesis_block no_hash Bytes-discrete
    ℕ_discrete get_head get_taken_names previous get_names
started = refl

abbrev heard_tx : PacketAddressPair
heard_tx = record {
  packet = record no_packet { tx_publish = some (tx_of 1) };
  sender_address = 5 ∷ [];
}

heard :
    hear_tx heard_tx 3 miner
    ≡ done (record {
      after = record miner {
        every_tx_ever = (1 ∷ [], tx_of 1) ∷ [];
        pending_names = (1 ∷ [], tx_of 1) ∷ [];
        last_time_mined = 3;
      };
      sends = [];
      own = none;
    })
unfolding hear_tx load store Bytes-discrete ℕ_discrete get_sender_address forward_block_or_tx
    decrement_hop_count get_underlying_type dec32 string_array_difference difference_keys fill_set
    new_unique_array
heard = refl

abbrev miner_after : Miner
miner_after = record miner {
  every_tx_ever = (1 ∷ [], tx_of 1) ∷ [];
  pending_names = (1 ∷ [], tx_of 1) ∷ [];
  last_time_mined = 3;
}

abbrev run : Reach digest miner miner_after
run =
    later start (hears_tx heard_tx 3 (record { after = miner_after; sends = []; own = none }) heard)

mined-distinct_example :
    let names =
      tx_names (create_block (zero_bytes 32) (0 ∷ 0 ∷ []) ((1 ∷ [], tx_of 1) ∷ [])).transactions in
    (distinct Bytes-discrete names ≡ true)
    × ((k : Bytes) → claims k names ≡ true → named k ((1 ∷ [], tx_of 1) ∷ []) ≡ true)
mined-distinct_example =
    mined-distinct digest miner 1 (0 ∷ 0 ∷ []) 0 new_blockchain_ledger no_peers miner_after started
      run

taken_names-stale_example : miner_after.taken_names ≡ []
taken_names-stale_example =
    taken_names-stale digest miner 1 (0 ∷ 0 ∷ []) 0 new_blockchain_ledger no_peers miner_after
      started run
