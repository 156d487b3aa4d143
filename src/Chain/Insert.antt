-- ===== src/Chain/Insert.antt =====
-- gossiper/blockchain.go: inserting a block, with the orphans that it connects and the change of the
-- head. The recursions over `Forks` run on fuel.
pub mod Grown
pub mod Settled
pub mod Extends
pub mod Accepts
pub mod Dangling
use peerster.Base.{
  Bool, Bytes, Bytes-discrete, List, Map, Option, [], delete, false, if◌then◌else◌, ltb, map, none,
  some, store, suc, true, zero, ℕ, ◌+◌, ◌∷◌,
}
use peerster.Chain.{
  BlockOfChain, BlockchainLedger, Run, block_hash, crashed, done, find, follow, is_present,
  new_block_of_chain, no_hash, put, spent, ◌>>=◌,
}
use peerster.Chain.Walks.{
  check_valid_transactions_backwards, claim_names, get_blocks_in_chain, get_degree_of_forkage,
  get_first_common,
}
use peerster.Dto.Arrays.{SafeStringArray}
use peerster.Dto.Packet.{Block, TxPublish}
use peerster.Gossip.Node.{bytes_eq}

abbrev pub Chains : Type 0
Chains = Map Bytes BlockOfChain

-- The hashes that a range over a map of hashes meets.
abbrev pub hashes : Map Bytes Bool → List Bytes
hashes forks = map (λ (e : Bytes × Bool). e.0) forks

-- The loop over the forks; `visit` deletes the chain from one of them.
unfoldable pub delete_forks :
    (BlockOfChain → Chains → Run Chains) → List Bytes → Chains → Run Chains
delete_forks visit [] chains = done chains
delete_forks visit (next_hash ∷ rest) chains = do
  next ← follow (find next_hash chains)
  chains' ← visit next chains
  delete_forks visit rest chains'

-- What `pruneInvalidForks` leaves: whether it found the block valid, the claimed names and the map.
pub record Pruned : Type 0 where
  pub valid : Bool
  pub claimed : Option SafeStringArray
  pub chains : Chains

-- `AppendUniqueToArray` through a pointer, which is nil after an orphan that claims a name twice.
unfoldable pub claim_through :
    List TxPublish → Option SafeStringArray → Run (Option SafeStringArray × Bool)
claim_through [] claimed = done (claimed, true)
claim_through (tx ∷ txs) claimed = elim claimed [
  | none ↦ crashed
  | some a ↦ let (a', valid) = claim_names (tx ∷ txs) a in done (some a', valid)
]

unfoldable pub prune_forks :
    (BlockOfChain → Option SafeStringArray → Chains → Run Pruned)
    → List Bytes
    → Option SafeStringArray
    → Chains
    → Run Pruned
prune_forks visit [] claimed chains =
    done (record { valid = true; claimed = claimed; chains = chains })
prune_forks visit (next_hash ∷ rest) claimed chains = elim (find next_hash chains) [
  | none ↦ done (record { valid = false; claimed = claimed; chains = chains })
  | some next_bc ↦ visit next_bc claimed chains >>= λ p. prune_forks visit rest p.claimed p.chains
]

-- The longest chain found so far: its length and its newest block, with the map.
pub record Longest : Type 0 where
  pub max_len : ℕ
  pub highest : Bytes
  pub chains : Chains

abbrev pub longer : Longest → Longest → Longest
longer found next =
    if ltb found.max_len next.max_len then next else record found { chains = next.chains }

unfoldable pub update_forks : (Bytes → Chains → Run Longest) → List Bytes → Longest → Run Longest
update_forks visit [] found = done found
update_forks visit (next_hash ∷ rest) found = do
  next ← visit next_hash found.chains
  update_forks visit rest (longer found next)

unfoldable pub recursive_update_length : ℕ → Bytes → Chains → Run Longest
unfolding update_forks
recursive_update_length zero hash chains = spent
recursive_update_length (suc n) hash chains = do
  bc ← follow (find hash chains)
  prev_bc ← follow (find bc.block.prev_hash chains)
  let len = prev_bc.length_of_chain + 1
  let bc' : BlockOfChain = record bc { length_of_chain = len }
  update_forks (λ next c. recursive_update_length n next c) (hashes bc.forks)
      (record { max_len = len; highest = hash; chains = put hash bc' chains })

-- What `headChanges` returns, with the ledger.
pub record HeadChange : Type 0 where
  pub changed : Bool
  pub grew : Bool
  pub ledger : BlockchainLedger

-- What `insertBlock` returns, with the ledger.
pub record Inserted : Type 0 where
  pub valid : Bool
  pub head_changed : Bool
  pub head_grew : Bool
  pub ledger : BlockchainLedger

abbrev pub refused : BlockchainLedger → Inserted
refused bcl = record { valid = false; head_changed = false; head_grew = false; ledger = bcl }

module _ (sha256 : Bytes → Bytes) where
  -- `bc.appendToBlock(prevbc)`: `prevbc` with the fork, and `bc` with its length.
  unfoldable pub append_to_block : BlockOfChain → BlockOfChain → BlockOfChain × BlockOfChain
  append_to_block bc prevbc = (
    record prevbc { forks = store Bytes-discrete (block_hash sha256 bc.block) true prevbc.forks },
    record bc { length_of_chain = prevbc.length_of_chain + 1 },
  )

  unfoldable pub remove_fork : BlockOfChain → BlockOfChain → BlockOfChain
  remove_fork bc nextbc = record bc {
    forks = delete Bytes-discrete (block_hash sha256 nextbc.block) bc.forks;
  }

  unfoldable pub delete_fork_from_chain : ℕ → BlockOfChain → Chains → Run Chains
  unfolding delete_forks
  delete_fork_from_chain zero bc chains = spent
  delete_fork_from_chain (suc n) bc chains = do
    chains' ← delete_forks (λ next c. delete_fork_from_chain n next c) (hashes bc.forks) chains
    done (delete Bytes-discrete (block_hash sha256 bc.block) chains')

  unfoldable pub prune_invalid_forks :
      ℕ → BlockOfChain → Option SafeStringArray → Chains → Run Pruned
  unfolding prune_forks claim_through
  prune_invalid_forks zero bc claimed chains = spent
  prune_invalid_forks (suc n) bc claimed chains = do
    (claimed', valid) ← claim_through bc.block.transactions claimed
    let rest =
        prune_forks (λ next cl c. prune_invalid_forks n next cl c) (hashes bc.forks) claimed' chains
    if valid then rest else (do
      chains' ← delete_fork_from_chain n bc chains
      done (record { valid = false; claimed = claimed'; chains = chains' }))

  -- The body of the loop in `checkOrphansAndReinsert` for an orphan that follows the new block.
  unfoldable pub reinsert :
      ℕ
      → Bytes
      → Bytes
      → BlockOfChain
      → Option SafeStringArray
      → Longest
      → Run (Option SafeStringArray × Longest)
  unfolding remove_fork append_to_block prune_invalid_forks recursive_update_length
  reinsert n new_hash orphan_hash orphan claimed found = do
    genesis ← follow (find no_hash found.chains)
    let chains1 = put no_hash (remove_fork genesis orphan) found.chains
    p ← prune_invalid_forks n orphan claimed chains1
    let unchanged : Longest = record found { chains = p.chains }
    if p.valid
        then (do
          new_block ← follow (find new_hash p.chains)
          orphan' ← follow (find orphan_hash p.chains)
          let (new_block', orphan1) = append_to_block orphan' new_block
          let chains2 = put orphan_hash orphan1 (put new_hash new_block' p.chains)
          next ← recursive_update_length n orphan_hash chains2
          done (p.claimed, longer found next))
        else done (p.claimed, unchanged)

  unfoldable pub orphans_loop :
      ℕ → Bytes → List Bytes → Option SafeStringArray → Longest → Run Longest
  unfolding reinsert
  orphans_loop n new_hash [] claimed found = done found
  orphans_loop n new_hash (orphan_hash ∷ rest) claimed found = do
    orphan ← follow (find orphan_hash found.chains)
    let skip = orphans_loop n new_hash rest claimed found
    if bytes_eq orphan.block.prev_hash new_hash
        then (do
          (claimed', found') ← reinsert n new_hash orphan_hash orphan claimed found
          orphans_loop n new_hash rest claimed' found')
        else skip

  -- The range over `genesis.Forks`, from which the loop takes only the entry it is at.
  unfoldable pub check_orphans_and_reinsert :
      ℕ → Bytes → Option SafeStringArray → Chains → Run Longest
  unfolding orphans_loop
  check_orphans_and_reinsert n new_hash claimed chains = do
    genesis ← follow (find no_hash chains)
    orphans_loop n new_hash (hashes genesis.forks) claimed
        (record { max_len = 0; highest = no_hash; chains = chains })

  unfoldable pub head_changes : ℕ → ℕ → Bytes → BlockchainLedger → Run HeadChange
  unfolding get_degree_of_forkage get_blocks_in_chain get_first_common
  head_changes n len new_head bcl = do
    head ← follow (find bcl.longest_chain bcl.chains)
    new_fork_head ← follow (find new_head bcl.chains)
    if ltb head.length_of_chain len
        then (do
          changed ←
              if bytes_eq new_fork_head.block.prev_hash bcl.longest_chain then done false else (do
                _ ← get_degree_of_forkage n bcl.longest_chain head new_fork_head bcl.chains
                done true)
          let bcl' = record bcl { longest_chain = block_hash sha256 new_fork_head.block }
          _ ← get_blocks_in_chain sha256 n new_fork_head bcl.chains
          done (record { changed = changed; grew = true; ledger = bcl' }))
        else (do
          _ ← get_first_common sha256 n head new_fork_head bcl.chains
          done (record { changed = false; grew = false; ledger = bcl }))

  -- From the entry of the new block on.
  unfoldable pub connect :
      ℕ → BlockOfChain → Option SafeStringArray → BlockchainLedger → Run Inserted
  unfolding check_orphans_and_reinsert head_changes
  connect n bc claimed bcl = do
    let hash = block_hash sha256 bc.block
    found ← check_orphans_and_reinsert n hash claimed (put hash bc bcl.chains)
    let bcl' = record bcl { chains = found.chains }
    h ←
        if ltb found.max_len bc.length_of_chain
        then head_changes n bc.length_of_chain hash bcl'
        else head_changes n found.max_len found.highest bcl'
    done (record { valid = true; head_changed = h.changed; head_grew = h.grew; ledger = h.ledger })

  unfoldable pub insert_block : ℕ → Block → BlockchainLedger → Run Inserted
  unfolding connect append_to_block check_valid_transactions_backwards is_present new_block_of_chain
  insert_block n block bcl = elim (is_present (block_hash sha256 block) bcl) [
    | true ↦ done (refused bcl)
    | false ↦ elim (find block.prev_hash bcl.chains) [
      | some parent ↦
          let (parent', bc) = append_to_block (new_block_of_chain block) parent in
          let bcl' = record bcl { chains = put block.prev_hash parent' bcl.chains } in
          check_valid_transactions_backwards n bc.block bcl'.chains >>= λ checked. elim checked [
            | none ↦ done (refused bcl')
            | some claimed ↦ connect n bc (some claimed) bcl'
          ]
      | none ↦ do
        genesis ← follow (find no_hash bcl.chains)
        let (genesis', bc) = append_to_block (new_block_of_chain block) genesis
        let bcl' = record bcl { chains = put no_hash genesis' bcl.chains }
        claimed ← check_valid_transactions_backwards n bc.block bcl'.chains
        connect n bc claimed bcl'
    ]
  ]
