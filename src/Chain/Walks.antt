-- ===== src/Chain/Walks.antt =====
-- gossiper/blockchain.go: what the ledger reads going back from a block along `PrevHash`. Each loop
-- runs on fuel; `Walks/Paths` gives the fuel that is enough.
pub mod Paths
pub mod Names
pub mod Accepted
use peerster.Base.{
  Bool, Bytes, Bytes-discrete, List, Map, Option, [], false, if◌then◌else◌, map, none, some, store,
  suc, true, zero, ℕ, ◌+◌, ◌==◌, ◌||◌, ◌∷◌,
}
use peerster.Chain.{
  BlockOfChain, BlockchainLedger, Run, block_hash, crashed, done, find, no_hash, spent, ◌>>=◌,
}
use peerster.Dto.Packet.{Block, TxPublish}
use peerster.Dto.Arrays.{SafeStringArray, append_unique_to_array, new_safe_string_array}
use peerster.Gossip.Node.{bytes_eq}

abbrev pub tx_names : List TxPublish → List Bytes
tx_names txs = map (λ (tx : TxPublish). tx.file.name) txs

-- `AppendUniqueToArray` of each name, until one is there already.
unfoldable pub claim_names : List TxPublish → SafeStringArray → SafeStringArray × Bool
claim_names [] claimed = (claimed, true)
claim_names (tx ∷ txs) claimed =
    let (claimed', valid) = append_unique_to_array Bytes-discrete tx.file.name claimed in
    let rest = claim_names txs claimed' in if valid then rest else (claimed', false)

unfoldable pub check_valid_transactions : BlockOfChain → SafeStringArray → SafeStringArray × Bool
check_valid_transactions bc claimed = claim_names bc.block.transactions claimed

-- The loop of `checkValidTransactionsBackwards`; `none` is an invalid chain.
unfoldable pub claim_backwards :
    ℕ → Bytes → Map Bytes BlockOfChain → SafeStringArray → Run (Option SafeStringArray)
unfolding check_valid_transactions
claim_backwards zero prev_hash chains claimed = spent
claim_backwards (suc n) prev_hash chains claimed = elim (bytes_eq prev_hash no_hash) [
  | true ↦ done (some claimed)
  | false ↦ elim (find prev_hash chains) [
    | none ↦ done (some claimed)
    | some prev_bc ↦
        let (claimed', valid) = check_valid_transactions prev_bc claimed in
        elim valid [
          | true ↦ claim_backwards n prev_bc.block.prev_hash chains claimed'
          | false ↦ done none
        ]
  ]
]

unfoldable pub check_valid_transactions_backwards :
    ℕ → Block → Map Bytes BlockOfChain → Run (Option SafeStringArray)
check_valid_transactions_backwards n block chains =
    let (claimed, valid) = claim_names block.transactions (new_safe_string_array []) in
    elim valid [ true ↦ claim_backwards n block.prev_hash chains claimed | false ↦ done none ]

abbrev pub mark_names : List TxPublish → Map Bytes Bool → Map Bytes Bool
mark_names [] names = names
mark_names (tx ∷ txs) names = mark_names txs (store Bytes-discrete tx.file.name true names)

-- `prevNames[k] = true` for the keys of `names`.
unfoldable pub mark_keys : Map Bytes Bool → Map Bytes Bool → Map Bytes Bool
mark_keys [] prev_names = prev_names
mark_keys ((k, _) ∷ names) prev_names = mark_keys names (store Bytes-discrete k true prev_names)

unfoldable pub get_names : Block → Map Bytes Bool
get_names b = mark_names b.transactions []

-- The branch that a walk takes at a hash: the end, or the block before.
unfoldable pub previous : Bytes → Map Bytes BlockOfChain → Option BlockOfChain
previous prev_hash chains = elim (find prev_hash chains) [
  | none ↦ none
  | some prev_bc ↦ if bytes_eq prev_hash no_hash then none else some prev_bc
]

unfoldable pub get_taken_names : ℕ → BlockOfChain → Map Bytes BlockOfChain → Run (Map Bytes Bool)
unfolding get_names previous
get_taken_names zero head_bc chains = spent
get_taken_names (suc n) head_bc chains = elim (previous head_bc.block.prev_hash chains) [
  | none ↦ done (get_names head_bc.block)
  | some prev_bc ↦ get_taken_names n prev_bc chains >>= λ prev_names.
      done (mark_keys (get_names head_bc.block) prev_names)
]

-- What `CHAIN` prints of a block: its hash, the hash before it and the names of its files.
pub record BlockLine : Type 0 where
  pub hash : Bytes
  pub prev_hash : Bytes
  pub names : List Bytes

module _ (sha256 : Bytes → Bytes) where
  unfoldable pub get_blocks_in_chain :
      ℕ → BlockOfChain → Map Bytes BlockOfChain → Run (List BlockLine)
  unfolding previous
  get_blocks_in_chain zero bc chains = spent
  get_blocks_in_chain (suc n) bc chains =
      let line : BlockLine = record {
        hash = block_hash sha256 bc.block;
        prev_hash = bc.block.prev_hash;
        names = tx_names bc.block.transactions;
      } in
      elim (previous bc.block.prev_hash chains) [
        | none ↦ done (line ∷ [])
        | some prev_bc ↦ get_blocks_in_chain n prev_bc chains >>= λ lines. done (line ∷ lines)
      ]

  -- The loops of `getFirstCommon`: the hashes from the block on, oldest first, with 32 zeros at the
  -- start; `rest` holds what was found so far.
  unfoldable pub hashes_of_chain :
      ℕ → BlockOfChain → Map Bytes BlockOfChain → List Bytes → Run (List Bytes)
  hashes_of_chain zero bc chains rest = spent
  hashes_of_chain (suc n) bc chains rest = elim (find bc.block.prev_hash chains) [
    | none ↦ done (no_hash ∷ rest)
    | some first ↦ elim (bytes_eq first.block.prev_hash no_hash) [
      | true ↦ done (no_hash ∷ rest)
      | false ↦ hashes_of_chain n first chains (block_hash sha256 first.block ∷ rest)
    ]
  ]

-- The loop over the indices: the last entry of the common start; the second list may be too short.
unfoldable pub last_common : List Bytes → List Bytes → Bytes → Run Bytes
last_common [] ys common = done common
last_common (x ∷ xs) [] common = crashed
last_common (x ∷ xs) (y ∷ ys) common = elim (bytes_eq x y) [
  | true ↦ last_common xs ys x
  | false ↦ done common
]

module _ (sha256 : Bytes → Bytes) where
  unfoldable pub get_first_common :
      ℕ → BlockOfChain → BlockOfChain → Map Bytes BlockOfChain → Run Bytes
  get_first_common n first second chains = do
    first_chain ← hashes_of_chain sha256 n first chains (block_hash sha256 first.block ∷ [])
    second_chain ← hashes_of_chain sha256 n second chains (block_hash sha256 second.block ∷ [])
    elim first_chain [ List.[] ↦ crashed | List.◌∷◌ x xs ↦ last_common (x ∷ xs) second_chain x ]

-- The blocks by their hashes: `first == prevSecond` compares pointers.
unfoldable pub get_degree_of_forkage :
    ℕ → Bytes → BlockOfChain → BlockOfChain → Map Bytes BlockOfChain → Run ℕ
get_degree_of_forkage zero first_hash first second chains = spent
get_degree_of_forkage (suc n) first_hash first second chains =
    elim (find first.block.prev_hash chains) [
      | none ↦ done 0
      | some prev_first ↦ elim (find second.block.prev_hash chains) [
        | none ↦ done 0
        | some prev_second ↦
            elim ((first.length_of_chain == 0)
              || (second.length_of_chain == 0)
              || bytes_eq first_hash second.block.prev_hash) [
                | true ↦ done 0
                | false ↦
                    get_degree_of_forkage n first.block.prev_hash prev_first prev_second chains
                    >>= λ rewind. done (1 + rewind)
              ]
      ]
    ]

unfoldable pub get_head : BlockchainLedger → Bytes × Option BlockOfChain
get_head bcl = (bcl.longest_chain, find bcl.longest_chain bcl.chains)
