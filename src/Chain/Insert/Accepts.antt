-- ===== src/Chain/Insert/Accepts.antt =====
-- gossiper/blockchain.go: what `insertBlock` does with a valid block that follows the head.
use peerster.Base.{Bool, Bytes, Map, false, some, true, ℕ, ◌+◌, ◌<◌, ◌||◌, ◌≡◌}
use peerster.Chain.{
  BlockOfChain, BlockchainLedger, block_hash, done, is_present, new_block_of_chain,
}
use peerster.Chain.Insert.{append_to_block, insert_block}
use peerster.Chain.Insert.Settled.{Ready, after_entry-IsRanked, new_block, stored}
use peerster.Chain.Insert.Extends.{after_entry, before_entry, connect-extends, linked, new_names}
use peerster.Chain.Walks.{check_valid_transactions_backwards, get_taken_names, tx_names}
use peerster.Chain.Walks.Paths.{IsRanked}
use peerster.Chain.Walks.Names.{claims, taken}
use peerster.Dto.Arrays.{SafeStringArray}
use peerster.Dto.Packet.{Block}

module _ (sha256 : Bytes → Bytes) (bcl : BlockchainLedger) (block : Block)
    (head : BlockOfChain) where
  -- A new block that follows the head of a ledger whose orphans are stored, none of whose blocks
  -- follows the new one, and whose lengths grow along chains, with fuel above the head's length plus
  -- one, and which `checkValidTransactionsBackwards` accepts. `insertBlock` returns that it is valid
  -- and that the head grew but is on the same chain; the new head is the block, the lengths still grow
  -- along chains, and the names taken on the new chain are those that the block claims and those taken
  -- on the chain of the old head.
  pub insert_block-extends :
      (n : ℕ) (claimed : SafeStringArray)
      → Ready sha256 bcl block head
      → head.length_of_chain + 1 < n
      → check_valid_transactions_backwards n block (before_entry sha256 bcl block head)
        ≡ done (some claimed)
      → let bc = (linked sha256 bcl block head).1 in
        let chains' = after_entry sha256 bcl block head in
        (insert_block sha256 n block bcl
          ≡ done (record {
            valid = true;
            head_changed = false;
            head_grew = true;
            ledger = record { longest_chain = block_hash sha256 block; chains = chains' };
          }))
        × IsRanked chains'
        × ((names : Map Bytes Bool) × (names' : Map Bytes Bool) × (get_taken_names n head bcl.chains
              ≡ done names)
            × (get_taken_names n bc chains' ≡ done names')
            × ((k : Bytes)
                → taken k names' ≡ (claims k (tx_names block.transactions) || taken k names)))
  unfolding insert_block is_present new_block_of_chain append_to_block
  insert_block-extends n claimed ready l accepted = (
    rw
        (
          insert_block,
          is_present,
          ready.fresh,
          stored sha256 bcl block head ready,
          new_block sha256 bcl block head ready,
          accepted,
        )
        (connect-extends sha256 bcl block head ready n (some claimed) l),
    after_entry-IsRanked sha256 bcl block head ready,
    new_names sha256 bcl block head ready n l,
  )
