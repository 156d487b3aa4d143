-- ===== src/Chain/Mining.antt =====
-- gossiper/blockchain.go: the routine that collects names, receives blocks and mines, and what it
-- sends. The random nonces and the times are arguments of its steps.
pub mod Pending
pub mod Rounds
pub mod Runs
use peerster.Base.{
  Bool, Bytes, Bytes-discrete, List, Map, Option, [], false, if◌then◌else◌, map, none, not, present,
  some, store, true, ℕ, ◌*◌, ◌-◌, ◌||◌, ◌∷◌,
}
use peerster.Chain.{
  BlockchainLedger, Run, block_hash, check_valid, done, follow, from_outcome, is_present, mine,
  ◌>>=◌,
}
use peerster.Chain.Insert.{Inserted, insert_block}
use peerster.Chain.Walks.{get_head, get_names, get_taken_names}
use peerster.Dto.Arrays.{SafeStringArray, get_array_copy}
use peerster.Dto.Getters.{PacketAddressPair, get_sender_address}
use peerster.Dto.Hops.{decrement_hop_count}
use peerster.Dto.Packet.{Block, GossipPacket, TxPublish}
use peerster.Gossip.Node.{Send, ignored, no_packet}
use peerster.Gossip.Status.{string_array_difference}

-- The block claims the pending names, in the order in which the range meets them.
unfoldable pub create_block : Bytes → Bytes → Map Bytes TxPublish → Block
create_block prev_hash nonce tx_map = record {
  prev_hash = prev_hash;
  nonce = nonce;
  transactions = map (λ (e : Bytes × TxPublish). e.1) tx_map;
}

-- The loop of `mapDifference`, with what it has put in the result.
unfoldable pub difference_into :
    Map Bytes TxPublish → Map Bytes Bool → Map Bytes TxPublish → Map Bytes TxPublish
difference_into [] second result = result
difference_into ((k, v) ∷ first) second result =
    difference_into first second
      (if present Bytes-discrete k second then result else store Bytes-discrete k v result)

unfoldable pub map_difference : Map Bytes TxPublish → Map Bytes Bool → Map Bytes TxPublish
map_difference first second = difference_into first second []

-- To all peers but the given ones.
abbrev send_to : GossipPacket → SafeStringArray → List Bytes → List Send
send_to packet peers exceptions =
    map (λ v. (packet, v)) (string_array_difference (get_array_copy peers) exceptions)

unfoldable pub forward_block_or_tx : GossipPacket → Bytes → SafeStringArray → Run (List Send)
forward_block_or_tx packet sender peers = do
  (packet', should_send) ← from_outcome (decrement_hop_count packet)
  done (if should_send then send_to packet' peers (sender ∷ []) else [])

-- The variables of `blockchainMiningRoutine`, with the ledger and the peers.
pub record Miner : Type 0 where
  pub every_tx_ever : Map Bytes TxPublish
  pub pending_names : Map Bytes TxPublish
  pub head_hash : Bytes
  pub taken_names : Map Bytes Bool
  pub nonce : Bytes
  pub last_time_mined : ℕ
  pub first_block : Bool
  pub can_mine : Bool
  pub ledger : BlockchainLedger
  pub peers : SafeStringArray

-- What is sent after `forwardOwnBlock` has slept for the delay, after which the routine may mine again.
unfoldable pub forward_own_block : GossipPacket → Miner → Run (Miner × List Send)
forward_own_block packet m = do
  (packet', should_send) ← from_outcome (decrement_hop_count packet)
  done (record m { can_mine = true }, if should_send then send_to packet' m.peers [] else [])

-- Before the loop of the routine.
unfoldable pub start_mining : ℕ → Bytes → ℕ → BlockchainLedger → SafeStringArray → Run Miner
start_mining n nonce now ledger peers = do
  head ← follow (get_head ledger).1
  taken_names ← get_taken_names n head ledger.chains
  done (record {
    every_tx_ever = [];
    pending_names = [];
    head_hash = (get_head ledger).0;
    taken_names = taken_names;
    nonce = nonce;
    last_time_mined = now;
    first_block = true;
    can_mine = true;
    ledger = ledger;
    peers = peers;
  })

-- A round of the loop: the variables, what it sends, and the packet and the delay with which
-- `forwardOwnBlock` starts.
pub record Mined : Type 0 where
  pub after : Miner
  pub sends : List Send
  pub own : Option (GossipPacket × ℕ)

abbrev pub unless_known : Bool → Bytes → TxPublish → Map Bytes TxPublish → Map Bytes TxPublish
unless_known known name tx txs = if known then txs else store Bytes-discrete name tx txs

-- `case txPubPap := <-cFileNaming`
unfoldable pub hear_tx : PacketAddressPair → ℕ → Miner → Run Mined
unfolding forward_block_or_tx
hear_tx pap now m = do
  tx_pub ← follow pap.packet.tx_publish
  let name = tx_pub.file.name
  let known =
      present Bytes-discrete name m.pending_names || present Bytes-discrete name m.taken_names
  let ever = present Bytes-discrete name m.every_tx_ever
  sender ← from_outcome (get_sender_address pap)
  sends ← forward_block_or_tx pap.packet sender m.peers
  done (record {
    after = record m {
      pending_names = unless_known known name tx_pub m.pending_names;
      last_time_mined = if known then m.last_time_mined else now;
      every_tx_ever = unless_known ever name tx_pub m.every_tx_ever;
    };
    sends = sends;
    own = none;
  })

-- The variables after `insertBlock`; the taken names are those of the start, as `takenNames :=` in the
-- branch of a changed head declares another variable.
unfoldable pub after_insert : ℕ → Block → Inserted → Miner → Run Miner
unfolding get_head get_names map_difference
after_insert n block r m =
    let m' = record m { ledger = r.ledger } in
    if r.head_changed
    then (do
      head ← follow (get_head r.ledger).1
      taken_names ← get_taken_names n head r.ledger.chains
      done (record m' {
        head_hash = (get_head r.ledger).0;
        pending_names = map_difference m.every_tx_ever taken_names;
      }))
    else done (
        if r.head_grew
        then record m' {
          head_hash = (get_head r.ledger).0;
          pending_names = map_difference m.pending_names (get_names block);
        }
        else m')

module _ (sha256 : Bytes → Bytes) where
  -- `case blockPubPap := <-cBlocks`
  unfoldable pub hear_block : ℕ → PacketAddressPair → ℕ → Miner → Run Mined
  unfolding after_insert is_present
  hear_block n pap now m = do
    block_pub ← follow pap.packet.block_publish
    let block = block_pub.block
    let ignored : Mined = record { after = m; sends = []; own = none }
    if not (check_valid sha256 block) || is_present (block_hash sha256 block) m.ledger
        then done ignored
        else (do
          r ← insert_block sha256 n block m.ledger
          m' ← after_insert n block r m
          sender ← from_outcome (get_sender_address pap)
          sends ← forward_block_or_tx pap.packet sender m'.peers
          done (record { after = record m' { last_time_mined = now }; sends = sends; own = none }))

  -- `time.Second * 5`, in nanoseconds.
  abbrev five_seconds : ℕ
  five_seconds = 5000000000

  -- `default:`, with the next random nonce.
  unfoldable pub try_to_mine : ℕ → Bytes → ℕ → Miner → Run Mined
  unfolding get_head mine create_block
  try_to_mine n next_nonce now m =
      if m.can_mine
      then (do
        let block_to_mine = create_block m.head_hash m.nonce m.pending_names
        elim (mine sha256 block_to_mine) [
          | none ↦ done (record { after = record m { nonce = next_nonce }; sends = []; own = none })
          | some block_pub ↦ do
            r ← insert_block sha256 n block_to_mine m.ledger
            let delay = if m.first_block then five_seconds else now - m.last_time_mined
            done (record {
              after = record m {
                ledger = r.ledger;
                head_hash = (get_head r.ledger).0;
                pending_names = [];
                last_time_mined = now;
                first_block = false;
                can_mine = false;
                nonce = next_nonce;
              };
              sends = [];
              own = some (record no_packet { block_publish = some block_pub }, 2 * delay);
            })
        ])
      else done (record { after = record m { last_time_mined = now }; sends = []; own = none })
