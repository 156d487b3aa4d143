-- ===== src/Chain/Mining/Rounds.antt =====
-- gossiper/blockchain.go: what holds of the mining routine's variables after any rounds.
use peerster.Dto.Arrays.{SafeStringArray}
use peerster.Gossip.Node.{Send}
use peerster.Dto.Hops.{decrement_hop_count}
use peerster.Chain.Walks.{get_head, get_names, get_taken_names}
use peerster.Dto.Packet.{Block, GossipPacket, TxPublish}
use peerster.Chain.Insert.{Inserted, insert_block}
use peerster.Base.{
  Bool, Bool-cases, Bytes, Bytes-discrete, List, Map, Option-cases, [], arith, false, inl, inr,
  is_yes, load, load-store, not, refl, true, ℕ, ◌||◌, ◌≡◌,
}
use peerster.Chain.{
  >>=-Ensures, BlockchainLedger, Ensures, Ensures-then, Run, block_hash, check_valid, follow,
  from_outcome, is_present, mine,
}
use peerster.Chain.Mining.{
  Mined, Miner, after_insert, create_block, forward_block_or_tx, forward_own_block, hear_block,
  hear_tx, map_difference, start_mining, try_to_mine, unless_known,
}
use peerster.Chain.Mining.Pending.{
  IsFiled, Txs, map_difference-IsFiled, map_difference-named, named, nothing-IsFiled, store-IsFiled,
}
use peerster.Dto.Getters.{PacketAddressPair, get_sender_address}

-- The names that wait are among those ever heard.
pub record Kept (ever pending : Txs) : Type 0 where
  pub ever_filed : IsFiled ever
  pub pending_filed : IsFiled pending
  pub included : (k : Bytes) → named k pending ≡ true → named k ever ≡ true

abbrev pub IsKept : Miner → Type 0
IsKept m = Kept m.every_tx_ever m.pending_names

-- A round keeps the names that wait among those heard, and the names that it takes for taken.
abbrev pub Keeps : Miner → Run Mined → Type 0
Keeps m r = Ensures (λ (x : Mined). IsKept x.after × (x.after.taken_names ≡ m.taken_names)) r

module _ (tx : TxPublish) where
  unless_known-IsFiled :
      (known : Bool) (txs : Txs) → IsFiled txs → IsFiled (unless_known known tx.file.name tx txs)
  unless_known-IsFiled true txs h = h
  unless_known-IsFiled false txs h = store-IsFiled tx.file.name tx txs refl h

  -- A name that is entered, if it was not there, is there.
  entered :
      (k : Bytes) (txs : Txs)
      → named k (unless_known (named tx.file.name txs) tx.file.name tx txs)
        ≡ (is_yes (Bytes-discrete tx.file.name k) || named k txs)
  entered k txs = elim (Bytes-discrete tx.file.name k) [
    | yes e ↦ ground (arith, e, load-store Bytes-discrete tx.file.name k tx txs)
    | no n ↦ ground (arith, n, load-store Bytes-discrete tx.file.name k tx txs)
  ]

  hear-Kept :
      (known : Bool) (ever pending : Txs)
      → Kept ever pending
      → Kept
          (unless_known (named tx.file.name ever) tx.file.name tx ever)
          (unless_known known tx.file.name tx pending)
  hear-Kept known ever pending h = record {
    ever_filed = unless_known-IsFiled (named tx.file.name ever) ever h.ever_filed;
    pending_filed = unless_known-IsFiled known pending h.pending_filed;
    included = λ k w. ground (
      arith,
      w,
      entered k ever,
      h.included k,
      load-store Bytes-discrete tx.file.name k tx pending,
    );
  }

difference-Kept :
    (ever pending first : Txs) (second : Map Bytes Bool)
    → Kept ever pending
    → Kept ever first
    → Kept ever (map_difference first second)
difference-Kept ever pending first second h f = record {
  ever_filed = h.ever_filed;
  pending_filed = map_difference-IsFiled first second f.pending_filed;
  included = λ k w. ground (arith, w, map_difference-named k first second, f.included k);
}

all-Kept : (ever pending : Txs) → Kept ever pending → Kept ever ever
all-Kept ever pending h = record {
  ever_filed = h.ever_filed;
  pending_filed = h.ever_filed;
  included = λ k w. w;
}

none-Kept : (ever pending : Txs) → Kept ever pending → Kept ever []
unfolding load
none-Kept ever pending h = record {
  ever_filed = h.ever_filed;
  pending_filed = nothing-IsFiled;
  included = λ k w. absurd (ground (arith, w));
}

pub hear_tx-IsKept :
    (pap : PacketAddressPair) (now : ℕ) (m : Miner) → IsKept m → Keeps m (hear_tx pap now m)
unfolding hear_tx
hear_tx-IsKept pap now m h = >>=-Ensures (follow pap.packet.tx_publish) _ (λ tx.
    >>=-Ensures (from_outcome (get_sender_address pap)) _ (λ sender.
      >>=-Ensures (forward_block_or_tx pap.packet sender m.peers) _
        (λ sends. record { holds = (hear-Kept tx _ m.every_tx_ever m.pending_names h, refl) })))

after_insert-IsKept :
    (n : ℕ) (block : Block) (r : Inserted) (m : Miner)
    → IsKept m
    → Ensures (λ (x : Miner). IsKept x × (x.taken_names ≡ m.taken_names)) (after_insert n block r m)
unfolding after_insert
after_insert-IsKept n block r m h = elim (Bool-cases r.head_changed) [
  | inl e ↦
      rw (after_insert, e)
        (>>=-Ensures (follow (get_head r.ledger).1) _ (λ head.
          >>=-Ensures (get_taken_names n head r.ledger.chains) _ (λ taken_names. record {
            holds = (
              difference-Kept m.every_tx_ever m.pending_names m.every_tx_ever taken_names h
                  (all-Kept m.every_tx_ever m.pending_names h),
              refl,
            );
          })))
  | inr e ↦ elim (Bool-cases r.head_grew) [
    | inl g ↦
        rw (after_insert, e, g)
          (record {
            holds = (
              difference-Kept m.every_tx_ever m.pending_names m.pending_names (get_names block) h h,
              refl,
            );
          })
    | inr g ↦ rw (after_insert, e, g) (record { holds = (h, refl) })
  ]
]

module _ (sha256 : Bytes → Bytes) where
  pub hear_block-IsKept :
      (n : ℕ) (pap : PacketAddressPair) (now : ℕ) (m : Miner)
      → IsKept m
      → Keeps m (hear_block sha256 n pap now m)
  unfolding hear_block
  hear_block-IsKept n pap now m h = >>=-Ensures (follow pap.packet.block_publish) _ (λ block_pub.
      let block = block_pub.block in
      elim (Bool-cases
        (not (check_valid sha256 block) || is_present (block_hash sha256 block) m.ledger)) [
          | inl e ↦ rw (e) (record { holds = (h, refl) })
          | inr e ↦ rw (e) (
              >>=-Ensures (insert_block sha256 n block m.ledger) _ (λ r.
                Ensures-then (after_insert n block r m) _ (after_insert-IsKept n block r m h)
                  (λ m' h'. >>=-Ensures (from_outcome (get_sender_address pap)) _ (λ sender.
                    >>=-Ensures (forward_block_or_tx pap.packet sender m'.peers) _
                      (λ sends. record { holds = h' })))))
        ])

  pub try_to_mine-IsKept :
      (n : ℕ) (next_nonce : Bytes) (now : ℕ) (m : Miner)
      → IsKept m
      → Keeps m (try_to_mine sha256 n next_nonce now m)
  unfolding try_to_mine
  try_to_mine-IsKept n next_nonce now m h = elim (Bool-cases m.can_mine) [
    | inr e ↦ rw (try_to_mine, e) (record { holds = (h, refl) })
    | inl e ↦
        let block = create_block m.head_hash m.nonce m.pending_names in
        elim (Option-cases (mine sha256 block)) [
          | inl q ↦ rw (try_to_mine, e, q) (record { holds = (h, refl) })
          | inr (pub_, q) ↦
              rw (try_to_mine, e, q)
                (>>=-Ensures (insert_block sha256 n block m.ledger) _
                  (λ r. record { holds = (none-Kept m.every_tx_ever m.pending_names h, refl) }))
        ]
  ]

pub forward_own_block-IsKept :
    (packet : GossipPacket) (m : Miner)
    → IsKept m
    → Ensures
        (λ (x : Miner × List Send). IsKept x.0 × (x.0.taken_names ≡ m.taken_names))
        (forward_own_block packet m)
unfolding forward_own_block
forward_own_block-IsKept packet m h =
    >>=-Ensures (from_outcome (decrement_hop_count packet)) _ (λ r. record { holds = (h, refl) })

pub start_mining-IsKept :
    (n : ℕ) (nonce : Bytes) (now : ℕ) (ledger : BlockchainLedger) (peers : SafeStringArray)
    → Ensures IsKept (start_mining n nonce now ledger peers)
unfolding start_mining load
start_mining-IsKept n nonce now ledger peers = >>=-Ensures (follow (get_head ledger).1) _ (λ head.
    >>=-Ensures (get_taken_names n head ledger.chains) _ (λ taken_names. record {
      holds = record {
        ever_filed = nothing-IsFiled;
        pending_filed = nothing-IsFiled;
        included = λ k w. absurd (ground (arith, w));
      };
    }))
