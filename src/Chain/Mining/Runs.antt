-- ===== src/Chain/Mining/Runs.antt =====
-- gossiper/blockchain.go: any run of the mining routine, and the blocks that it then mines.
use peerster.Chain.Mining.Pending.{create_block-distinct, keys-claims, named}
use peerster.Dto.Arrays.Unique.{distinct}
use peerster.Chain.Walks.Names.{claims}
use peerster.Chain.Walks.{tx_names}
use peerster.Dto.Arrays.{SafeStringArray}
use peerster.Base.{Bytes, Bytes-discrete, List, refl, subst, sym, true, ℕ, ◌∙◌, ◌≡◌}
use peerster.Chain.{BlockchainLedger, Ensures, Run, done}
use peerster.Chain.Mining.{
  Mined, Miner, create_block, forward_own_block, hear_block, hear_tx, start_mining, try_to_mine,
}
use peerster.Chain.Mining.Rounds.{
  IsKept, forward_own_block-IsKept, hear_block-IsKept, hear_tx-IsKept, start_mining-IsKept,
  try_to_mine-IsKept,
}
use peerster.Dto.Getters.{PacketAddressPair}
use peerster.Dto.Packet.{GossipPacket}
use peerster.Gossip.Node.{Send}

-- A round of the routine, or the end of `forwardOwnBlock`, which may come at any time.
pub data Step (sha256 : Bytes → Bytes) (m : Miner) : Miner → Type 0 where
  hears_tx :
      (pap : PacketAddressPair) (now : ℕ) (r : Mined)
      → hear_tx pap now m ≡ done r
      → Step sha256 m r.after
  hears_block :
      (n : ℕ) (pap : PacketAddressPair) (now : ℕ) (r : Mined)
      → hear_block sha256 n pap now m ≡ done r
      → Step sha256 m r.after
  tries :
      (n : ℕ) (next_nonce : Bytes) (now : ℕ) (r : Mined)
      → try_to_mine sha256 n next_nonce now m ≡ done r
      → Step sha256 m r.after
  forwards :
      (packet : GossipPacket) (m' : Miner) (sends : List Send)
      → forward_own_block packet m ≡ done (m', sends)
      → Step sha256 m m'

pub data Reach (sha256 : Bytes → Bytes) (m0 : Miner) : Miner → Type 0 where
  start : Reach sha256 m0 m0
  later : {m m' : Miner} → Reach sha256 m0 m → Step sha256 m m' → Reach sha256 m0 m'

ensured {ℓ κ} : {A : Type ℓ} {P : A → Type κ} (r : Run A) (a : A) → Ensures P r → r ≡ done a → P a
ensured {P = P} r a h e = (subst (λ x. Ensures P x) e h).holds

abbrev Holds : Miner → Miner → Type 0
Holds m0 m = IsKept m × (m.taken_names ≡ m0.taken_names)

module _ (sha256 : Bytes → Bytes) (m0 : Miner) where
  Step-Holds : {m m' : Miner} → Step sha256 m m' → Holds m0 m → Holds m0 m'
  Step-Holds {m} (hears_tx pap now r e) h =
      let (kept, same) = ensured (hear_tx pap now m) r (hear_tx-IsKept pap now m h.0) e in
      (kept, same ∙ h.1)
  Step-Holds {m} (hears_block n pap now r e) h =
      let (kept, same) =
        ensured (hear_block sha256 n pap now m) r (hear_block-IsKept sha256 n pap now m h.0) e in
      (kept, same ∙ h.1)
  Step-Holds {m} (tries n next_nonce now r e) h =
      let (kept, same) =
        ensured (try_to_mine sha256 n next_nonce now m) r
          (try_to_mine-IsKept sha256 n next_nonce now m h.0) e in
      (kept, same ∙ h.1)
  Step-Holds {m} (forwards packet m' sends e) h =
      let (kept, same) =
        ensured (forward_own_block packet m) (m', sends) (forward_own_block-IsKept packet m h.0)
          e in
      (kept, same ∙ h.1)

  Reach-Holds : {m : Miner} → IsKept m0 → Reach sha256 m0 m → Holds m0 m
  Reach-Holds h start = (h, refl)
  Reach-Holds h (later r s) = Step-Holds s (Reach-Holds h r)

  -- After any rounds of the mining routine, the block that it tries to mine next has no name twice, and
  -- every name that it claims is one that the routine has heard of.
  pub mined-distinct :
      (n : ℕ) (nonce : Bytes) (now : ℕ) (ledger : BlockchainLedger) (peers : SafeStringArray)
      (m : Miner)
      → start_mining n nonce now ledger peers ≡ done m0
      → Reach sha256 m0 m
      → let names = tx_names (create_block m.head_hash m.nonce m.pending_names).transactions in
        (distinct Bytes-discrete names ≡ true)
        × ((k : Bytes) → claims k names ≡ true → named k m.every_tx_ever ≡ true)
  mined-distinct n nonce now ledger peers m e r =
      let began = ensured _ m0 (start_mining-IsKept n nonce now ledger peers) e in
      let (kept, _) = Reach-Holds began r in
      (
        create_block-distinct m.head_hash m.nonce m.pending_names kept.pending_filed,
        λ k h. kept.included k (
            sym (keys-claims k m.head_hash m.nonce m.pending_names kept.pending_filed.by_name) ∙ h),
      )

  -- However often the head changes, the names that the mining routine holds for taken are those that
  -- were taken when it started.
  pub taken_names-stale :
      (n : ℕ) (nonce : Bytes) (now : ℕ) (ledger : BlockchainLedger) (peers : SafeStringArray)
      (m : Miner)
      → start_mining n nonce now ledger peers ≡ done m0
      → Reach sha256 m0 m
      → m.taken_names ≡ m0.taken_names
  taken_names-stale n nonce now ledger peers m e r =
      (Reach-Holds (ensured _ m0 (start_mining-IsKept n nonce now ledger peers) e) r).1
