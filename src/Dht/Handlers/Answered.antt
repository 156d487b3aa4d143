-- ===== src/Dht/Handlers/Answered.antt =====
-- gossiper/dht.go: the routine reads every message.
use peerster.Dto.Packet.{Outcome, ok}
use peerster.Base.{Bytes, Option, ℕ, ◌≡◌}
use peerster.Dht.Buckets.{BucketTable}
use peerster.Dht.Handlers.Listening.{Handled}
use peerster.Dht.Handlers.{DhtNode}

module _ (decrypt : Bytes → Bytes → Option Bytes) (now : ℕ) where
  module _ (retrieve : Bytes → Bytes → Option Bytes) where
    -- An outcome that is no panic and leaves the table as it is.
    abbrev Handles : BucketTable → Outcome (DhtNode × Handled) → Type 0
    Handles bt o = (g : DhtNode) × (h : Handled) × (o ≡ ok (g, h)) × (g.bucket_table ≡ bt)
