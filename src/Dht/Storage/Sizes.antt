-- ===== src/Dht/Storage/Sizes.antt =====
-- dht/storage.go: the size of what `Retrieve` gives for a keyword.
use peerster.Base.{Bytes, Bytes-discrete, length, store, ℕ, ◌+◌, ◌≤◌}
use peerster.Dht.Storage.{KeywordToUrlMap, Protobuf}

-- The map with one more address.
abbrev pub with_link : KeywordToUrlMap → Bytes → ℕ → KeywordToUrlMap
with_link m url f = record m { link_data = store Bytes-discrete url f m.link_data }

module _ (pb : Protobuf) where
  -- An address adds at most its length and 100 bytes to an encoding.
  abbrev pub Grows : KeywordToUrlMap → ℕ → Type 0
  Grows m size =
      (url : Bytes) (f : ℕ) → length (pb.encode (with_link m url f)) ≤ size + length url + 100
