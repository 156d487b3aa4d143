-- ===== src/Tests/Files.antt =====
-- Cases for files and searches.
use peerster.Base.{Bytes, List, [], refl, suc, zero, ℕ, ◌∷◌}
use peerster.Files.Parsing.Roundtrip.{IsSha256}
use peerster.Search.Owners.{ChunkOwnersMap, new_chunk_owners_map}
use peerster.Search.Searches.{SearchMapEntry}

-- A stand-in for the hash: 32 times the first byte.
unfoldable repeat : ℕ → ℕ → Bytes
repeat zero b = []
repeat (suc n) b = b ∷ repeat n b

abbrev first_byte : Bytes → ℕ
first_byte [] = 0
first_byte (b ∷ bs) = b

abbrev hash : Bytes → Bytes
hash bs = repeat 32 (first_byte bs)

hash-IsSha256 : IsSha256 hash
unfolding repeat
hash-IsSha256 bs = refl

abbrev chunks : List Bytes
chunks = (1 ∷ 2 ∷ []) ∷ (3 ∷ []) ∷ []

abbrev name : Bytes
name = b'a' ∷ b'b' ∷ b'c' ∷ []

abbrev two_chunks : ChunkOwnersMap
two_chunks = new_chunk_owners_map 2

abbrev key : List Bytes
key = (b'a' ∷ []) ∷ (b'b' ∷ []) ∷ []

abbrev search : SearchMapEntry
search = record { files = []; c_files = 100 }
