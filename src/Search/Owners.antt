-- ===== src/Search/Owners.antt =====
-- filesearching/FileChunkOwnersMap.go: the owners of the chunks of every file.
pub mod Update
use peerster.Base.{
  Bool, Bytes, Bytes-discrete, List, Map, [], false, length, load, load_or_store, none, not, some,
  store, true, ℕ, ℕ_discrete, ◌&&◌, ◌==◌, ◌∷◌,
}
use peerster.Dto.Arrays.{SafeStringArray, append_unique_to_array, new_safe_string_array}
use peerster.Dto.Packet.{SearchResult}
use peerster.Files.Parsing.{convert_to_hash32}

pub record ChunkOwnersMap : Type 0 where
  pub num_chunks : ℕ
  pub chunk_owners : Map ℕ SafeStringArray

abbrev pub new_chunk_owners_map : ℕ → ChunkOwnersMap
new_chunk_owners_map num_chunks = record { num_chunks = num_chunks; chunk_owners = [] }

abbrev pub total_match : ChunkOwnersMap → Bool
total_match cm = length cm.chunk_owners == cm.num_chunks

unfoldable pub add_owner : Bytes → ℕ → Map ℕ SafeStringArray → Map ℕ SafeStringArray
add_owner origin v owners = elim (load ℕ_discrete v owners) [
  | some array ↦ store ℕ_discrete v (append_unique_to_array Bytes-discrete origin array).0 owners
  | none ↦ store ℕ_discrete v (new_safe_string_array (origin ∷ [])) owners
]

unfoldable pub add_owners : Bytes → List ℕ → Map ℕ SafeStringArray → Map ℕ SafeStringArray
unfolding add_owner
add_owners origin [] owners = owners
add_owners origin (v ∷ chunk_map) owners = add_owners origin chunk_map (add_owner origin v owners)

-- What an update reports.
pub record Match : Type 0 where
  pub made_total_match : Bool
  pub has_total_match : Bool

unfoldable pub update_map : Bytes → List ℕ → ChunkOwnersMap → ChunkOwnersMap × Match
update_map origin chunk_map cm =
    let cm' = record cm { chunk_owners = add_owners origin chunk_map cm.chunk_owners } in
    (
      cm',
      record {
        made_total_match = not (total_match cm) && total_match cm';
        has_total_match = total_match cm';
      },
    )

abbrev pub get_map_copy : ChunkOwnersMap → Map ℕ SafeStringArray × Bool
get_map_copy cm = (cm.chunk_owners, total_match cm)

abbrev pub MetahashToChunkOwnersMap : Type 0
MetahashToChunkOwnersMap = Map Bytes ChunkOwnersMap

unfoldable pub update_with_search_result :
    Bytes → SearchResult → MetahashToChunkOwnersMap → MetahashToChunkOwnersMap × Match
update_with_search_result origin sr mtcom = elim (convert_to_hash32 sr.metafile_hash) [
  | none ↦ (mtcom, record { made_total_match = false; has_total_match = false })
  | some hash32 ↦
      let (cm, _, m) =
        load_or_store Bytes-discrete hash32 (new_chunk_owners_map sr.chunk_count) mtcom in
      let (cm', found) = update_map origin sr.chunk_map cm in
      (store Bytes-discrete hash32 cm' m, found)
]

-- The owners, whether every chunk has one, and whether the file is known.
unfoldable pub get_owners : Bytes → MetahashToChunkOwnersMap → Map ℕ SafeStringArray × Bool × Bool
get_owners metahash mtcom = elim (load Bytes-discrete metahash mtcom) [
  | none ↦ ([], false, false)
  | some cm ↦ (cm.chunk_owners, total_match cm, true)
]
