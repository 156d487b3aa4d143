-- ===== src/Files/Entries.antt =====
-- fileparsing/SafeFileEntry.go, SafeFileMap.go, SafeFileSet.go, SafeChunkMap.go and DLChanMap.go: the
-- files and chunks that a peer has, the downloads that go on, and who waits for which chunk.
pub mod Found
use peerster.Base.{
  Bool, Bytes, Bytes-discrete, List, Map, Option, [], delete, if◌then◌else◌, leb, length, load,
  load_or_store, none, not, some, suc, true, zero, ℕ, ◌++◌, ◌/◌, ◌∷◌,
}
use peerster.Dto.Packet.{SearchResult}
use peerster.Files.Parsing.{contains_keyword}

pub record SafeFileEntry : Type 0 where
  pub name : Bytes
  pub size : ℕ
  pub metafile : Bytes
  pub metahash : Bytes
  pub chunk_indices : List ℕ

-- The numbers from `first` on, as many as asked for.
unfoldable pub indices_from : ℕ → ℕ → List ℕ
indices_from first zero = []
indices_from first (suc n) = first ∷ indices_from (suc first) n

unfoldable pub new_safe_file_entry : Bytes → ℕ → Bytes → Bytes → SafeFileEntry
unfolding indices_from
new_safe_file_entry name size metafile metahash = record {
  name = name;
  size = size;
  metafile = metafile;
  metahash = metahash;
  chunk_indices = indices_from 1 (length metafile / 32);
}

-- `sort.Slice` of the standard library, upwards.
unfoldable pub insert_index : ℕ → List ℕ → List ℕ
insert_index i [] = i ∷ []
insert_index i (j ∷ js) = if leb i j then i ∷ j ∷ js else j ∷ insert_index i js

unfoldable pub sort_indices : List ℕ → List ℕ
unfolding insert_index
sort_indices [] = []
sort_indices (i ∷ is) = insert_index i (sort_indices is)

-- The slice is shared with the entry, so the call leaves it sorted there; the entry returned holds
-- what the call returns.
unfoldable pub safe_get_contents : SafeFileEntry → SafeFileEntry
unfolding sort_indices
safe_get_contents sfe = record sfe { chunk_indices = sort_indices sfe.chunk_indices }

unfoldable pub safe_set_size : ℕ → SafeFileEntry → SafeFileEntry
safe_set_size new_size sfe = record sfe { size = new_size }

unfoldable pub safe_add_chunk_index : ℕ → SafeFileEntry → SafeFileEntry
safe_add_chunk_index index sfe = record sfe { chunk_indices = sfe.chunk_indices ++ index ∷ [] }

abbrev pub SafeFileMap : Type 0
SafeFileMap = Map Bytes SafeFileEntry

unfoldable pub add_entry : Bytes → ℕ → Bytes → Bytes → SafeFileMap → SafeFileMap × Bool
unfolding new_safe_file_entry
add_entry name size metafile metahash sfm =
    let sfe = new_safe_file_entry name size metafile metahash in
    let (_, not_new, m) = load_or_store Bytes-discrete sfe.metahash sfe sfm in (m, not not_new)

abbrev pub get_entry : Bytes → SafeFileMap → Option SafeFileEntry
get_entry metahash sfm = load Bytes-discrete metahash sfm

-- What `keywordMatcher` appends for one entry.
unfoldable pub keyword_matcher : List Bytes → SafeFileEntry → List SearchResult
unfolding safe_get_contents
keyword_matcher keywords sfe =
    let contents = safe_get_contents sfe in
    if contains_keyword contents.name keywords
    then record {
      file_name = contents.name;
      metafile_hash = contents.metahash;
      chunk_map = contents.chunk_indices;
      chunk_count = length contents.metafile / 32;
    }
      ∷ []
    else []

-- The range sorts the indices of every entry.
unfoldable pub get_matches : List Bytes → SafeFileMap → SafeFileMap × List SearchResult
unfolding keyword_matcher safe_get_contents
get_matches keywords [] = ([], [])
get_matches keywords ((metahash, sfe) ∷ entries) =
    let (entries', sress) = get_matches keywords entries in
    ((metahash, safe_get_contents sfe) ∷ entries', keyword_matcher keywords sfe ++ sress)

-- fileparsing/SafeFileSet.go
abbrev pub SafeFileSet : Type 0
SafeFileSet = Map Bytes Bool

unfoldable pub add_unique : Bytes → SafeFileSet → SafeFileSet × Bool
add_unique metahash sfs =
    let (_, not_new, m) = load_or_store Bytes-discrete metahash true sfs in (m, not not_new)

unfoldable pub delete_file : Bytes → SafeFileSet → SafeFileSet
delete_file metahash sfs = delete Bytes-discrete metahash sfs

-- fileparsing/SafeChunkMap.go
abbrev pub SafeChunkMap : Type 0
SafeChunkMap = Map Bytes Bytes

unfoldable pub add_chunk : Bytes → Bytes → SafeChunkMap → SafeChunkMap × Bool
add_chunk checksum chunk scm =
    let (_, not_new, m) = load_or_store Bytes-discrete checksum chunk scm in (m, not not_new)

unfoldable pub add_unchecked_chunk : (Bytes → Bytes) → Bytes → SafeChunkMap → SafeChunkMap × Bool
unfolding add_chunk
add_unchecked_chunk sha256 chunk scm = add_chunk (sha256 chunk) chunk scm

abbrev pub get_chunk : Bytes → SafeChunkMap → Option Bytes
get_chunk checksum scm = load Bytes-discrete checksum scm

-- fileparsing/DLChanMap.go. A channel is a number.
abbrev pub DlChanMap : Type 0
DlChanMap = Map Bytes ℕ

unfoldable pub add_listener : Bytes → ℕ → DlChanMap → DlChanMap × ℕ × Bool
add_listener checksum c_data dlcm =
    let (c, loaded, m) = load_or_store Bytes-discrete checksum c_data dlcm in (m, c, not loaded)

-- The data and the channel that they are put on, if somebody waits for them.
unfoldable pub inform_listener : Bytes → Bytes → DlChanMap → DlChanMap × Option (ℕ × Bytes)
inform_listener checksum data_bytes dlcm = elim (load Bytes-discrete checksum dlcm) [
  | none ↦ (dlcm, none)
  | some c ↦ (delete Bytes-discrete checksum dlcm, some (c, data_bytes))
]
