-- ===== src/Files/Parsing.antt =====
-- fileparsing/helpers.go: chunks, metafiles and hashes. `sha256` is the standard library's function.
pub mod Roundtrip
pub mod Keywords
use peerster.Base.{
  Bool, Bytes, Bytes-discrete, List, Map, Option, [], drop, false, if◌then◌else◌, is_yes, length,
  none, some, store, suc, take, true, zero, ℕ, ◌%◌, ◌&&◌, ◌*◌, ◌++◌, ◌+◌, ◌/◌, ◌==◌, ◌||◌, ◌∷◌,
}

abbrev pub default_chunk_size : ℕ
default_chunk_size = 8192

-- How reading a file ends.
pub data ReadEnd : Type 0 where
  eof failed : ReadEnd

abbrev pub nonempty : Bytes → Bool
nonempty [] = false
nonempty (b ∷ bs) = true

-- The loop of `ReadChunks` over what each read brings.
unfoldable pub collect : List Bytes → List Bytes × ℕ
collect [] = ([], 0)
collect (chunk ∷ reads) =
    let (chunks, size) = collect reads in
    if nonempty chunk then (chunk ∷ chunks, length chunk + size) else (chunks, size)

-- `none` is an error.
unfoldable pub read_chunks : List Bytes → ReadEnd → Option (List Bytes × ℕ)
unfolding collect
read_chunks reads eof = some (collect reads)
read_chunks reads failed = none

unfoldable pub concat : List Bytes → Bytes
concat [] = []
concat (chunk ∷ chunks) = chunk ++ concat chunks

-- The file that `WriteFileFromChunks` leaves if no write fails.
abbrev pub write_file_from_chunks : List Bytes → Bytes
write_file_from_chunks = concat

module _ (sha256 : Bytes → Bytes) where
  unfoldable pub chunk_entries : List Bytes → Map Bytes Bytes → Map Bytes Bytes
  chunk_entries [] m = m
  chunk_entries (chunk ∷ chunks) m =
      chunk_entries chunks (store Bytes-discrete (sha256 chunk) chunk m)

  -- The checksums of the chunks, one after the other.
  unfoldable pub metafile_of : List Bytes → Bytes
  metafile_of [] = []
  metafile_of (chunk ∷ chunks) = sha256 chunk ++ metafile_of chunks

  -- The map by checksum, the metafile, and its hash.
  unfoldable pub create_chunks_map : List Bytes → Map Bytes Bytes × Bytes × Bytes
  unfolding chunk_entries metafile_of
  create_chunks_map chunks =
      let metafile = metafile_of chunks in (chunk_entries chunks [], metafile, sha256 metafile)

  unfoldable pub verify_data_hash : Bytes → Bytes → Bool
  verify_data_hash hash payload =
      if length hash == 32 then is_yes (Bytes-discrete hash (sha256 payload)) else false

-- `n` pieces of 32 bytes.
unfoldable pub pieces : ℕ → Bytes → List Bytes
pieces zero metafile = []
pieces (suc n) metafile = take 32 metafile ∷ pieces n (drop 32 metafile)

unfoldable pub parse_metafile : Bytes → Option (List Bytes)
unfolding pieces
parse_metafile metafile =
    if length metafile % 32 == 0 then some (pieces (length metafile / 32) metafile) else none

unfoldable pub convert_to_hash32 : Bytes → Option Bytes
convert_to_hash32 hash = if length hash == 32 then some hash else none

-- `none` is -1.
unfoldable pub estimate_file_size : Bytes → Option ℕ
estimate_file_size metafile =
    if length metafile % 32 == 0 then some (length metafile / 32 * default_chunk_size) else none

-- `strings.HasPrefix` and `strings.Contains` of the standard library.
unfoldable pub has_prefix : Bytes → Bytes → Bool
has_prefix s [] = true
has_prefix [] (c ∷ cs) = false
has_prefix (b ∷ bs) (c ∷ cs) = b == c && has_prefix bs cs

unfoldable pub contains_substring : Bytes → Bytes → Bool
unfolding has_prefix
contains_substring [] sub = has_prefix [] sub
contains_substring (b ∷ bs) sub = has_prefix (b ∷ bs) sub || contains_substring bs sub

unfoldable pub contains_keyword : Bytes → List Bytes → Bool
unfolding contains_substring
contains_keyword name [] = false
contains_keyword name (keyword ∷ keywords) =
    contains_substring name keyword || contains_keyword name keywords
