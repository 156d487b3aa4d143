-- ===== src/Search/Filenames.antt =====
-- filesearching/SafeFilenamesMap.go: the names under which files are known.
use peerster.Base.{
  Bool, Bytes, Bytes-discrete, List, Map, Option, [], false, if◌then◌else◌, length, load, ltb, map,
  none, some, store, true, ◌∷◌,
}
use peerster.Dto.Arrays.{SafeStringArray, append_unique_to_array, new_safe_string_array}
use peerster.Files.Parsing.{contains_keyword}

abbrev pub SafeFilenamesMap : Type 0
SafeFilenamesMap = Map Bytes SafeStringArray

unfoldable pub add_mapping : Bytes → Bytes → SafeFilenamesMap → SafeFilenamesMap × Bool
add_mapping metahash filename sfm = elim (load Bytes-discrete metahash sfm) [
  | none ↦ (store Bytes-discrete metahash (new_safe_string_array (filename ∷ [])) sfm, true)
  | some arr ↦ (
    store Bytes-discrete metahash (append_unique_to_array Bytes-discrete filename arr).0 sfm,
    false,
  )
]

abbrev pub get_mapping : Bytes → SafeFilenamesMap → Option SafeStringArray
get_mapping metahash sfm = load Bytes-discrete metahash sfm

-- The names of one file that match.
unfoldable pub matching_names : List Bytes → List Bytes → SafeStringArray → SafeStringArray
matching_names keywords [] found = found
matching_names keywords (name ∷ names) found = matching_names keywords names (
    if contains_keyword name keywords
    then (append_unique_to_array Bytes-discrete name found).0
    else found)

-- The range over the files.
unfoldable pub matches_range :
    List Bytes → SafeFilenamesMap → Map Bytes SafeStringArray → Map Bytes SafeStringArray
unfolding matching_names
matches_range keywords [] mp = mp
matches_range keywords ((metahash, ssa) ∷ entries) mp =
    let found = matching_names keywords ssa.array (new_safe_string_array []) in
    matches_range keywords entries
      (if ltb 0 (length found.array) then store Bytes-discrete metahash found mp else mp)

unfoldable pub get_matches : List Bytes → SafeFilenamesMap → Map Bytes SafeStringArray
unfolding matches_range
get_matches keywords sfm = matches_range keywords sfm []

-- The empty keyword matches every name.
unfoldable pub get_all_matches : SafeFilenamesMap → Map Bytes (List Bytes)
unfolding get_matches
get_all_matches sfm = map (λ e. (e.0, e.1.array)) (get_matches ([] ∷ []) sfm)
