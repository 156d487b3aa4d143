-- ===== src/Search/Searches/Found.antt =====
-- Properties of the files that a search has found.
use peerster.Base.{
  Bytes, Bytes-discrete, List, Option, [], arith, leb, length, length-store, load, load-store_self,
  none, some, ◌+◌, ◌≡◌,
}
use peerster.Dto.Arrays.{new_safe_string_array, new_unique_array}
use peerster.Search.Searches.{SearchMapEntry, append_files}

-- The names kept for a file that a search has found.
abbrev pub names_of : Bytes → SearchMapEntry → Option (List Bytes)
names_of metahash sme = elim (load Bytes-discrete metahash sme.files) [
  | none ↦ none
  | some arr ↦ some arr.array
]

-- `AppendFiles` with a file that is new to the search counts the file and drops its names: its list
-- of names is empty. The search is to be informed exactly if it then has two files or more.
append_files-new :
    (filenames : List Bytes) (metahash : Bytes) (sme : SearchMapEntry)
    → load Bytes-discrete metahash sme.files ≡ none
    → let r = append_files filenames metahash sme in
      (names_of metahash r.0 ≡ some [])
      × (length r.0.files ≡ length sme.files + 1)
      × (r.1 ≡ leb 1 (length sme.files))
unfolding append_files new_unique_array
append_files-new filenames metahash sme h =
    let arr = new_safe_string_array [] in
    rw (h, append_files)
      (
        ground (arith, load-store_self Bytes-discrete metahash arr sme.files),
        ground (arith, h, length-store Bytes-discrete metahash arr sme.files),
        ground (arith, h, length-store Bytes-discrete metahash arr sme.files),
      )
