-- ===== src/Search/Searches.antt =====
-- filesearching/SafeSearchMap.go: the searches that are going on.
pub mod Keys
pub mod Found
use peerster.Base.{
  Bool, Bytes, Bytes-discrete, List, Map, [], delete, false, if◌then◌else◌, leb, length, load,
  load_or_store, none, not, some, store, true, ℕ, ◌++◌, ◌==◌, ◌||◌, ◌∷◌,
}
use peerster.Dto.Arrays.{SafeStringArray, append_unique_to_array, new_safe_string_array}
use peerster.Files.Parsing.{contains_keyword}

abbrev pub threshold_total_matches : ℕ
threshold_total_matches = 2

-- `strings.Join` and `strings.Split` with a comma.
unfoldable pub keywords_to_hashable : List Bytes → Bytes
keywords_to_hashable [] = []
keywords_to_hashable (k ∷ []) = k
keywords_to_hashable (k ∷ l ∷ ks) = k ++ b',' ∷ keywords_to_hashable (l ∷ ks)

abbrev pub cons_head : ℕ → List Bytes → List Bytes
cons_head c [] = (c ∷ []) ∷ []
cons_head c (k ∷ ks) = (c ∷ k) ∷ ks

unfoldable pub hashable_to_keywords : Bytes → List Bytes
hashable_to_keywords [] = [] ∷ []
hashable_to_keywords (c ∷ cs) =
    let rest = hashable_to_keywords cs in if c == b',' then [] ∷ rest else cons_head c rest

-- `c_files` is a channel.
pub record SearchMapEntry : Type 0 where
  pub files : Map Bytes SafeStringArray
  pub c_files : ℕ

abbrev pub SafeSearchMap : Type 0
SafeSearchMap = Map Bytes SearchMapEntry

unfoldable pub add_listener_with_files :
    List Bytes → Map Bytes SafeStringArray → ℕ → SafeSearchMap → SafeSearchMap × Bool
add_listener_with_files keywords files c_files ssm =
    let sme : SearchMapEntry = record { files = files; c_files = c_files } in
    let (_, not_new, m) = load_or_store Bytes-discrete (keywords_to_hashable keywords) sme ssm in
    (m, not not_new)

unfoldable pub add_listener : List Bytes → ℕ → SafeSearchMap → SafeSearchMap × Bool
unfolding add_listener_with_files
add_listener keywords c_files ssm = add_listener_with_files keywords [] c_files ssm

unfoldable pub remove_listener : List Bytes → SafeSearchMap → SafeSearchMap
remove_listener keywords ssm = delete Bytes-discrete (keywords_to_hashable keywords) ssm

unfoldable pub any_name_matches : List Bytes → List Bytes → Bool
any_name_matches keywords [] = false
any_name_matches keywords (name ∷ filenames) =
    contains_keyword name keywords || any_name_matches keywords filenames

-- The range stops at the first search that matches.
unfoldable pub check_if_matches : List Bytes → SafeSearchMap → Bool
unfolding any_name_matches
check_if_matches filenames [] = false
check_if_matches filenames ((key, sme) ∷ entries) =
    any_name_matches (hashable_to_keywords key) filenames || check_if_matches filenames entries

unfoldable pub append_names : List Bytes → SafeStringArray → SafeStringArray
append_names [] arr = arr
append_names (name ∷ names) arr =
    append_names names (append_unique_to_array Bytes-discrete name arr).0

-- A file that is new to the search gets an empty array: the names are not put in.
unfoldable pub append_files : List Bytes → Bytes → SearchMapEntry → SearchMapEntry × Bool
unfolding append_names
append_files filenames metahash sme =
    let files' : Map Bytes SafeStringArray = elim (load Bytes-discrete metahash sme.files) [
      | some arr ↦ store Bytes-discrete metahash (append_names filenames arr) sme.files
      | none ↦ store Bytes-discrete metahash (new_safe_string_array []) sme.files
    ] in
    (record sme { files = files' }, leb threshold_total_matches (length files'))

-- The names of a file against one search: the entry, and whether the search is to be informed, which
-- ends the loop.
unfoldable pub offer_names :
    List Bytes → List Bytes → Bytes → SearchMapEntry → SearchMapEntry × Bool
offer_names keywords [] metahash sme = (sme, false)
offer_names keywords (name ∷ filenames) metahash sme = elim (contains_keyword name keywords) [
  | false ↦ offer_names keywords filenames metahash sme
  | true ↦
      let (sme', should_inform) = append_files (name ∷ []) metahash sme in
      elim should_inform [
        | true ↦ (sme', true)
        | false ↦ offer_names keywords filenames metahash sme'
      ]
]

-- What a search is told through its channel.
abbrev pub Report : Type 0
Report = ℕ × Map Bytes SafeStringArray

-- The range of `InformListeners`: a search that is informed leaves the map.
unfoldable pub inform_listeners : List Bytes → Bytes → SafeSearchMap → SafeSearchMap × List Report
unfolding offer_names
inform_listeners filenames metahash [] = ([], [])
inform_listeners filenames metahash ((key, sme) ∷ entries) =
    let (sme', informed) = offer_names (hashable_to_keywords key) filenames metahash sme in
    let (entries', reports) = inform_listeners filenames metahash entries in
    if informed
    then (entries', (sme'.c_files, sme'.files) ∷ reports)
    else ((key, sme') ∷ entries', reports)
