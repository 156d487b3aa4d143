-- ===== src/Dto/Arrays.antt =====
-- dto/SafeStringArray.go, dto/SafeHashFilenamePairArray.go and dto/SafeMessageArray.go: slices that
-- routines append to, the first two without duplicates. Each method runs under the mutex.
pub mod Unique
use peerster.Base.{
  Bool, Bytes, Bytes-discrete, List, Map, [], false, if◌then◌else◌, length, load, ltb, none, some,
  store, true, ℕ, ℕ_discrete, ◌%◌, ◌++◌, ◌+◌, ◌-◌, ◌/◌, ◌∷◌,
}
use peerster.Dto.Packet.{RumorMessage}

pub record UniqueArray (K : Type 0) : Type 0 where
  pub exists : Map K Bool
  pub array : List K

module _ {K : Type 0} (dec : Discrete K) where
  unfoldable pub mark_all : List K → Map K Bool → Map K Bool
  mark_all [] m = m
  mark_all (member ∷ members) m = mark_all members (store dec member true m)

  unfoldable pub new_unique_array : List K → UniqueArray K
  new_unique_array members = record { exists = mark_all members []; array = members }

  unfoldable pub append_unique_to_array : K → UniqueArray K → UniqueArray K × Bool
  append_unique_to_array item a = elim (load dec item a.exists) [
    | none ↦ (record { exists = store dec item true a.exists; array = a.array ++ item ∷ [] }, true)
    | some _ ↦ (a, false)
  ]

  unfoldable pub append_all : List K → UniqueArray K → UniqueArray K
  append_all [] a = a
  append_all (item ∷ items) a = append_all items (append_unique_to_array item a).0

abbrev pub get_array_copy : {K : Type 0} → UniqueArray K → List K
get_array_copy a = a.array

abbrev pub get_length : {K : Type 0} → UniqueArray K → ℕ
get_length a = length a.array

abbrev pub SafeStringArray : Type 0
SafeStringArray = UniqueArray Bytes

abbrev pub new_safe_string_array : List Bytes → SafeStringArray
new_safe_string_array = new_unique_array Bytes-discrete

pub record MetahashFilenamePair : Type 0 where
  pub metahash : Bytes
  pub filename : Bytes

unfoldable pub MetahashFilenamePair-discrete : Discrete MetahashFilenamePair
MetahashFilenamePair-discrete = hlevel ℕ_discrete

abbrev pub SafeHashFilenamePairArray : Type 0
SafeHashFilenamePairArray = UniqueArray MetahashFilenamePair

-- `%x` of a byte, and of a sequence of bytes.
abbrev pub hex_digit : ℕ → ℕ
hex_digit d = if ltb d 10 then b'0' + d else b'a' + (d - 10)

unfoldable pub hex : Bytes → Bytes
hex [] = []
hex (b ∷ bs) = hex_digit (b / 16) ∷ hex_digit (b % 16) ∷ hex bs

unfoldable pub append_pair :
    Bytes → Bytes → SafeHashFilenamePairArray → SafeHashFilenamePairArray × Bool
append_pair metahash filename a =
    let item : MetahashFilenamePair = record { metahash = hex metahash; filename = filename } in
    append_unique_to_array MetahashFilenamePair-discrete item a

pub record SafeMessageArray : Type 0 where
  pub array : List RumorMessage

unfoldable pub append_to_array : RumorMessage → SafeMessageArray → SafeMessageArray
append_to_array item a = record { array = a.array ++ item ∷ [] }

unfoldable pub get_array_copy_and_delete : SafeMessageArray → SafeMessageArray × List RumorMessage
get_array_copy_and_delete a = (record { array = [] }, a.array)
