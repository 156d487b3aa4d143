-- ===== src/Dht/Distance.antt =====
-- dht/helpers.go and dht_util/util.go: identifiers, their distance, and insertion by distance.
pub mod Order
pub mod Ordered
pub mod Xor
use peerster.Base.{
  Bool, Bytes, List, Option, [], bit_xor, false, if◌then◌else◌, leb, length, ltb, none, some, true,
  ℕ, ◌+◌, ◌==◌, ◌∷◌,
}
use peerster.Dht.Types.{NodeState}

-- `TypeID` is 64 bytes.
abbrev pub id_byte_size : ℕ
id_byte_size = 64

unfoldable pub convert_to_type_id : Bytes → Option Bytes
convert_to_type_id id_b = if length id_b == id_byte_size then some id_b else none

unfoldable pub xor_distance : Bytes → Bytes → Bytes
xor_distance [] ys = []
xor_distance (x ∷ xs) [] = []
xor_distance (x ∷ xs) (y ∷ ys) = bit_xor x y ∷ xor_distance xs ys

-- The results 1, 0 and -1 of `compare`.
pub data Sign : Type 0 where
  above equal below : Sign

unfoldable pub compare_ids : Bytes → Bytes → Sign
compare_ids [] ys = equal
compare_ids (x ∷ xs) [] = equal
compare_ids (x ∷ xs) (y ∷ ys) =
    let rest = compare_ids xs ys in if ltb x y then below else if ltb y x then above else rest

abbrev pub is_above : Sign → Bool
is_above above = true
is_above _ = false

-- `id2` is closer to the target than `id1`.
unfoldable pub is_closer : Bytes → Bytes → Bytes → Bool
is_closer target id1 id2 =
    is_above (compare_ids (xor_distance target id1) (xor_distance target id2))

unfoldable pub insert_ordered : Bytes → List NodeState → NodeState → List NodeState
insert_ordered target [] potential = potential ∷ []
insert_ordered target (prev ∷ closest) potential =
    if is_closer target prev.node_id potential.node_id
    then potential ∷ prev ∷ closest
    else prev ∷ insert_ordered target closest potential

-- `bits.LeadingZeros8` of the standard library: the zero bits above the highest one of a byte.
abbrev pub leading_zeros8 : ℕ → ℕ
leading_zeros8 b =
    if leb 128 b
    then 0
    else if leb 64 b
    then 1
    else if leb 32 b
    then 2
    else if leb 16 b
    then 3
    else if leb 8 b
    then 4
    else if leb 4 b
    then 5
    else if leb 2 b
    then 6
    else if leb 1 b
    then 7
    else 8

unfoldable pub common_leading_bits : Bytes → Bytes → ℕ
common_leading_bits [] ys = 0
common_leading_bits (x ∷ xs) [] = 0
common_leading_bits (x ∷ xs) (y ∷ ys) =
    let xored = bit_xor x y in
    if xored == 0 then 8 + common_leading_bits xs ys else leading_zeros8 xored
