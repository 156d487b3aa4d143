-- ===== src/Files/Parsing/Keywords.antt =====
-- Properties of the keyword match of fileparsing/helpers.go, against an independent description.
use peerster.Base.{
  Bool-cases, Bytes, List, [], ap, arith, inl, inr, refl, true, ◌++◌, ◌↔◌, ◌∷◌, ◌≡◌, ◌⊎◌,
}
use peerster.Files.Parsing.{contains_keyword, contains_substring, has_prefix}

-- The name is made of something, the keyword, and something.
abbrev pub IsPiece : Bytes → Bytes → Type 0
IsPiece sub s = (a : Bytes) × (b : Bytes) × (s ≡ a ++ (sub ++ b))

has_prefix-rest : (s sub : Bytes) → has_prefix s sub ≡ true → (b : Bytes) × (s ≡ sub ++ b)
unfolding has_prefix
has_prefix-rest s [] h = (s, refl)
has_prefix-rest [] (c ∷ cs) h = absurd (ground arith)
has_prefix-rest (b ∷ bs) (c ∷ cs) h =
    let rest = has_prefix-rest bs cs (ground arith) in
    let same : b ≡ c = ground arith in (rest.0, ground (arith, same, rest.1))

has_prefix-append : (sub b : Bytes) → has_prefix (sub ++ b) sub ≡ true
unfolding has_prefix
has_prefix-append [] b = refl
has_prefix-append (c ∷ cs) b = ground (arith, has_prefix-append cs b)

contains_substring-IsPiece : (s sub : Bytes) → contains_substring s sub ≡ true → IsPiece sub s
unfolding contains_substring
contains_substring-IsPiece [] sub h = let rest = has_prefix-rest [] sub h in ([], rest.0, rest.1)
contains_substring-IsPiece (b ∷ bs) sub h = elim (Bool-cases (has_prefix (b ∷ bs) sub)) [
  | inl here ↦ let rest = has_prefix-rest (b ∷ bs) sub here in ([], rest.0, rest.1)
  | inr there ↦
      let rest = contains_substring-IsPiece bs sub (rw there at h) in
      (b ∷ rest.0, rest.1, ap (◌∷◌ b) rest.2)
]

contains_substring-middle : (a sub b : Bytes) → contains_substring (a ++ (sub ++ b)) sub ≡ true
unfolding contains_substring
contains_substring-middle [] [] [] = refl
contains_substring-middle [] [] (x ∷ b) = ground (arith, has_prefix-append [] (x ∷ b))
contains_substring-middle [] (c ∷ cs) b = ground (arith, has_prefix-append (c ∷ cs) b)
contains_substring-middle (x ∷ a) sub b = ground (arith, contains_substring-middle a sub b)

-- `strings.Contains` is right, in both directions.
contains_substring_iff : (s sub : Bytes) → (contains_substring s sub ≡ true) ↔ IsPiece sub s
contains_substring_iff s sub =
    (contains_substring-IsPiece s sub, λ (a, b, e). rw e (contains_substring-middle a sub b))

-- The first keyword that is a piece of the name.
abbrev pub SomePiece : Bytes → List Bytes → Type 0
SomePiece name [] = ⊥
SomePiece name (keyword ∷ keywords) = IsPiece keyword name ⊎ SomePiece name keywords

contains_keyword→ :
    (name : Bytes) (keywords : List Bytes)
    → contains_keyword name keywords ≡ true
    → SomePiece name keywords
unfolding contains_keyword
contains_keyword→ name [] h = ground arith
contains_keyword→ name (k ∷ ks) h = elim (Bool-cases (contains_substring name k)) [
  | inl e ↦ inl (contains_substring-IsPiece name k e)
  | inr e ↦ inr (contains_keyword→ name ks (rw e at h))
]

→contains_keyword :
    (name : Bytes) (keywords : List Bytes)
    → SomePiece name keywords
    → contains_keyword name keywords ≡ true
unfolding contains_keyword
→contains_keyword name [] h = absurd h
→contains_keyword name (k ∷ ks) (inl p) = ground (arith, (contains_substring_iff name k).1 p)
→contains_keyword name (k ∷ ks) (inr p) = ground (arith, →contains_keyword name ks p)

-- A name matches a list of keywords exactly if one of them is a piece of it.
contains_keyword_iff :
    (name : Bytes) (keywords : List Bytes)
    → (contains_keyword name keywords ≡ true) ↔ SomePiece name keywords
contains_keyword_iff name keywords =
    (contains_keyword→ name keywords, →contains_keyword name keywords)
