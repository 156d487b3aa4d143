-- ===== src/Search/Searches/Keys.antt =====
-- Properties of the keys under which searches are stored.
use peerster.Base.{All, Bytes, List, [], ap, arith, refl, ◌++◌, ◌∙◌, ◌∷◌, ◌≡◌, ◌≢◌}
use peerster.Search.Searches.{hashable_to_keywords, keywords_to_hashable}

-- No comma in the keyword.
abbrev pub NoComma : Bytes → Type 0
NoComma k = All (λ c. c ≢ b',') k

split-append :
    (k rest : Bytes)
    → NoComma k
    → hashable_to_keywords (k ++ b',' ∷ rest) ≡ k ∷ hashable_to_keywords rest
unfolding hashable_to_keywords
split-append [] rest h = ground arith
split-append (c ∷ cs) rest h = ground (arith, h.0, split-append cs rest h.1)

split-single : (k : Bytes) → NoComma k → hashable_to_keywords k ≡ k ∷ []
unfolding hashable_to_keywords
split-single [] h = refl
split-single (c ∷ cs) h = ground (arith, h.0, split-single cs h.1)

-- A nonempty list of keywords without commas is given back by the key under which its search is
-- stored.
split-join :
    (k : Bytes) (ks : List Bytes)
    → All NoComma (k ∷ ks)
    → hashable_to_keywords (keywords_to_hashable (k ∷ ks)) ≡ k ∷ ks
unfolding keywords_to_hashable
split-join k [] h = split-single k h.0
split-join k (l ∷ ks) h =
    split-append k (keywords_to_hashable (l ∷ ks)) h.0 ∙ ap (◌∷◌ k) (split-join l ks h.1)
