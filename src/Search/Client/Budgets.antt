-- ===== src/Search/Client/Budgets.antt =====
-- Properties of the budgets of a search that a client asks for.
use peerster.Base.{List, [], suc, zero, ℕ, ◌*◌, ◌∷◌}

-- From `b` on, doubled as often as asked.
abbrev pub doublings : ℕ → ℕ → List ℕ
doublings b zero = []
doublings b (suc n) = b ∷ doublings (b * 2) n

abbrev doubled : ℕ → ℕ → ℕ
doubled zero b = b
doubled (suc n) b = doubled n (b * 2)
