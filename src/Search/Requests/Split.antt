-- ===== src/Search/Requests/Split.antt =====
-- Properties of the split of a budget over the peers.
use native.Mathlib.Nat.{div-add-mod', mod-lt}
use peerster.Base.{
  All, All-mono, Bool-cases, Bytes, List, [], arith, inl, inr, keep, length, ltb, ltb→lt, lt→ltb,
  refl, ℕ, ◌%◌, ◌*◌, ◌+◌, ◌-◌, ◌/◌, ◌<◌, ◌∷◌, ◌≡◌, ◌≤◌,
}
use peerster.Search.Requests.{budgets, int_max, split}

-- The budgets together.
unfoldable pub total : List (Bytes × ℕ) → ℕ
total [] = 0
total (b ∷ bs) = b.1 + total bs

split-total :
    (q r : ℕ) (peers : List Bytes)
    → r ≤ length peers
    → total (split q r peers) ≡ length peers * q + r
unfolding total split
split-total q r [] h = omega arith
split-total q r (peer ∷ peers) h = ground (arith, split-total q (r - 1) peers)

keep-total : (bs : List (Bytes × ℕ)) → total (keep (λ b. ltb 0 b.1) bs) ≡ total bs
unfolding total
keep-total [] = refl
keep-total (b ∷ bs) = ground (arith, keep-total bs)

pub budgets-total : (budget : ℕ) (peers : List Bytes) → total (budgets budget peers) ≤ budget
unfolding budgets total
budgets-total budget [] = omega arith
budgets-total budget (p ∷ ps) =
    let m = length (p ∷ ps) in
    let q = budget / m in
    let r = budget % m in
    let exact = split-total q r (p ∷ ps) (omega (arith, mod-lt budget {m = m} (omega arith))) in
    elim (Bool-cases (ltb budget int_max)) [
      | inl fits ↦
          rw (fits, budgets)
            (omega (arith, keep-total (split q r (p ∷ ps)), exact, div-add-mod' budget m))
      | inr big ↦ rw (big, budgets) (omega arith)
    ]

-- The equal part, or one more.
abbrev pub Even : ℕ → Bytes × ℕ → Type 0
Even q b = (q ≤ b.1) × (b.1 ≤ q + 1)

split-Even : (q r : ℕ) (peers : List Bytes) → All (Even q) (split q r peers)
unfolding split
split-Even q r [] = tt
split-Even q r (p ∷ ps) = (ground arith, split-Even q (r - 1) ps)

keep-All :
    (P : Bytes × ℕ → Type 0) (bs : List (Bytes × ℕ))
    → All P bs
    → All (λ b. (0 < b.1) × P b) (keep (λ b. ltb 0 b.1) bs)
keep-All P [] h = tt
keep-All P (b ∷ bs) h = elim (Bool-cases (ltb 0 b.1)) [
  | inl e ↦ rw (e, All, keep) ((ltb→lt 0 b.1 e, h.0), keep-All P bs h.1)
  | inr e ↦ rw (e, All, keep) (keep-All P bs h.1)
]

-- A budget below 2^63 is split over the peers, if there are any, without loss: the budgets that are
-- sent are together the budget, each is above 0, and each is the equal part or one more.
budgets-Even :
    (budget : ℕ) (peers : List Bytes)
    → budget < int_max
    → 0 < length peers
    → (total (budgets budget peers) ≡ budget)
      × All (λ b. (0 < b.1) × Even (budget / length peers) b) (budgets budget peers)
unfolding budgets
budgets-Even budget [] fits some_peers = absurd (omega arith)
budgets-Even budget (p ∷ ps) fits some_peers =
    let m = length (p ∷ ps) in
    let q = budget / m in
    let r = budget % m in
    let exact = split-total q r (p ∷ ps) (omega (arith, mod-lt budget {m = m} (omega arith))) in
    rw (lt→ltb budget int_max fits, budgets)
      (
        omega (arith, keep-total (split q r (p ∷ ps)), exact, div-add-mod' budget m),
        keep-All (Even q) (split q r (p ∷ ps)) (split-Even q r (p ∷ ps)),
      )

parts-range :
    (bs : List (Bytes × ℕ))
    → All (λ b. 0 < b.1) bs
    → total bs < int_max
    → All (λ b. (0 < b.1) × (b.1 < int_max)) bs
unfolding total
parts-range [] h k = tt
parts-range (b ∷ bs) h k = ((h.0, omega (arith, k)), parts-range bs h.1 (omega (arith, k)))

-- What is sent is above 0, and a positive int.
pub budgets-range :
    (budget : ℕ) (peers : List Bytes)
    → budget < int_max
    → All (λ b. (0 < b.1) × (b.1 < int_max)) (budgets budget peers)
unfolding budgets
budgets-range budget [] fits = tt
budgets-range budget (p ∷ ps) fits =
    let both = budgets-Even budget (p ∷ ps) fits (omega arith) in
    parts-range (budgets budget (p ∷ ps))
      (All-mono (λ b. (0 < b.1) × Even (budget / length (p ∷ ps)) b) (λ b. 0 < b.1)
        (budgets budget (p ∷ ps)) (λ b h. h.0) both.1)
      (omega (arith, both.0))
