-- ===== src/Dto/Counter.antt =====
-- dto/SafeCounter.go: the sequence numbers of a peer. Each method runs under the mutex, so a run is
-- a sequence of calls.
use peerster.Base.{
  List, [], ap, arith, if◌then◌else◌, ltb, refl, suc, zero, ℕ, ◌%◌, ◌+◌, ◌<◌, ◌∙◌, ◌∷◌, ◌≡◌, ◌≤◌,
}
use peerster.Dto.Hops.{u32_mod}

pub record SafeCounter : Type 0 where
  pub v : ℕ

unfoldable pub new_safe_counter : SafeCounter
new_safe_counter = record { v = 1 }

unfoldable pub get_and_increment : SafeCounter → SafeCounter × ℕ
get_and_increment sc = (record sc { v = (sc.v + 1) % u32_mod }, sc.v)

unfoldable pub swap_if_less : SafeCounter → ℕ → SafeCounter
swap_if_less sc new = if ltb sc.v new then record sc { v = new } else sc

-- The numbers that `n` calls in a row hand out.
unfoldable pub issue : ℕ → SafeCounter → List ℕ
issue zero sc = []
issue (suc n) sc = let (sc', id) = get_and_increment sc in id ∷ issue n sc'

-- The numbers `from`, `from + 1`, …
abbrev pub count_up : ℕ → ℕ → List ℕ
count_up zero from = []
count_up (suc n) from = from ∷ count_up n (suc from)

issue-count_up : (n : ℕ) (sc : SafeCounter) → sc.v + n ≤ u32_mod → issue n sc ≡ count_up n sc.v
unfolding issue get_and_increment
issue-count_up zero sc h = refl
issue-count_up (suc zero) sc h = refl
issue-count_up (suc (suc n)) sc h =
    let e : (sc.v + 1) % u32_mod ≡ suc sc.v = omega arith in
    ap (◌∷◌ sc.v) (
      issue-count_up (suc n) (record { v = (sc.v + 1) % u32_mod }) (omega arith)
      ∙ ap (count_up (suc n)) e)

-- The first 2^32 - 1 numbers that a new counter hands out are 1, 2, 3, … without a gap or a repeat.
issue-new : (n : ℕ) → n < u32_mod → issue n new_safe_counter ≡ count_up n 1
unfolding new_safe_counter
issue-new n h = issue-count_up n new_safe_counter (omega arith)

-- `SwapIfLess` never lowers the counter, and the counter is then at least the number given.
swap_if_less-ge :
    (sc : SafeCounter) (new : ℕ)
    → (sc.v ≤ (swap_if_less sc new).v) × (new ≤ (swap_if_less sc new).v)
unfolding swap_if_less
swap_if_less-ge sc new = ground arith
