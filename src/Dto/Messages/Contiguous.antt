-- ===== src/Dto/Messages/Contiguous.antt =====
-- Properties of the numbers of the messages known of one origin.
use peerster.Base.{
  Bool-cases, [], arith, false, if◌then◌else◌, inl, inr, leb, load, load-store, load_or_store, ltb,
  present, refl, store, suc, true, ℕ, ℕ_discrete, ◌%◌, ◌&&◌, ◌+◌, ◌-◌, ◌<◌, ◌==◌, ◌∷◌, ◌≡◌, ◌≤◌,
  ◌⊎◌,
}
use peerster.Dto.Packet.{RumorMessage}
use peerster.Dto.Hops.{dec32, u32_mod}
use peerster.Dto.Messages.{MessageMap, add_to_origin, max_id}

-- Exactly the numbers from 1 to `n` are there.
abbrev pub Contiguous : ℕ → MessageMap → Type 0
Contiguous n pm = (id : ℕ) → present ℕ_discrete id pm ≡ (ltb 0 id && leb id n)

max_id-ge : (max : ℕ) (pm : MessageMap) → max ≤ max_id max pm
unfolding max_id
max_id-ge max [] = omega arith
max_id-ge max ((id, rm) ∷ pm) = ground (arith, max_id-ge (if ltb max id then id else max) pm)

present-le-max_id :
    (max id : ℕ) (pm : MessageMap) → present ℕ_discrete id pm ≡ true → id ≤ max_id max pm
unfolding max_id load
present-le-max_id max id [] h = absurd (ground arith)
present-le-max_id max id ((j, rm) ∷ pm) h =
    let next = if ltb max j then j else max in
    ground (arith, max_id-ge next pm, present-le-max_id next id pm)

-- The maximum is the start value, or the number of a message that is there.
max_id_cases :
    (max : ℕ) (pm : MessageMap)
    → (max_id max pm ≡ max) ⊎ (present ℕ_discrete (max_id max pm) pm ≡ true)
unfolding max_id load
max_id_cases max [] = inl refl
max_id_cases max ((j, rm) ∷ pm) =
    let next = if ltb max j then j else max in ground (arith, max_id_cases next pm)

pub max_id-Contiguous : (n : ℕ) (pm : MessageMap) → Contiguous n pm → max_id 0 pm ≡ n
max_id-Contiguous n pm c =
    ground (arith, max_id_cases 0 pm, c (max_id 0 pm), c n, present-le-max_id 0 n pm)

-- Storing the next number keeps the numbers without a gap.
store-Contiguous :
    (msg : RumorMessage) (n : ℕ) (pm : MessageMap)
    → Contiguous n pm
    → msg.id ≡ suc n
    → Contiguous (suc n) (store ℕ_discrete msg.id msg pm)
store-Contiguous msg n pm c e id = ground (arith, load-store ℕ_discrete msg.id id msg pm, c id)

-- `add_to_origin` takes the number after the last one and changes the map for no other.
add_to_origin-next :
    (msg : RumorMessage) (n : ℕ) (pm : MessageMap)
    → Contiguous n pm
    → n + 1 < u32_mod
    → msg.id < u32_mod
    → add_to_origin msg pm
      ≡ (if msg.id == suc n then (store ℕ_discrete msg.id msg pm, true) else (pm, false))
unfolding add_to_origin load_or_store dec32
add_to_origin-next msg n pm c small fits =
    ground (arith, c msg.id, c ((msg.id + u32_mod - 1) % u32_mod))

pub add_to_origin-Contiguous :
    (msg : RumorMessage) (n : ℕ) (pm : MessageMap)
    → Contiguous n pm
    → n + 1 < u32_mod
    → msg.id < u32_mod
    → Contiguous (if msg.id == suc n then suc n else n) (add_to_origin msg pm).0
add_to_origin-Contiguous msg n pm c small fits =
    rw (add_to_origin-next msg n pm c small fits) (elim (Bool-cases (msg.id == suc n)) [
      | inl e ↦ rw e (store-Contiguous msg n pm c (ground arith))
      | inr e ↦ rw e c
    ])
