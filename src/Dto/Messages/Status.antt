-- ===== src/Dto/Messages/Status.antt =====
-- Properties of the status packet after any sequence of messages.
use peerster.Base.{
  All, All-both, All-load, All-map, All-mono, All-self, All-store, Bool, Bytes, Bytes-discrete,
  DistinctKeys, List, Map, Option-cases, [], arith, false, if◌then◌else◌, inl, inr, length, load,
  load_or_store, ltb, none, some, store, store-DistinctKeys, subst, suc, true, ℕ, ◌&&◌, ◌+◌, ◌<◌,
  ◌==◌, ◌∷◌, ◌≡◌, ◌≤◌,
}
use peerster.Dto.Packet.{PeerStatus, RumorMessage}
use peerster.Dto.Hops.{u32_mod}
use peerster.Dto.Messages.{
  MessageMap, SafeMessagesMap, add_message, add_messages, add_to_origin, get_message,
  get_own_status_packet, new_safe_messages_map, origin_status,
}
use peerster.Dto.Messages.Contiguous.{Contiguous, add_to_origin-Contiguous, max_id-Contiguous}

-- The messages of an entry have no gap, and there are at most `k` of them.
abbrev Entry : ℕ → Bytes × MessageMap → Type 0
Entry k e = (n : ℕ) × (n ≤ k) × Contiguous n e.1

record Known (k : ℕ) (m : Map Bytes MessageMap) : Type 0 where
  distinct : DistinctKeys Bytes-discrete m
  entries : All (Entry k) m

Entry-mono : (k : ℕ) (e : Bytes × MessageMap) → Entry k e → Entry (suc k) e
Entry-mono k e h = (h.0, omega arith, h.2)

store-Known :
    (k : ℕ) (origin : Bytes) (pm : MessageMap) (m : Map Bytes MessageMap)
    → Entry k (origin, pm)
    → Known k m
    → Known k (store Bytes-discrete origin pm m)
store-Known k origin pm m e h = record {
  distinct = store-DistinctKeys Bytes-discrete origin pm m h.distinct;
  entries = All-store Bytes-discrete (Entry k) origin pm m e h.entries;
}

-- The map of an origin that is not there is empty.
origin_Entry :
    (k : ℕ) (origin : Bytes) (m : Map Bytes MessageMap)
    → All (Entry k) m
    → Entry k (origin, (load_or_store Bytes-discrete origin [] m).0)
unfolding load_or_store load
origin_Entry k origin m h = elim (Option-cases (load Bytes-discrete origin m)) [
  | inl e ↦ rw (e, load_or_store) (0, omega arith, λ id. ground arith)
  | inr (pm, e) ↦ rw (e, load_or_store) (All-load Bytes-discrete (Entry k) origin pm m h e)
]

load_or_store-Known :
    (k : ℕ) (origin : Bytes) (m : Map Bytes MessageMap)
    → Known k m
    → Known k (load_or_store Bytes-discrete origin [] m).2
unfolding load_or_store load
load_or_store-Known k origin m h = elim (Option-cases (load Bytes-discrete origin m)) [
  | inl e ↦ rw (e, load_or_store) (store-Known k origin [] m (0, omega arith, λ id. ground arith) h)
  | inr (pm, e) ↦ rw (e, load_or_store) h
]

add_to_origin-Entry :
    (k : ℕ) (msg : RumorMessage) (pm : MessageMap)
    → k + 1 < u32_mod
    → msg.id < u32_mod
    → Entry k (msg.origin, pm)
    → Entry (suc k) (msg.origin, (add_to_origin msg pm).0)
add_to_origin-Entry k msg pm small fits e = (
  if msg.id == suc e.0 then suc e.0 else e.0,
  ground (arith, e.1),
  add_to_origin-Contiguous msg e.0 pm e.2 (omega (arith, e.1)) fits,
)

add_message-Known :
    (k : ℕ) (msg : RumorMessage) (scm : SafeMessagesMap)
    → k + 1 < u32_mod
    → msg.id < u32_mod
    → Known k scm.origins_map
    → Known (suc k) (add_message msg scm).0.origins_map
unfolding add_message
add_message-Known k msg scm small fits h =
    let m = scm.origins_map in
    let pm = (load_or_store Bytes-discrete msg.origin [] m).0 in
    let after = load_or_store-Known k msg.origin m h in
    store-Known (suc k) msg.origin (add_to_origin msg pm).0 _
      (add_to_origin-Entry k msg pm small fits (origin_Entry k msg.origin m h.entries))
      (record {
        distinct = after.distinct;
        entries = All-mono (Entry k) (Entry (suc k)) _ (Entry-mono k) after.entries;
      })

add_messages-Known :
    (k : ℕ) (msgs : List RumorMessage) (scm : SafeMessagesMap)
    → k + length msgs < u32_mod
    → All (λ msg. msg.id < u32_mod) msgs
    → Known k scm.origins_map
    → Known (k + length msgs) (add_messages msgs scm).origins_map
unfolding add_messages
add_messages-Known k [] scm small fits h = subst (λ n. Known n scm.origins_map) (omega arith) h
add_messages-Known k (msg ∷ msgs) scm small fits h =
    subst (λ n. Known n (add_messages msgs (add_message msg scm).0).origins_map) (omega arith)
      (add_messages-Known (suc k) msgs (add_message msg scm).0 (omega arith) fits.1
        (add_message-Known k msg scm (omega arith) fits.0 h))

-- Whether `get_message` finds a message.
abbrev pub has_message : Bytes → ℕ → SafeMessagesMap → Bool
has_message origin id scm = elim (get_message origin id scm).1 [ none ↦ false | some rm ↦ true ]

-- What a status says of an origin is true: the messages from 1 to `next_id` - 1 can be had, and no
-- other.
abbrev pub IsTrue : SafeMessagesMap → PeerStatus → Type 0
IsTrue scm ps = (id : ℕ) → has_message ps.identifier id scm ≡ (ltb 0 id && ltb id ps.next_id)

Entry-IsTrue :
    (k : ℕ) (scm : SafeMessagesMap)
    → k + 1 < u32_mod
    → (e : Bytes × MessageMap) → Entry k e × (load Bytes-discrete e.0 scm.origins_map ≡ some e.1)
    → IsTrue scm (origin_status e)
unfolding get_message load_or_store
Entry-IsTrue k scm small e (entry, found) id =
    ground (arith, found, entry.1, entry.2 id, max_id-Contiguous entry.0 e.1 entry.2)

-- After any run of fewer than 2^32 - 1 received messages, with numbers that are uint32, every
-- status in the own status packet is true: of its origin, exactly the messages from 1 up to below
-- `next_id` can be had.
pub own_status-IsTrue :
    (msgs : List RumorMessage)
    → length msgs + 1 < u32_mod
    → All (λ msg. msg.id < u32_mod) msgs
    → let scm = add_messages msgs new_safe_messages_map in
      All (IsTrue scm) (get_own_status_packet scm).want
unfolding get_own_status_packet
own_status-IsTrue msgs small fits =
    let scm = add_messages msgs new_safe_messages_map in
    let known =
      add_messages-Known 0 msgs new_safe_messages_map (omega arith) fits
        (record { distinct = tt; entries = tt }) in
    All-map (IsTrue scm) origin_status scm.origins_map (
      All-mono
        (λ e. Entry (0 + length msgs) e × (load Bytes-discrete e.0 scm.origins_map ≡ some e.1))
        (λ e. IsTrue scm (origin_status e)) scm.origins_map
        (Entry-IsTrue (0 + length msgs) scm (omega arith))
        (All-both (Entry (0 + length msgs))
          (λ e. load Bytes-discrete e.0 scm.origins_map ≡ some e.1) scm.origins_map known.entries
          (All-self Bytes-discrete scm.origins_map known.distinct)))
