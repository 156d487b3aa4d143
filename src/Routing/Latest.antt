-- ===== src/Routing/Latest.antt =====
-- Properties of the routing table after any sequence of messages, against an independent
-- description.
use peerster.Base.{
  Bytes, Bytes-discrete, List, Option, Option-cases, [], ap, arith, if◌then◌else◌, inl, inr, ite,
  load, load-store, load_or_store, ltb, none, refl, some, ℕ, ◌∙◌, ◌∷◌, ◌≡◌,
}
use peerster.Routing.{
  SafeRoutingTable, SafeRoutingTableEntry, get_next_hop, new_safe_routing_table, update_entry,
}

-- One routed message: its number, its origin, and the address that it came from.
pub record Heard : Type 0 where
  pub seq_id : ℕ
  pub origin : Bytes
  pub sender : Bytes

unfoldable pub hear : List Heard → SafeRoutingTable → SafeRoutingTable
hear [] srt = srt
hear (m ∷ ms) srt = hear ms (update_entry m.seq_id m.origin m.sender srt).0

-- The specification: the best entry so far of one origin, after some messages.
abbrev pub newer : Heard → Option SafeRoutingTableEntry → Option SafeRoutingTableEntry
newer m none = some (record { seq_num = m.seq_id; address = m.sender })
newer m (some e) =
    if ltb e.seq_num m.seq_id
    then some (record { seq_num = m.seq_id; address = m.sender })
    else some e

unfoldable pub newest :
    Bytes → List Heard → Option SafeRoutingTableEntry → Option SafeRoutingTableEntry
newest origin [] best = best
newest origin (m ∷ ms) best =
    newest origin ms (ite (Bytes-discrete m.origin origin) (newer m best) best)

-- One update: the entry of the message's origin becomes the newer one, and every other stays.
update_entry-newer :
    (m : Heard) (origin : Bytes) (srt : SafeRoutingTable)
    → load Bytes-discrete origin (update_entry m.seq_id m.origin m.sender srt).0.origins_map
      ≡ ite
          (Bytes-discrete m.origin origin)
          (newer m (load Bytes-discrete origin srt.origins_map))
          (load Bytes-discrete origin srt.origins_map)
unfolding update_entry load_or_store
update_entry-newer m origin srt =
    let fresh : SafeRoutingTableEntry = record { seq_num = m.seq_id; address = m.sender } in
    let m' = srt.origins_map in
    elim (Option-cases (load Bytes-discrete m.origin m')) [
      | inl e ↦
          rw (e, load_or_store, update_entry)
            (ground (arith, e, load-store Bytes-discrete m.origin origin fresh m'))
      | inr (old, e) ↦
          rw (e, load_or_store, update_entry)
            (ground (
              arith,
              e,
              load-store Bytes-discrete m.origin origin fresh m',
              load-store Bytes-discrete m.origin origin old m',
            ))
    ]

hear-newest :
    (ms : List Heard) (origin : Bytes) (srt : SafeRoutingTable)
    → load Bytes-discrete origin (hear ms srt).origins_map
      ≡ newest origin ms (load Bytes-discrete origin srt.origins_map)
unfolding hear newest
hear-newest [] origin srt = refl
hear-newest (m ∷ ms) origin srt =
    hear-newest ms origin (update_entry m.seq_id m.origin m.sender srt).0
    ∙ ap (newest origin ms) (update_entry-newer m origin srt)

-- After any messages the next hop to an origin is the sender of the newest message of that origin
-- (the first of those with the highest number), and there is none if nothing came from it.
pub next_hop-newest :
    (ms : List Heard) (origin : Bytes)
    → get_next_hop origin (hear ms new_safe_routing_table)
      ≡ elim (newest origin ms none) [ none ↦ none | some e ↦ some e.address ]
unfolding get_next_hop load
next_hop-newest ms origin = rw (get_next_hop, hear-newest ms origin new_safe_routing_table)
