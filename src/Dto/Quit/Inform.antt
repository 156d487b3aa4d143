-- ===== src/Dto/Quit/Inform.antt =====
-- Properties of the senders that a status packet stops.
use peerster.Base.{
  Bool, Bytes, Bytes-discrete, List, Option, Option-cases, [], arith, delete, false, if◌then◌else◌,
  inl, inr, is_yes, load, load-delete, load-store, load_or_store, ltb, none, present, refl, some,
  store, true, ℕ, ℕ_discrete, ◌&&◌, ◌++◌, ◌||◌, ◌∷◌, ◌≡◌,
}
use peerster.Dto.Packet.{PeerStatus, StatusPacket}
use peerster.Dto.Quit.{
  OriginChans, PeerChans, QuitChanMap, Told, inform_listeners, inform_loop, quit_range,
}

pub quit_range-load :
    (next_id j : ℕ) (es om : OriginChans) (told : Told)
    → load ℕ_discrete j (quit_range next_id es om told).0
      ≡ (if ltb j next_id && present ℕ_discrete j es then none else load ℕ_discrete j om)
unfolding quit_range load
quit_range-load next_id j [] om told = ground arith
quit_range-load next_id j ((id, quit) ∷ es) om told =
    let om' = if ltb id next_id then delete ℕ_discrete id om else om in
    let told' =
      if ltb id next_id
      then record told { closed = told.closed ++ quit ∷ [] }
      else record told { all_stopped = false } in
    ground (arith, quit_range-load next_id j es om' told', load-delete ℕ_discrete id j om)

-- The channel of a sender, if it is registered.
abbrev pub chan_of : Bytes → ℕ → PeerChans → Option ℕ
chan_of origin id pm = elim (load Bytes-discrete origin pm) [
  | none ↦ none
  | some om ↦ load ℕ_discrete id om
]

-- The channel of a sender to a peer.
abbrev pub sender : Bytes → Bytes → ℕ → QuitChanMap → Option ℕ
sender peer origin id scm = elim (load Bytes-discrete peer scm.peers_map) [
  | none ↦ none
  | some pm ↦ chan_of origin id pm
]

load-nil : (id : ℕ) → load {V = ℕ} ℕ_discrete id [] ≡ none
unfolding load
load-nil id = refl

chan_of-nil : (origin : Bytes) (id : ℕ) → chan_of origin id [] ≡ none
unfolding load
chan_of-nil origin id = refl

-- The status says that the peer has the message.
unfoldable pub acknowledged : Bytes → ℕ → List PeerStatus → Bool
acknowledged origin id [] = false
acknowledged origin id (v ∷ want) =
    (is_yes (Bytes-discrete v.identifier origin) && ltb id v.next_id) || acknowledged origin id want

-- One status of the packet: it stops the senders of its origin below its number.
inform_step-chan_of :
    (origin : Bytes) (id : ℕ) (v : PeerStatus) (pm : PeerChans) (told : Told)
    → let r = load_or_store Bytes-discrete v.identifier [] pm in
      chan_of origin id
        (store Bytes-discrete v.identifier (quit_range v.next_id r.0 r.0 told).0 r.2)
      ≡ (if is_yes (Bytes-discrete v.identifier origin) && ltb id v.next_id
          then none
          else chan_of origin id pm)
unfolding load_or_store
inform_step-chan_of origin id v pm told =
    elim (Option-cases (load Bytes-discrete v.identifier pm)) [
      | inl e ↦
          let om' = (quit_range v.next_id [] [] told).0 in
          let pm' = store Bytes-discrete v.identifier [] pm in
          rw (e, load_or_store)
            (ground (
              arith,
              e,
              load-store Bytes-discrete v.identifier origin om' pm',
              load-store Bytes-discrete v.identifier origin [] pm,
              quit_range-load v.next_id id [] [] told,
              load-nil id,
            ))
      | inr (om, e) ↦
          let om' = (quit_range v.next_id om om told).0 in
          rw (e, load_or_store)
            (ground (
              arith,
              e,
              load-store Bytes-discrete v.identifier origin om' pm,
              quit_range-load v.next_id id om om told,
            ))
    ]

pub inform_loop-chan_of :
    (origin : Bytes) (id : ℕ) (want : List PeerStatus) (pm : PeerChans) (told : Told)
    → chan_of origin id (inform_loop want pm told).0
      ≡ (if acknowledged origin id want then none else chan_of origin id pm)
unfolding inform_loop acknowledged
inform_loop-chan_of origin id [] pm told = refl
inform_loop-chan_of origin id (v ∷ want) pm told =
    let r = load_or_store Bytes-discrete v.identifier [] pm in
    let q = quit_range v.next_id r.0 r.0 told in
    let pm' = store Bytes-discrete v.identifier q.0 r.2 in
    ground
      (arith, inform_loop-chan_of origin id want pm' q.1, inform_step-chan_of origin id v pm told)

-- After a status packet of a peer, a sender to that peer is registered exactly if it was and the
-- packet does not acknowledge its message; the senders to other peers stay as they were.
pub inform_listeners-chan_of :
    (peer other origin : Bytes) (id : ℕ) (sp : StatusPacket) (scm : QuitChanMap)
    → let after = (inform_listeners peer sp scm).0 in
      sender other origin id after ≡ (
        if is_yes (Bytes-discrete peer other) && acknowledged origin id sp.want
        then none
        else sender other origin id scm)
unfolding inform_listeners load_or_store
inform_listeners-chan_of peer other origin id sp scm =
    let none_told : Told = record { closed = []; all_stopped = true } in
    elim (Option-cases (load Bytes-discrete peer scm.peers_map)) [
      | inl e ↦
          let pm' = (inform_loop sp.want [] none_told).0 in
          let m = store Bytes-discrete peer [] scm.peers_map in
          rw (e, load_or_store, inform_listeners)
            (ground (
              arith,
              e,
              load-store Bytes-discrete peer other pm' m,
              load-store Bytes-discrete peer other [] scm.peers_map,
              inform_loop-chan_of origin id sp.want [] none_told,
              chan_of-nil origin id,
            ))
      | inr (pm, e) ↦
          let pm' = (inform_loop sp.want pm none_told).0 in
          rw (e, load_or_store, inform_listeners)
            (ground (
              arith,
              e,
              load-store Bytes-discrete peer other pm' scm.peers_map,
              inform_loop-chan_of origin id sp.want pm none_told,
            ))
    ]
