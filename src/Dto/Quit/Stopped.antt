-- ===== src/Dto/Quit/Stopped.antt =====
-- Properties of the `allStopped` result of `InformListeners`.
use peerster.Base.{
  All, All-mono, Bytes, Bytes-discrete, List, [], arith, delete, false, if◌then◌else◌, load,
  load-store_self, load_or_store, ltb, none, present, store, true, ℕ, ℕ_discrete, ◌++◌, ◌<◌, ◌∷◌,
  ◌≡◌,
}
use peerster.Dto.Packet.{PeerStatus, StatusPacket}
use peerster.Dto.Quit.{
  OriginChans, PeerChans, QuitChanMap, Told, inform_listeners, inform_loop, quit_range,
}
use peerster.Dto.Quit.Inform.{chan_of, inform_loop-chan_of, quit_range-load, sender}

quit_range-all_stopped :
    (next_id j : ℕ) (es om : OriginChans) (told : Told)
    → (quit_range next_id es om told).1.all_stopped ≡ true
    → (told.all_stopped ≡ true) × (present ℕ_discrete j es ≡ true → j < next_id)
unfolding quit_range load
quit_range-all_stopped next_id j [] om told h = (h, λ e. absurd (ground arith))
quit_range-all_stopped next_id j ((id, quit) ∷ es) om told h =
    let om' = if ltb id next_id then delete ℕ_discrete id om else om in
    let told' =
      if ltb id next_id
      then record told { closed = told.closed ++ quit ∷ [] }
      else record told { all_stopped = false } in
    let rest = quit_range-all_stopped next_id j es om' told' h in
    (ground (arith, rest.0), λ e. ground (arith, rest.0, rest.1))

-- The visit of one status, if nobody was left sending.
step-all_stopped :
    (v : PeerStatus) (pm : PeerChans) (told : Told) (id : ℕ)
    → let r = load_or_store Bytes-discrete v.identifier [] pm in
      let q = quit_range v.next_id r.0 r.0 told in
      q.1.all_stopped ≡ true
      → (told.all_stopped ≡ true)
        × (chan_of v.identifier id (store Bytes-discrete v.identifier q.0 r.2) ≡ none)
step-all_stopped v pm told id h =
    let r = load_or_store Bytes-discrete v.identifier [] pm in
    let q = quit_range v.next_id r.0 r.0 told in
    let all = quit_range-all_stopped v.next_id id r.0 r.0 told h in
    (
      all.0,
      ground (
        arith,
        all.1,
        load-store_self Bytes-discrete v.identifier q.0 r.2,
        quit_range-load v.next_id id r.0 r.0 told,
      ),
    )

inform_loop-all_stopped :
    (want : List PeerStatus) (pm : PeerChans) (told : Told)
    → (inform_loop want pm told).1.all_stopped ≡ true
    → (told.all_stopped ≡ true)
      × All (λ v. (id : ℕ) → chan_of v.identifier id (inform_loop want pm told).0 ≡ none) want
unfolding inform_loop
inform_loop-all_stopped [] pm told h = (h, tt)
inform_loop-all_stopped (v ∷ want) pm told h =
    let r = load_or_store Bytes-discrete v.identifier [] pm in
    let q = quit_range v.next_id r.0 r.0 told in
    let pm' = store Bytes-discrete v.identifier q.0 r.2 in
    let rest = inform_loop-all_stopped want pm' q.1 h in
    (
      (step-all_stopped v pm told 0 rest.0).0,
      (
        λ id. ground (
          arith,
          (step-all_stopped v pm told id rest.0).1,
          inform_loop-chan_of v.identifier id want pm' q.1,
        ),
        rest.1,
      ),
    )

-- If a status packet leaves `allStopped` true, no sender to that peer is left for any origin that
-- the packet names.
all_stopped-honest :
    (peer : Bytes) (sp : StatusPacket) (scm : QuitChanMap)
    → (inform_listeners peer sp scm).1.all_stopped ≡ true
    → All
        (λ v. (id : ℕ) → sender peer v.identifier id (inform_listeners peer sp scm).0 ≡ none)
        sp.want
unfolding inform_listeners
all_stopped-honest peer sp scm h =
    let r = load_or_store Bytes-discrete peer [] scm.peers_map in
    let start : Told = record { closed = []; all_stopped = true } in
    let pm' = (inform_loop sp.want r.0 start).0 in
    All-mono (λ v. (id : ℕ) → chan_of v.identifier id pm' ≡ none)
      (λ v. (id : ℕ) → sender peer v.identifier id (inform_listeners peer sp scm).0 ≡ none) sp.want
      (λ v f id. ground (arith, f id, load-store_self Bytes-discrete peer pm' r.2))
      (inform_loop-all_stopped sp.want r.0 start h).1
