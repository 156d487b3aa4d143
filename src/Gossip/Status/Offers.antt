-- ===== src/Gossip/Status/Offers.antt =====
-- Properties of what a peer offers after a status packet of another.
use peerster.Base.{
  All, All-append, Bool-cases, Bytes, Bytes-discrete, List, Map, Option-cases, [], arith, false,
  inl, inr, length, load, ltb, refl, true, ℕ, ◌+◌, ◌<◌, ◌==◌, ◌∙◌, ◌∷◌, ◌≡◌, ◌⊎◌,
}
use peerster.Dto.Packet.{PeerStatus, RumorMessage}
use peerster.Dto.Hops.{u32_mod}
use peerster.Dto.Messages.{
  SafeMessagesMap, add_messages, get_own_status_packet, new_safe_messages_map,
}
use peerster.Dto.Messages.Status.{IsTrue, has_message, own_status-IsTrue}
use peerster.Gossip.Status.{difference_loop, peer_status_difference, want_map, wanted_of}

-- The message can be had, or it is message 1 of an origin of which nothing is known, or the other
-- peer asked for a message 0.
abbrev pub CanSend : SafeMessagesMap → PeerStatus → Type 0
CanSend scm r =
    (has_message r.identifier r.next_id scm ≡ true)
    ⊎ (((r.next_id ≡ 1) × (has_message r.identifier 1 scm ≡ false)) ⊎ (r.next_id ≡ 0))

wanted_of-CanSend :
    (wants : Map Bytes ℕ) (scm : SafeMessagesMap) (ps : PeerStatus)
    → IsTrue scm ps
    → All (CanSend scm) (wanted_of wants ps)
wanted_of-CanSend wants scm ps t = elim (Option-cases (load Bytes-discrete ps.identifier wants)) [
  | inl e ↦
      rw (e, wanted_of)
        (
          elim (Bool-cases (ltb 1 ps.next_id)) [
            | inl more ↦ inl (t 1 ∙ ground arith)
            | inr none_known ↦ inr (inl (refl, t 1 ∙ ground arith))
          ],
          tt,
        )
  | inr (w, e) ↦
      rw (e, wanted_of)
        (elim (Bool-cases (ltb w ps.next_id)) [
          | inl behind ↦ rw behind (
            elim (Bool-cases (w == 0)) [
              | inl none_asked ↦ inr (inr (ground arith))
              | inr some_asked ↦ inl (t w ∙ ground arith)
            ],
            tt,
          )
          | inr done ↦ rw done tt
        ])
]

difference_loop-CanSend :
    (wants : Map Bytes ℕ) (scm : SafeMessagesMap) (have : List PeerStatus)
    → All (IsTrue scm) have
    → All (CanSend scm) (difference_loop wants have)
unfolding difference_loop
difference_loop-CanSend wants scm [] h = tt
difference_loop-CanSend wants scm (ps ∷ have) h =
    All-append (CanSend scm) (wanted_of wants ps) (difference_loop wants have)
      (wanted_of-CanSend wants scm ps h.0) (difference_loop-CanSend wants scm have h.1)

-- Whatever another peer's status asks for, after any run of fewer than 2^32 - 1 received messages with
-- numbers that are uint32: each message offered to it can be had, except for message 1 of an origin of
-- which no message is known, and for a message 0, which only that status can ask for.
pub offers-CanSend :
    (msgs : List RumorMessage) (want : List PeerStatus)
    → length msgs + 1 < u32_mod
    → All (λ msg. msg.id < u32_mod) msgs
    → let scm = add_messages msgs new_safe_messages_map in
      All (CanSend scm) (peer_status_difference (get_own_status_packet scm).want want)
unfolding peer_status_difference
offers-CanSend msgs want small fits =
    let scm = add_messages msgs new_safe_messages_map in
    difference_loop-CanSend (want_map want) scm (get_own_status_packet scm).want
      (own_status-IsTrue msgs small fits)
