-- ===== src/Search/Requests.antt =====
-- gossiper/fileSearching.go: requests of searches, their budget, and the answers. A time is a number
-- of nanoseconds.
pub mod Split
pub mod Flood
use peerster.Base.{
  Bool, Bytes, List, Option, [], false, if◌then◌else◌, keep, length, ltb, map, none, some, ℕ, ◌%◌,
  ◌&&◌, ◌++◌, ◌+◌, ◌-◌, ◌/◌, ◌==◌, ◌^◌, ◌||◌, ◌∷◌,
}
use peerster.Dto.Packet.{Outcome, SearchReply, SearchRequest, SearchResult, deref, ok, ◌>>=◌}
use peerster.Dto.Getters.{
  PacketAddressPair, get_budget, get_keywords, get_origin, get_sender_address,
}
use peerster.Files.Entries.{get_matches}
use peerster.Files.Sharing.{Sharer, default_hop_limit}
use peerster.Gossip.Status.{string_array_difference}
use peerster.Gossip.Node.{Gossiper, Send, add_to_peers, bytes_eq, forward, no_packet}

unfoldable pub make_search_request : ℕ → List Bytes → Sharer → SearchRequest
make_search_request budget keywords s = record {
  origin = s.gossip.name;
  budget = budget;
  keywords = keywords;
}

unfoldable pub make_search_reply : Bytes → List SearchResult → Sharer → SearchReply
make_search_reply destination sress s = record {
  origin = s.gossip.name;
  destination = destination;
  hop_limit = default_hop_limit;
  results = sress;
}

-- The budget of each peer in turn; 0 is not sent.
unfoldable pub split : ℕ → ℕ → List Bytes → List (Bytes × ℕ)
split eq_split remainder [] = []
split eq_split remainder (peer ∷ peers) =
    (peer, if ltb 0 remainder then eq_split + 1 else eq_split)
    ∷ split eq_split (remainder - 1) peers

-- A uint64 that is converted to int is negative from 2^63 on. Division of a negative int goes towards
-- 0, so no budget is then above 0.
abbrev pub int_max : ℕ
int_max = 2 ^ 63

unfoldable pub budgets : ℕ → List Bytes → List (Bytes × ℕ)
unfolding split
budgets budget [] = []
budgets budget (peer ∷ peers) =
    if ltb budget int_max
    then keep (λ b. ltb 0 b.1)
        (split (budget / length (peer ∷ peers)) (budget % length (peer ∷ peers)) (peer ∷ peers))
    else []

-- `forwardSearchRequest`. The one request is changed in place before each send, which encodes it.
unfoldable pub forward_search_request : SearchRequest → Bytes → Gossiper → List Send
unfolding budgets
forward_search_request sreq recent_sender g =
    let peers = string_array_difference g.peers.array (sreq.origin ∷ recent_sender ∷ []) in
    map (λ b. (record no_packet { search_request = some (record sreq { budget = b.1 }) }, b.0))
      (budgets sreq.budget peers)

unfoldable pub answer_search_request : Bytes → List Bytes → Sharer → Sharer × Option SearchReply
unfolding make_search_reply
answer_search_request origin keywords s =
    let (files, sress) = get_matches keywords s.file_map in
    let s' = record s { file_map = files } in
    (s', if ltb 0 (length sress) then some (make_search_reply origin sress s) else none)

pub record SearchRequestTimedId : Type 0 where
  pub time : ℕ
  pub origin : Bytes
  pub keywords : List Bytes

abbrev pub half_second : ℕ
half_second = 500000000

abbrev pub same_keywords : List Bytes → List Bytes → Bool
same_keywords first second =
    length (string_array_difference first second) == 0
    && length (string_array_difference second first) == 0

-- The range over the recent requests: those that are kept, and whether one is the same.
unfoldable pub check_repeats :
    ℕ → Bytes → List Bytes → List SearchRequestTimedId → List SearchRequestTimedId × Bool
check_repeats current origin keywords [] = ([], false)
check_repeats current origin keywords (srt_id ∷ timed_ids) =
    let (kept, ignore) = check_repeats current origin keywords timed_ids in
    if ltb half_second (current - srt_id.time) then (kept, ignore) else (
      srt_id ∷ kept,
      bytes_eq srt_id.origin origin && same_keywords srt_id.keywords keywords || ignore,
    )

-- `budget--` on a uint64.
unfoldable pub dec64 : ℕ → ℕ
dec64 b = (b + 2 ^ 64 - 1) % 2 ^ 64

pub record SearchRound : Type 0 where
  pub after : Sharer
  pub timed_ids : List SearchRequestTimedId
  pub sends : List Send

-- `searchRequestListenRoutine`
unfoldable pub search_request_listen :
    PacketAddressPair → ℕ → List SearchRequestTimedId → Sharer → Outcome SearchRound
unfolding check_repeats forward_search_request answer_search_request dec64
search_request_listen pap current timed_ids s = do
  sender ← get_sender_address pap
  let s1 = record s { gossip = (add_to_peers sender s.gossip).0 }
  origin ← get_origin pap.packet
  keywords ← get_keywords pap.packet
  budget ← get_budget pap.packet
  let r = check_repeats current origin keywords timed_ids
  if r.1 then ok (record { after = s1; timed_ids = r.0; sends = [] }) else (do
    let srt_id : SearchRequestTimedId = record {
      time = current;
      origin = origin;
      keywords = keywords;
    }
    let (s2, srep) = answer_search_request origin keywords s1
    replies ← elim srep [
      | none ↦ ok []
      | some reply ↦ do
        (_, sends) ← forward (record no_packet { search_reply = some reply }) s2.gossip
        ok sends
    ]
    sreq ← deref pap.packet.search_request (λ m. m)
    let sreq' = record sreq { budget = dec64 sreq.budget }
    ok (record {
      after = s2;
      timed_ids = srt_id ∷ r.0;
      sends = replies ++ forward_search_request sreq' sender s2.gossip;
    }))
