-- ===== src/Search/Client.antt =====
-- gossiper/fileSearching.go: `searchFilesMatching`, a search that a client asks for.
pub mod Budgets
use peerster.Base.{
  Bool, Bytes, List, Map, [], false, if◌then◌else◌, keep, leb, length, ltb, true, ℕ, ◌%◌, ◌*◌, ◌++◌,
  ◌==◌, ◌^◌, ◌∷◌,
}
use peerster.Dto.Packet.{SearchRequest}
use peerster.Dto.Arrays.{SafeStringArray}
use peerster.Gossip.Node.{Send}
use peerster.Search.Owners.{get_owners}
use peerster.Search.Filenames.{get_matches}
use peerster.Search.Searches.{add_listener_with_files, remove_listener, threshold_total_matches}
use peerster.Search.Requests.{forward_search_request}
use peerster.Search.Replies.{Searcher}

-- What the routine waits for: its channel, the ticker that raises the budget, or the end of the time.
pub data SearchEvent : Type 0 where
  found : Map Bytes SafeStringArray → SearchEvent
  tick expired : SearchEvent

-- `searching` if the events given end before the search does; otherwise `files` and `ok`.
pub data SearchEnd : Type 0 where
  searching : SearchEnd
  returned : Map Bytes SafeStringArray → Bool → SearchEnd

-- The state, the budgets with which the request is forwarded, what is sent, and how it ends.
pub record SearchRun : Type 0 where
  pub after : Searcher
  pub asked : List ℕ
  pub sends : List Send
  pub result : SearchEnd

-- One forward before the rest of the run.
abbrev pub and_then : ℕ → List Send → SearchRun → SearchRun
and_then budget sends r = record r { asked = budget ∷ r.asked; sends = sends ++ r.sends }

abbrev pub maximum_budget : ℕ
maximum_budget = 32

-- The select loop. Each event comes with the state that the routine then finds. A ticker that is
-- stopped gives no more ticks; a tick would change nothing.
unfoldable pub search_loop :
    SearchRequest → ℕ → ℕ → List (Searcher × SearchEvent) → Searcher → SearchRun
search_loop sreq initial budget [] w = record {
  after = w;
  asked = [];
  sends = [];
  result = searching;
}
search_loop sreq initial budget ((w, found files) ∷ events) _ = record {
  after = w;
  asked = [];
  sends = [];
  result = returned files true;
}
search_loop sreq initial budget ((w, expired) ∷ events) _ = record {
  after = record w { search_map = remove_listener sreq.keywords w.search_map };
  asked = [];
  sends = [];
  result = returned [] false;
}
search_loop sreq initial budget ((w, tick) ∷ events) _ =
    let raised = (budget * 2) % 2 ^ 64 in
    elim (initial == 0) [
      | false ↦ search_loop sreq initial budget events w
      | true ↦ elim (leb 32 budget) [
        | true ↦ search_loop sreq initial budget events w
        | false ↦
            and_then raised (forward_search_request (record sreq { budget = raised }) [] w.gossip)
              (search_loop sreq initial raised events w)
      ]
    ]

-- The known files that match, without those that lack a chunk.
unfoldable pub known_matches : List Bytes → Searcher → Map Bytes SafeStringArray
known_matches keywords w =
    keep (λ e. (get_owners e.0 w.metahash_to_chunk_owners_map).1)
      (get_matches keywords w.filenames_map)

-- With enough known files the last `return` leaves `ok` false.
unfoldable pub search_files_matching :
    List Bytes → ℕ → ℕ → List (Searcher × SearchEvent) → Searcher → SearchRun
unfolding search_loop known_matches
search_files_matching keywords initial_budget c_files events w =
    let files = known_matches keywords w in
    let (searches, is_new) = add_listener_with_files keywords files c_files w.search_map in
    let w' = record w { search_map = searches } in
    let budget = if initial_budget == 0 then 2 else initial_budget in
    let sreq : SearchRequest = record {
      origin = w.gossip.name;
      budget = budget;
      keywords = keywords;
    } in
    if ltb (length files) threshold_total_matches
    then (if is_new
        then and_then budget (forward_search_request sreq [] w.gossip)
            (search_loop sreq initial_budget budget events w')
        else record { after = w'; asked = []; sends = []; result = returned [] false })
    else record { after = w; asked = []; sends = []; result = returned files false }
