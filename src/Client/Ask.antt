-- ===== src/Client/Ask.antt =====
-- `ColocarNaListaDePedidos`, `CriaRequest`, `FazPedidos` and `MontarListaPedidos` of src/client/client.cpp:
-- the requests that a client makes.
pub mod Expired
pub mod Sound
pub mod Sent
pub mod Round
use tvpp_dev_base.Base.{
  ℕ, ◌+◌, ◌%◌, ◌^◌, Bool, true, false, ◌&&◌, ◌||◌, not, ltb, leb, ◌==◌, if◌then◌else◌, Option, none,
  some, List, [], ◌∷◌, ◌++◌, length,
}
use tvpp_dev_base.Base.Int.{ℤ, pos, negsuc, pos_part, neg_part, sub_ℕ, leb_ℤ}
use tvpp_dev_base.ChunkUniqueId.{ChunkUniqueId, inc_id}
use tvpp_dev_base.Message.{set_integrity}
use tvpp_dev_base.Messages.{message_request}
use tvpp_dev_base.PeerData.{Peer, PeerData}
use tvpp_dev_base.PeerManager.{PeerManager, entry}
use tvpp_dev_base.MediaBuffer.{set_available}
use tvpp_dev_base.Request.{
  Request, make_request, search_peers, choose_peer, create_attempt, set_request_ttl,
  dec_request_ttl,
}
use tvpp_dev_base.Client.{Client, Outbox}
use tvpp_dev_base.Client.Data.{put_old_request, modify_peer}

-- The settings of the requests: `blockFreeRiders`, and what the chunk scheduler makes of the candidates.
pub record Asking : Type 0 where
  pub block_free_riders : Bool
  pub scheduler : List (ℕ × PeerData) → List (ℕ × PeerData)

-- The active partners of the in list with their entries. (An entry that is missing would be made by
-- `operator[]`; an active peer has one.)
abbrev pub partners_from : PeerManager → List ℕ → List (ℕ × PeerData)
partners_from p [] = []
partners_from p (k ∷ ks) = (k, entry (p.peer_list k)) ∷ partners_from p ks

abbrev pub active_partners : PeerManager → List (ℕ × PeerData)
active_partners p = partners_from p p.active_in

-- `CriaRequest`
unfoldable pub create_request : Asking → Client → Request
create_request a c =
    search_peers a.block_free_riders c.estimated_chunk_rate (make_request c.request_position)
      (active_partners c.peer_manager)

-- `ColocarNaListaDePedidos`: whether some partner can answer. The position is advanced before its slot
-- is marked.
unfoldable pub add_request : Asking → Client → Option (Bool × Client)
add_request a c =
    let r = create_request a c in
    let next = inc_id c.request_position in
    if ltb 0 (length r.peers)
    then elim (set_available c.media_buffer next.position false) [
      | none ↦ none
      | some b ↦ some (
        true,
        record c {
          request_list = c.request_list ++ r ∷ [];
          request_position = next;
          media_buffer = b;
        },
      )
    ]
    else some (false, c)

-- The test of `FazPedidos` on an expired request.
unfoldable pub gives_up : Client → Request → Bool
gives_up c r =
    is_minus_one c.max_request_attempt
      && (ltb c.player_buffer_duration 2000 && ltb 1 (length r.attempts))
    || leb_ℤ c.max_request_attempt (pos (length r.attempts))
  where
    is_minus_one : ℤ → Bool
    is_minus_one (pos n) = false
    is_minus_one (negsuc n) = n == 0

-- The first loop of `FazPedidos`: an expired request is given up or starts anew.
unfoldable pub clean_requests : Client → List Request → Client
clean_requests c [] = record c { request_list = [] }
clean_requests c (r ∷ rs) =
    let expired = leb_ℤ r.ttl (pos 0) in
    let renewed = set_request_ttl r (pos 500) in
    let dropping =
      clean_requests
        (record c {
          tries_per_request = c.tries_per_request ++ length r.attempts ∷ [];
          old_request_list = put_old_request c.old_request_list r.chunk_uid renewed;
        })
        rs in
    let keeping = clean_requests c rs in
    if expired
    then if gives_up c r
      then dropping
      else record keeping { request_list = renewed ∷ keeping.request_list }
    else record keeping { request_list = r ∷ keeping.request_list }

abbrev pub inc_pending_requests : PeerData → PeerData
inc_pending_requests d = record d {
  pending_requests = sub_ℕ (pos_part d.pending_requests + 1) (neg_part d.pending_requests);
}

-- The request message of the second loop, which also tells what the player is at.
abbrev pub sealed_request : List ℕ → Client → ChunkUniqueId → List ℕ
sealed_request fresh c chunk =
    set_integrity (message_request fresh chunk c.player_delivery_position)

-- What the second loop does with a request whose time is full: it looks for partners, and asks the one
-- that the scheduler puts first.
unfoldable pub ask_partner :
    List ℕ → Asking → Client → Request → Option (Request × (Client × Outbox))
ask_partner fresh a c r =
    let counted = record c {
      requests_sent = c.requests_sent + 1;
      request_retries = if length r.attempts == 0 then c.request_retries else c.request_retries + 1;
    } in
    let found =
      search_peers a.block_free_riders c.estimated_chunk_rate r (active_partners c.peer_manager) in
    let (chosen, r') = choose_peer a.scheduler found in
    elim chosen [
      | none ↦ some (r', (counted, []))
      | some p ↦
          let asked = modify_peer counted p.id inc_pending_requests in
          elim (create_attempt r' (entry (asked.peer_manager.peer_list p.id))) [
            | none ↦ none
            | some tried ↦ some (tried, (asked, (p.id, sealed_request fresh c r.chunk_uid) ∷ []))
          ]
    ]

-- The second loop.
unfoldable pub ask_all :
    List ℕ → Asking → ℕ → Client → List Request → Option (List Request × (Client × Outbox))
ask_all fresh a step c [] = some ([], (c, []))
ask_all fresh a step c (r ∷ rs) =
    let is_full = leb_ℤ (pos 500) r.ttl && leb_ℤ r.ttl (pos 500) in
    elim (if is_full then ask_partner fresh a c r else some (r, (c, []))) [
      | none ↦ none
      | some (asked, (c1, sent)) ↦ elim (ask_all fresh a step c1 rs) [
        | none ↦ none
        | some (rest, (c2, later)) ↦
            some (dec_request_ttl asked (pos step) ∷ rest, (c2, sent ++ later))
      ]
    ]

-- `FazPedidos`
unfoldable pub make_requests : List ℕ → Asking → ℕ → Client → Option (Client × Outbox)
make_requests fresh a step c =
    let cleaned = clean_requests c c.request_list in
    elim (ask_all fresh a step cleaned cleaned.request_list) [
      | none ↦ none
      | some (asked, (c', sent)) ↦ some (record c' { request_list = asked }, sent)
    ]

-- The round of `MontarListaPedidos`, with its count of the milliseconds without a request. After ten
-- seconds it waits for a new position from the bootstrap server.
unfoldable pub request_round : List ℕ → Asking → ℕ × Client → Option ((ℕ × Client) × Outbox)
request_round fresh a (failures, c) =
    if c.receive_request_position then some ((failures, c), []) else elim (add_request a c) [
      | none ↦ none
      | some (added, c1) ↦
          let count = if added then 0 else failures + 5 in
          elim (make_requests fresh a 5 c1) [
            | none ↦ none
            | some (c2, sent) ↦ some (
              if ltb 10000 count
                  then (
                    0,
                    record c2 {
                      receive_request_position = true;
                      request_list = [];
                      old_request_list = [];
                    },
                  )
                  else (count, c2),
              sent,
            )
          ]
    ]
