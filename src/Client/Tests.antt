-- ===== src/Client/Tests.antt =====
-- The theorems on the client at concrete clients.
use tvpp_dev_base.Base.{
  ℕ, ◌≡◌, refl, ◌⊎◌, true, false, none, some, List, [], ◌∷◌, ◌++◌, replicate, arith, ◌<◌, ◌≤◌, inl,
  ◌==◌, if◌then◌else◌,
}
use tvpp_dev_base.Base.Int.{pos, negsuc}
use tvpp_dev_base.ChunkUniqueId.{
  ChunkUniqueId, IsValid, make, eq_id, ge_id, gt_id, lt_id, set_id, difference,
}
use tvpp_dev_base.Message.{
  get_opcode, get_header_size, get_message_header_values, IsBytes, get_header_values,
  split_header_values, split_from, split_value, split_start, read_int,
}
use tvpp_dev_base.PeerData.{make_peer, make_peer_data}
use tvpp_dev_base.PeerManager.{PeerManager, is_peer_active, entry}
use tvpp_dev_base.MediaBuffer.{Slot, get_media, is_available}
use tvpp_dev_base.Request.{Request, RequestAttempt}
use tvpp_dev_base.Base.Sets.{contains}
use tvpp_dev_base.Client.{
  Client, Outbox, sealed_error, requested_chunk, is_out_partner, is_within_cycle, handle_request,
  reply_chunk, get_chunk_size,
}
use tvpp_dev_base.Client.Bits.{bytes_to_bitset, bitset_to_bytes}
use tvpp_dev_base.Client.Bits.RoundTrip.{bytes_to_bitset-bitset_to_bytes}
use tvpp_dev_base.Client.Requested.Replies.{IsReply, handle_request_replies}
use tvpp_dev_base.Client.Data.{received_chunk, handle_data}
use tvpp_dev_base.Client.Data.Outcome.{IsUntouched, IsAnswered, handle_data-unsolicited}
use tvpp_dev_base.Client.Data.Asked.{IsAsked}
use tvpp_dev_base.Client.Data.Stored.{IsNew, handle_data-stores}
use tvpp_dev_base.Client.Ask.{Asking, ask_partner, clean_requests, gives_up}
use tvpp_dev_base.Client.Ask.Expired.{
  kept_requests, given_up, AreLive, clean_requests-kept, clean_requests_without_limit,
}
use tvpp_dev_base.Client.Ask.Sent.{HasChunk, HaveHeads, IsRequestFor, ask_partner_asks}
use tvpp_dev_base.Client.Dispatch.{Source, handle_udp}
use tvpp_dev_base.Client.Dispatch.Sound.{IsSound}
use tvpp_dev_base.Client.Dispatch.Invariant.{here, next, hears, ticks, Reach-IsSound}
use tvpp_dev_base.Client.Play.{
  Clock, clock_round, Player, wait_or_miss, feed_player, wait_at_tip, soft_reset,
}
use tvpp_dev_base.Client.Play.Skipped.{
  IsStuck, GetsOn, Advances, feed_player_gives_up, feed_player-Advances,
}

bytes_to_bitset-bitset_to_bytes_example :
    let bits = replicate 3 true ++ replicate 5 false in
    bytes_to_bitset (bitset_to_bytes bits) ≡ bits
bytes_to_bitset-bitset_to_bytes_example =
    bytes_to_bitset-bitset_to_bytes 1 (replicate 3 true ++ replicate 5 false) refl

-- A manager with the partner 5 in the in list and in the out list.
abbrev partners : PeerManager
partners = record {
  max_in = 2;
  max_out = 2;
  max_out_free = 0;
  out_limit = 0;
  peer_list = λ k.
      if k == 5 then some (make_peer_data (some (make_peer 5 5 (pos 2) (pos 0) (pos 9)))) else none;
  active_in = 5 ∷ [];
  active_out = 5 ∷ [];
  active_out_free = [];
  cooldown_in = λ k. none;
  cooldown_out = λ k. none;
  cooldown_out_free = λ k. none;
  remove_worse = false;
}

-- A slot that has a chunk of cycle 1 and size 3, and an empty one.
abbrev filled : Slot
filled = record {
  buffer = some (8 ∷ 9 ∷ 10 ∷ []);
  chunk_size = 3;
  header_size = 26;
  hop = 1;
  tries = 1;
  duration = 20;
  id = 2;
  available = true;
}

abbrev unfilled : Slot
unfilled = record {
  buffer = none;
  chunk_size = 0;
  header_size = 0;
  hop = 0;
  tries = 0;
  duration = 0;
  id = 0;
  available = false;
}

abbrev chunk : ℕ → ChunkUniqueId
chunk i = record { position = i; cycle = 2; buffer_size = 1600 }

abbrev attempt : RequestAttempt
attempt = record { chosen_peer_id = 5; last_registered_delay = 0; candidates = 1 }

abbrev asked : Request
asked = record { peers = []; chunk_uid = chunk 1; ttl = pos 0; attempts = attempt ∷ [] }

-- A client that has the first chunk of cycle 2, and has asked its partner for the second.
abbrev client : Client
client = record {
  peer_mode = 1;
  buffer_size = 2;
  ttl_max_in = pos 6;
  ttl_max_out = pos 3;
  max_request_attempt = negsuc 0;
  tip_offset_time = pos 5;
  peer_manager = partners;
  media_buffer = record { slots = filled ∷ unfilled ∷ []; buffer_size = 1 };
  request_list = asked ∷ [];
  old_request_list = [];
  receive_request_position = false;
  server_active = true;
  player_buffer_duration = 0;
  request_position = chunk 1;
  latest_received_position = chunk 0;
  player_delivery_position = chunk 0;
  last_media_id = none;
  chunks_gen = 0;
  chunks_sent = 0;
  chunks_recv = 1;
  chunks_overload = 0;
  requests_sent = 2;
  requests_recv = 0;
  request_retries = 0;
  chunks_missed = pos 0;
  chunks_played = 0;
  download_per_sec_done = 3;
  upload_per_sec_done = 0;
  tries_per_request = 1 ∷ [];
  estimated_chunk_rate = pos 10;
}

answered :
    (c' : Client) × (m : List ℕ) × (handle_request (replicate 8 0) client 5 (chunk 0)
      ≡ some (c', (5, m) ∷ []))
unfolding handle_request is_out_partner is_peer_active contains reply_chunk is_available
    is_within_cycle ge_id difference get_chunk_size get_media
answered = (_, _, refl)

asked-IsValid : (i : ℕ) → i < 1600 → IsValid (chunk i)
asked-IsValid i h = record { in_buffer = h; size_u16 = omega arith; cycle_u32 = omega arith }

handle_request_replies_example :
    let sent : Outbox = (5, answered.1) ∷ [] in
    ((m : List ℕ) × (sent ≡ (5, m) ∷ []) × IsReply client 5 (chunk 0) m)
    × (answered.0.media_buffer ≡ client.media_buffer)
    × (answered.0.peer_manager ≡ partners)
handle_request_replies_example =
    handle_request_replies (replicate 8 0) client answered.0 5 (chunk 0) ((5, answered.1) ∷ [])
      answered.2 (asked-IsValid 0 (omega arith)) (asked-IsValid 0 (omega arith)) refl (omega arith)

-- The second chunk of cycle 2, in a message with a byte of data.
abbrev message : List ℕ
message =
    4 ∷ 22 ∷ 1 ∷ 0 ∷ 0 ∷ 0 ∷ 0 ∷ 1 ∷ 2 ∷ 0 ∷ 0 ∷ 0 ∷ 1 ∷ 0 ∷ 0 ∷ 0 ∷ 0 ∷ 0 ∷ 0 ∷ 0 ∷ 0 ∷ 0 ∷ 7 ∷ []

message-IsBytes : IsBytes message
message-IsBytes i = grind arith

received : received_chunk message ≡ chunk 1
unfolding received_chunk get_header_values split_header_values split_from split_value split_start
    read_int make
received = refl

is_new : IsNew client.media_buffer (received_chunk message)
is_new = rw received (unfilled, refl, omega arith, inl refl)

is_asked : IsAsked client 5 (received_chunk message) [] asked []
is_asked = rw received (record {
  is_partner = refl;
  listed = refl;
  names = (refl, refl);
  is_first = tt;
  tried = ([], attempt, [], refl, refl);
})

header_fits : 6 ≤ get_header_size message
unfolding get_header_size get_message_header_values split_header_values split_from split_value
    split_start read_int
header_fits = omega arith

taken : (c' : Client) × (media : List ℕ) × (handle_data [] client 5 message 40 ≡ some (c', []))
taken =
    let stored =
      handle_data-stores [] client 5 message 40 [] asked [] is_asked is_new message-IsBytes
        (omega arith) header_fits in
    (stored.0, stored.1, stored.2)

handle_data-unsolicited_example :
    IsUntouched client taken.0 ⊎ IsAnswered client 5 (received_chunk message) taken.0
handle_data-unsolicited_example = handle_data-unsolicited [] client taken.0 5 message 40 [] taken.2

-- A player at the second chunk, with the third received and a wait of 30 milliseconds.
abbrev player : Player
player = record {
  client = record client { player_delivery_position = chunk 1; latest_received_position = chunk 2 };
  wait_time = 0;
  max_wait_time = 30;
}

player-IsStuck : IsStuck player
unfolding lt_id difference is_available
player-IsStuck = record { behind = refl; within = refl; missing = refl }

feed_player_gives_up_example : GetsOn 3 player
feed_player_gives_up_example = feed_player_gives_up 3 player player-IsStuck (omega arith)

fed : (p' : Player) × (feed_player player ≡ some p')
unfolding feed_player soft_reset wait_at_tip wait_or_miss is_available lt_id gt_id ge_id eq_id
    difference set_id
fed = (_, refl)

feed_player-Advances_example : Advances (wait_at_tip (soft_reset player)) fed.0
feed_player-Advances_example = feed_player-Advances player fed.0 fed.1

clean_requests-kept_example :
    ((clean_requests client client.request_list).request_list
      ≡ kept_requests (gives_up client) client.request_list)
    × ((clean_requests client client.request_list).tries_per_request
        ≡ (1 ∷ []) ++ given_up (gives_up client) client.request_list)
    × AreLive (clean_requests client client.request_list).request_list
clean_requests-kept_example = clean_requests-kept client client.request_list

clean_requests_without_limit_example :
    ((clean_requests client (asked ∷ record asked { ttl = pos 100 } ∷ [])).request_list
      ≡ record asked { ttl = pos 100 } ∷ [])
    × ((clean_requests client (asked ∷ record asked { ttl = pos 100 } ∷ [])).tries_per_request
        ≡ 1 ∷ 1 ∷ [])
clean_requests_without_limit_example =
    clean_requests_without_limit client (asked ∷ record asked { ttl = pos 100 } ∷ []) refl

-- A partner that has the second chunk, and the client with it.
abbrev answering : PeerManager
answering = record partners {
  peer_list = λ k.
      if k == 5
      then some (record (make_peer_data (some (make_peer 5 5 (pos 2) (pos 0) (pos 9)))) {
        chunk_map = false ∷ true ∷ [];
        chunk_map_head = chunk 1;
      })
      else none;
}

abbrev served : Client
served = record client { peer_manager = answering }

served-IsSound : IsSound answering
unfolding make_peer make_peer_data
served-IsSound = record {
  valid = record {
    are_sorted = record {
      ins_sorted = (omega arith, tt);
      outs_sorted = (omega arith, tt);
      outs_free_sorted = tt;
    };
    is_within = record {
      ins_fit = omega arith;
      outs_fit = omega arith;
      outs_free_fit = omega arith;
    };
    are_known = record {
      ins_known = λ k h. grind arith;
      outs_known = λ k h. grind arith;
      outs_free_known = λ k h. grind arith;
    };
  };
  named = λ k. grind arith;
}

abbrev asking : Asking
asking = record { block_free_riders = true; scheduler = λ v. v }

served-HaveHeads : HaveHeads answering (chunk 1)
unfolding make_peer make_peer_data
served-HaveHeads k h =
    let same : k ≡ 5 = ground (arith, h) in rw same (asked-IsValid 1 (omega arith), refl)

ask_partner_asks_example :
    (r' : Request) × (c' : Client) × (sent : Outbox) × (ask_partner
        (replicate 18 0)
        asking
        served
        asked
      ≡ some (r', (c', sent)))
    × IsSound c'.peer_manager
    × ((sent ≡ [])
        ⊎ ((k : ℕ) × (m : List ℕ) × (sent ≡ (k, m) ∷ [])
            × (contains k answering.active_in ≡ true)
            × HasChunk asking served (chunk 1) (entry (answering.peer_list k))
            × IsRequestFor (chunk 1) (chunk 0) m))
ask_partner_asks_example =
    ask_partner_asks (replicate 18 0) asking served asked (λ P v h. h) served-IsSound (omega arith)
      (asked-IsValid 1 (omega arith)) (asked-IsValid 0 (omega arith)) served-HaveHeads

-- A request of a outsider, and then a round of the clock.
abbrev clock : Clock
clock = record { client = record served { requests_recv = 1 }; cycle = 0; remove_worse_temp = 0 }

abbrev outsider : Source
outsider = record { id = 6; ip = 6 }

-- A request message for the first chunk.
abbrev wish : List ℕ
wish = 3 ∷ 18 ∷ 0 ∷ 0 ∷ 0 ∷ 0 ∷ 2 ∷ 0 ∷ 0 ∷ 0 ∷ 0 ∷ 0 ∷ []

wished :
    handle_udp [] false 0 served outsider wish
    ≡ some ((clock.client, (6, sealed_error [] 6) ∷ []), false)
unfolding handle_udp get_opcode get_message_header_values handle_request is_out_partner
    is_peer_active contains requested_chunk get_header_values split_header_values split_from
    split_value split_start read_int make
wished = refl

Reach-IsSound_example : IsSound (clock_round true 30 clock).client.peer_manager
Reach-IsSound_example =
    Reach-IsSound
      (next (next here (hears false 0 outsider wish ((6, sealed_error [] 6) ∷ []) false wished))
        (ticks true 30 clock refl))
      served-IsSound
