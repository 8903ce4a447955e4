-- ===== src/Client/Play.antt =====
-- `FeedPlayer`, `GerarDados`, `UDPSend` and `CyclicTimers` of src/client/client.cpp: the player, the source
-- of a stream, the sender, and the clock. Each loop is a step here.
pub mod Skipped
use tvpp_dev_base.Base.{
  ℕ, ◌+◌, ◌-◌, ◌*◌, ◌%◌, ◌^◌, Bool, true, false, ◌&&◌, ◌||◌, not, ltb, leb, ◌==◌, if◌then◌else◌,
  Option, none, some, List, [], ◌∷◌, length, set,
}
use tvpp_dev_base.Base.Int.{ℤ, pos, negsuc, ltb_ℤ, leb_ℤ, pos_part, neg_part, sub_ℕ}
use tvpp_dev_base.ChunkUniqueId.{
  ChunkUniqueId, inc_id, set_id, subtract, difference, eq_id, lt_id, gt_id, ge_id,
}
use tvpp_dev_base.Message.{set_integrity, get_opcode, get_size}
use tvpp_dev_base.Messages.{message_data, set_media}
use tvpp_dev_base.PeerManager.{PeerManager, inc_sent_chunks, set_remove_worse_partner}
use tvpp_dev_base.PeerManager.Round.{check_peer_list}
use tvpp_dev_base.MediaBuffer.{
  MediaBuffer, Slot, slot_at, is_available, insert_media, set_available, set_media_duration,
  get_media,
}
use tvpp_dev_base.LeakyBucket.{LeakyBucket, dec_token}
use tvpp_dev_base.Request.{Request}
use tvpp_dev_base.Client.{Client, Outbox}

-- The variables of `FeedPlayer`, in milliseconds.
pub record Player : Type 0 where
  pub client : Client
  pub wait_time : ℕ
  pub max_wait_time : ℕ

unfoldable pub erase_old_request :
    List (ChunkUniqueId × Request) → ChunkUniqueId → List (ChunkUniqueId × Request)
erase_old_request [] k = []
erase_old_request (e ∷ m) k = if eq_id e.0 k then m else e ∷ erase_old_request m k

-- `GetDuration`
unfoldable pub get_duration : MediaBuffer → ℕ → Option ℕ
get_duration b i = elim (slot_at b.slots i) [ none ↦ none | some s ↦ some s.duration ]

-- `rate * seconds`, as the `int` that `operator-` takes, for a product in the range of an `int`.
abbrev pub offset_of : ℤ → ℤ → ℤ
offset_of rate seconds =
    sub_ℕ (pos_part rate * pos_part seconds + neg_part rate * neg_part seconds)
      (pos_part rate * neg_part seconds + neg_part rate * pos_part seconds)

-- The soft reset, when the stream is a cycle ahead of the player.
unfoldable pub soft_reset : Player → Player
soft_reset p =
    let c = p.client in
    let latest = c.latest_received_position in
    let start = set_id c.player_delivery_position latest.cycle latest.position in
    if gt_id latest c.player_delivery_position
      && ltb 0 (difference latest c.player_delivery_position).cycle
    then record p {
      max_wait_time = 3000;
      client = record c {
        player_delivery_position =
            subtract start (offset_of c.estimated_chunk_rate c.tip_offset_time);
        chunks_missed = negsuc 0;
        chunks_played = 0;
        old_request_list = [];
        request_list = [];
      };
    }
    else p

-- At the tip the player waits long.
unfoldable pub wait_at_tip : Player → Player
wait_at_tip p =
    if eq_id p.client.latest_received_position p.client.player_delivery_position
    then record p { max_wait_time = 3000 }
    else p

abbrev pub at_least_zero : ℤ → ℤ
at_least_zero n = if ltb_ℤ n (pos 0) then pos 0 else n

abbrev pub plus_one : ℤ → ℤ
plus_one n = sub_ℕ (pos_part n + 1) (neg_part n)

-- A chunk that goes to the player. `playerBufferDuration` is a `uint64_t`.
unfoldable pub play_chunk : Player → ℕ → Player
play_chunk p duration =
    let c = p.client in
    let at = c.player_delivery_position in
    let sampled = at.position % 500 == 0 in
    record p {
      wait_time = 0;
      client = record c {
        player_buffer_duration = (c.player_buffer_duration + duration) % 2 ^ 64;
        old_request_list = erase_old_request c.old_request_list at;
        last_media_id = if sampled then some at else c.last_media_id;
        chunks_missed = if sampled then at_least_zero c.chunks_missed else c.chunks_missed;
        chunks_played = c.chunks_played + 1;
        player_delivery_position = inc_id at;
      };
    }

-- A chunk that did not come in time.
unfoldable pub miss_chunk : Player → Player
miss_chunk p =
    let c = p.client in
    let at = c.player_delivery_position in
    record p {
      wait_time = 0;
      max_wait_time = 50;
      client = record c {
        old_request_list = erase_old_request c.old_request_list at;
        player_delivery_position = inc_id at;
        chunks_missed = plus_one (at_least_zero c.chunks_missed);
      };
    }

-- The round without a chunk: it sleeps ten milliseconds, or gives the chunk up.
unfoldable pub wait_or_miss : Player → Player
wait_or_miss p =
    if ltb p.wait_time p.max_wait_time
    then record p { wait_time = p.wait_time + 10 }
    else if lt_id p.client.player_delivery_position p.client.latest_received_position
    then miss_chunk p
    else p

-- A round of `FeedPlayer` whose write to the player does not fail.
unfoldable pub feed_player : Player → Option Player
feed_player p0 =
    let p = wait_at_tip (soft_reset p0) in
    let c = p.client in
    let i = c.player_delivery_position.position in
    if ge_id c.latest_received_position c.player_delivery_position
    then elim (is_available c.media_buffer i) [
      | none ↦ none
      | some false ↦ some (wait_or_miss p)
      | some true ↦ elim (get_duration c.media_buffer i) [
        | none ↦ none
        | some duration ↦ some (play_chunk p duration)
      ]
    ]
    else some (wait_or_miss p)

-- `SetIntegrity` on the message that a slot points to.
unfoldable pub seal_media : MediaBuffer → ℕ → Option MediaBuffer
seal_media b i = elim (slot_at b.slots i) [
  | none ↦ none
  | some s ↦ elim s.buffer [
    | none ↦ none
    | some m ↦
        some (record b { slots = set b.slots i (record s { buffer = some (set_integrity m) }) })
  ]
]

-- The previous chunk gets its duration, when a time was measured, and its checksum, and is offered.
unfoldable pub finish_chunk : MediaBuffer → ℕ → ℕ → Option MediaBuffer
finish_chunk b i duration =
    elim (if duration == 0 then some b else set_media_duration b i duration) [
      | none ↦ none
      | some timed ↦ elim (seal_media timed i) [
        | none ↦ none
        | some sealed ↦ set_available sealed i true
      ]
    ]

abbrev pub finish_last : MediaBuffer → Option (List ℕ) → ℕ → ℕ → Option MediaBuffer
finish_last b none i duration = some b
finish_last b (some m) i duration = finish_chunk b i duration

-- The position before another, in the buffer.
abbrev pub before : ChunkUniqueId → ℕ
before c = if ltb 0 c.position then c.position - 1 else c.position + c.buffer_size - 1

-- A round of `GerarDados`: `received` came from the source, at the time `now`, `duration` milliseconds after
-- what came before.
unfoldable pub produce_chunk : List ℕ → List ℕ → ℕ → ℕ → Client → Option Client
produce_chunk fresh received now duration c =
    let at = c.latest_received_position in
    let m = set_media (message_data fresh (length received) 0 0 at now 0) received in
    let next = inc_id at in
    elim (insert_media c.media_buffer m false) [
      | none ↦ none
      | some inserted ↦ elim (get_media inserted (before at)) [
        | none ↦ none
        | some last ↦ elim (finish_last inserted last (before at) duration) [
          | none ↦ none
          | some b ↦ some (record c {
            media_buffer = b;
            latest_received_position = next;
            chunks_gen = c.chunks_gen + 1;
            last_media_id = if next.position % 500 == 0 then some next else c.last_media_id;
          })
        ]
      ]
    ]

-- A round of `UDPSend` for a message: what is sent, the bucket and the client. A bucket that has too few
-- tokens is tried again, which is the result none.
unfoldable pub udp_send :
    Bool
    → Bool
    → Client
    → Option LeakyBucket
    → ℕ
    → List ℕ
    → Option (Outbox × (Option LeakyBucket × Client))
udp_send is_recent data_filter c bucket to m =
    let is_data = get_opcode m == 4 in
    let counted =
      if is_data
      then record c {
        chunks_sent = c.chunks_sent + 1;
        peer_manager = inc_sent_chunks c.peer_manager to;
      }
      else c in
    if is_recent
    then elim bucket [
      | none ↦ some ((to, m) ∷ [], (none, counted))
      | some b ↦
          if not data_filter || is_data
          then (let (done, b') = dec_token b (get_size m) in
              if done then some ((to, m) ∷ [], (some b', counted)) else none)
          else some ((to, m) ∷ [], (some b, counted))
    ]
    else some ([], (bucket, c))

-- The variables of `CyclicTimers`.
pub record Clock : Type 0 where
  pub client : Client
  pub cycle : ℕ
  pub remove_worse_temp : ℕ

-- The counter after which the worst partner may be replaced again; `remove_worse` is the flag of the
-- configuration, and `seconds` the time that it was started with. The counter is a `uint8_t`.
unfoldable pub count_to_removal : Bool → ℕ → Clock → Clock
count_to_removal remove_worse seconds k =
    let p = k.client.peer_manager in
    if remove_worse && not p.remove_worse
    then if k.remove_worse_temp == 0
      then record k {
        client = record (k.client) { peer_manager = set_remove_worse_partner p true };
        remove_worse_temp = seconds % 2 ^ 8;
      }
      else record k { remove_worse_temp = k.remove_worse_temp - 1 }
    else k

-- A round of `CyclicTimers`, every 100 ms, without the timers of the other objects.
unfoldable pub clock_round : Bool → ℕ → Clock → Clock
clock_round remove_worse seconds k =
    let c = k.client in
    let left = if ltb 100 c.player_buffer_duration then c.player_buffer_duration - 100 else 0 in
    let drained = record k { client = record c { player_buffer_duration = left } } in
    let swept = record k {
      client = record c {
        player_buffer_duration = left;
        download_per_sec_done = 0;
        upload_per_sec_done = 0;
        peer_manager = check_peer_list c.peer_manager;
      };
    } in
    let done = if k.cycle % 10 == 0 then count_to_removal remove_worse seconds swept else drained in
    record done { cycle = if leb 10000 (k.cycle + 1) then 0 else k.cycle + 1 }
