-- ===== src/Messages/Reports.antt =====
-- `MessagePingBootPerf` of src/common/Messages, the report of a peer to the bootstrap server.
use tvpp_dev_base.Base.{ℕ, ◌-◌, ◌^◌, Option, none, some, List, [], ◌∷◌, ◌++◌}
use tvpp_dev_base.ChunkUniqueId.{ChunkUniqueId}
use tvpp_dev_base.Messages.{ping_boot_perf, make_message, ping_boot_values}

-- What the constructor of `MessagePingBootPerf` is given beside the values of the boot ping. A
-- `float` is the pattern of its 32 bits.
pub record Performance : Type 0 where
  pub chunks_generated : ℕ
  pub chunks_sent : ℕ
  pub chunks_received : ℕ
  pub chunks_overload : ℕ
  pub requests_sent : ℕ
  pub requests_recv : ℕ
  pub requests_retries : ℕ
  pub chunks_missed : ℕ
  pub chunks_expected : ℕ
  pub mean_hop : ℕ
  pub mean_tries : ℕ
  pub mean_tries_per_request : ℕ
  pub last_media_id : Option ChunkUniqueId
  pub last_media_hop_count : ℕ
  pub last_media_tries_count : ℕ
  pub last_media_time : ℕ
  pub nowtime : ℕ
  pub neighborhood_size_in : ℕ
  pub neighborhood_size_out : ℕ
  pub neighborhood_size_out_free : ℕ

-- -1 as an `int`.
abbrev pub minus_one : ℕ
minus_one = 2 ^ 32 - 1

abbrev pub sample_values : Performance → Option ChunkUniqueId → List ℕ
sample_values p none = minus_one ∷ minus_one ∷ minus_one ∷ minus_one ∷ minus_one ∷ []
sample_values p (some chunk) =
    chunk.cycle ∷ chunk.position ∷ p.last_media_hop_count ∷ p.last_media_tries_count
    ∷ p.last_media_time ∷ []

abbrev pub performance_values : Performance → List ℕ
performance_values p =
    (p.chunks_generated ∷ p.chunks_sent ∷ p.chunks_received ∷ p.chunks_overload ∷ p.requests_sent
      ∷ p.requests_recv ∷ p.requests_retries ∷ p.chunks_missed ∷ p.chunks_expected ∷ p.mean_hop
      ∷ p.mean_tries ∷ p.mean_tries_per_request ∷ [])
    ++ sample_values p p.last_media_id
    ++ p.nowtime ∷ p.neighborhood_size_in ∷ p.neighborhood_size_out ∷ p.neighborhood_size_out_free
      ∷ []

unfoldable pub message_ping_boot_perf :
    List ℕ → ℕ → ChunkUniqueId → ℕ → ℕ → ℕ → ℕ → Performance → List ℕ
unfolding make_message
message_ping_boot_perf fresh mode chunk stream_rate channel_id max_out max_out_free p =
    make_message ping_boot_perf fresh 0 (
      ping_boot_values 2 mode chunk max_out max_out_free stream_rate channel_id
      ++ performance_values p)
