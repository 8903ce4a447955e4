-- ===== src/Messages.antt =====
-- src/common/Messages/Message*.hpp and Message*.cpp: the classes of messages. Each class is a kind,
-- with the opcode, the header size and the field sizes that its constructor uses, and a function
-- that makes its vector of header values. `fresh` is the memory that the constructor allocates.
pub mod Neighbors
pub mod Reports
pub mod Sealed
pub mod Classes
mod Tests
use tvpp_dev_base.Base.{
  ℕ, zero, suc, ◌+◌, ◌-◌, ◌*◌, ◌%◌, ◌^◌, Bool, ltb, if◌then◌else◌, Option, none, some, List, [],
  ◌∷◌, ◌++◌, set,
}
use tvpp_dev_base.ChunkUniqueId.{ChunkUniqueId}
use tvpp_dev_base.Message.{
  assemble_header, set_coded_byte, assemble_header_values, write_int, get_header_values,
  get_header_size, get_body_size, message_header_size,
}

pub data Kind : Type 0 where
  error request ping ping_boot ping_boot_perf media peerlist peerlist_share peerlist_log channel :
      Kind

-- The opcodes of src/common/Defines.hpp.
abbrev pub opcode : Kind → ℕ
opcode error = 5
opcode request = 3
opcode ping = 2
opcode ping_boot = 2
opcode ping_boot_perf = 2
opcode media = 4
opcode peerlist = 1
opcode peerlist_share = 1
opcode peerlist_log = 1
opcode channel = 0

-- The header sizes of src/common/Defines.hpp.
abbrev pub header_size : Kind → ℕ
header_size error = 8
header_size request = 18
header_size ping = 18
header_size ping_boot = 26
header_size ping_boot_perf = 102
header_size media = 22
header_size peerlist = 10
header_size peerlist_share = 46
header_size peerlist_log = 18
header_size channel = 28

-- `MessagePing::GetHeaderValuesSizeVector`, which the boot pings extend.
abbrev pub ping_sizes : List ℕ
ping_sizes = 8 ∷ 8 ∷ 32 ∷ 16 ∷ 16 ∷ 16 ∷ []

abbrev pub ping_boot_sizes : List ℕ
ping_boot_sizes = ping_sizes ++ 32 ∷ 32 ∷ []

-- Twelve counters and means, the sample chunk, the time, and three neighbourhood sizes.
abbrev pub ping_boot_perf_sizes : List ℕ
ping_boot_perf_sizes =
    ping_boot_sizes
    ++ 32 ∷ 32 ∷ 32 ∷ 32 ∷ 32 ∷ 32 ∷ 32 ∷ 32 ∷ 32 ∷ 32 ∷ 32 ∷ 32 ∷ 32 ∷ 16 ∷ 32 ∷ 32 ∷ 32 ∷ 32 ∷ 16
      ∷ 16 ∷ 16 ∷ []

abbrev pub data_sizes : List ℕ
data_sizes = 8 ∷ 8 ∷ 32 ∷ 16 ∷ 32 ∷ 32 ∷ []

abbrev pub peerlist_sizes : List ℕ
peerlist_sizes = 8 ∷ 16 ∷ []

abbrev pub peerlist_share_sizes : List ℕ
peerlist_share_sizes =
    peerlist_sizes ++ 8 ∷ 8 ∷ 8 ∷ 8 ∷ 16 ∷ 32 ∷ 16 ∷ 32 ∷ 32 ∷ 32 ∷ 32 ∷ 32 ∷ 16 ∷ 16 ∷ []

abbrev pub peerlist_log_sizes : List ℕ
peerlist_log_sizes = peerlist_sizes ++ 32 ∷ 32 ∷ []

abbrev pub channel_sizes : List ℕ
channel_sizes = 8 ∷ 8 ∷ 16 ∷ 16 ∷ 32 ∷ 32 ∷ 16 ∷ 16 ∷ 32 ∷ []

abbrev pub request_sizes : List ℕ
request_sizes = 32 ∷ 16 ∷ 32 ∷ 16 ∷ []

abbrev pub error_sizes : List ℕ
error_sizes = 8 ∷ []

-- The virtual `GetHeaderValuesSizeVector`.
abbrev pub header_sizes : Kind → List ℕ
header_sizes error = error_sizes
header_sizes request = request_sizes
header_sizes ping = ping_sizes
header_sizes ping_boot = ping_boot_sizes
header_sizes ping_boot_perf = ping_boot_perf_sizes
header_sizes media = data_sizes
header_sizes peerlist = peerlist_sizes
header_sizes peerlist_share = peerlist_share_sizes
header_sizes peerlist_log = peerlist_log_sizes
header_sizes channel = channel_sizes

-- The body of every constructor.
unfoldable pub make_message : Kind → List ℕ → ℕ → List ℕ → List ℕ
make_message k fresh body_size ds =
    (assemble_header (header_sizes k) fresh (opcode k) (header_size k) body_size ds).0

-- A `bool` and an `int16_t` as an `int`.
abbrev pub of_bool : Bool → ℕ
of_bool b = if b then 1 else 0

abbrev pub of_int16 : ℕ → ℕ
of_int16 v = if ltb v (2 ^ 15) then v else v + 2 ^ 32 - 2 ^ 16

unfoldable pub message_error : List ℕ → ℕ → List ℕ
unfolding make_message
message_error fresh code = make_message error fresh 0 (code ∷ [])

abbrev pub request_values : ChunkUniqueId → ChunkUniqueId → List ℕ
request_values requested tip = requested.cycle ∷ requested.position ∷ tip.cycle ∷ tip.position ∷ []

unfoldable pub message_request : List ℕ → ChunkUniqueId → ChunkUniqueId → List ℕ
unfolding make_message
message_request fresh requested tip = make_message request fresh 0 (request_values requested tip)

abbrev pub ping_values : ℕ → ℕ → ChunkUniqueId → ℕ → ℕ → List ℕ
ping_values ping_type mode chunk max_out max_out_free =
    ping_type ∷ mode ∷ chunk.cycle ∷ chunk.position ∷ max_out ∷ max_out_free ∷ []

unfoldable pub message_ping : List ℕ → ℕ → ℕ → ℕ → ChunkUniqueId → ℕ → ℕ → List ℕ
unfolding make_message
message_ping fresh ping_type body_size mode chunk max_out max_out_free =
    make_message ping fresh body_size (ping_values ping_type mode chunk max_out max_out_free)

abbrev pub ping_boot_values : ℕ → ℕ → ChunkUniqueId → ℕ → ℕ → ℕ → ℕ → List ℕ
ping_boot_values ping_type mode chunk max_out max_out_free stream_rate channel_id =
    ping_values ping_type mode chunk max_out max_out_free ++ stream_rate ∷ channel_id ∷ []

-- PING_BOOT is 1, and PING_BOOT_PERF is 2.
unfoldable pub message_ping_boot : List ℕ → ℕ → ChunkUniqueId → ℕ → ℕ → ℕ → ℕ → List ℕ
unfolding make_message
message_ping_boot fresh mode chunk max_out max_out_free stream_rate channel_id =
    make_message ping_boot fresh 0
      (ping_boot_values 1 mode chunk max_out max_out_free stream_rate channel_id)

abbrev pub data_values : ℕ → ℕ → ChunkUniqueId → ℕ → ℕ → List ℕ
data_values hop tries chunk generation_time duration =
    hop ∷ tries ∷ chunk.cycle ∷ chunk.position ∷ generation_time ∷ duration ∷ []

unfoldable pub message_data : List ℕ → ℕ → ℕ → ℕ → ChunkUniqueId → ℕ → ℕ → List ℕ
unfolding make_message
message_data fresh body_size hop tries chunk generation_time duration =
    make_message media fresh body_size (data_values hop tries chunk generation_time duration)

-- The methods of `MessageData`.
unfoldable pub set_hop : List ℕ → ℕ → List ℕ
set_hop m hop = set_coded_byte m (message_header_size + 0) hop

unfoldable pub set_tries : List ℕ → ℕ → List ℕ
set_tries m tries = set_coded_byte m (message_header_size + 1) tries

unfoldable pub set_duration : List ℕ → ℕ → List ℕ
set_duration m duration =
    (assemble_header_values m (message_header_size + 12) (32 ∷ []) (duration ∷ [])).0

-- The loop of `SetMedia` over the buffer, from the byte `at`, for `n` bytes.
unfoldable pub copy_media : List ℕ → ℕ → ℕ → List ℕ → List ℕ
copy_media m at n [] = m
copy_media m at zero (b ∷ bs) = m
copy_media m at (suc n) (b ∷ bs) = copy_media (set m at b) (at + 1) n bs

unfoldable pub set_media : List ℕ → List ℕ → List ℕ
unfolding copy_media
set_media m buffer = copy_media m (get_header_size m) (get_body_size m) buffer

abbrev pub peerlist_values : ℕ → ℕ → List ℕ
peerlist_values peerlist_type qtd_peers = peerlist_type ∷ qtd_peers ∷ []

-- The body size, six bytes for a peer, is cut to 16 bits by the call of `AssembleHeader`.
abbrev pub peers_size : ℕ → ℕ
peers_size qtd_peers = qtd_peers * 6 % 2 ^ 16

unfoldable pub message_peerlist : List ℕ → ℕ → ℕ → List ℕ
unfolding make_message
message_peerlist fresh peerlist_type qtd_peers =
    make_message peerlist fresh (peers_size qtd_peers) (peerlist_values peerlist_type qtd_peers)

-- PEERLIST_LOG is 2.
unfoldable pub message_peerlist_log : List ℕ → ℕ → ℕ → ℕ → List ℕ
unfolding make_message
message_peerlist_log fresh qtd_peers channel_id nowtime =
    make_message peerlist_log fresh (peers_size qtd_peers)
      (peerlist_values 2 qtd_peers ++ channel_id ∷ nowtime ∷ [])

-- `MessageChannel`; VERSION is 0x010B.
abbrev pub channel_values : ℕ → Bool → ℕ → ℕ → ℕ → ℕ → ℕ → ℕ → List ℕ
channel_values flag punch port channel_id nowtime max_out max_out_free limit_upload =
    flag
    ∷ of_bool punch
    ∷ 0x010B
    ∷ port
    ∷ channel_id
    ∷ nowtime
    ∷ max_out
    ∷ max_out_free
    ∷ limit_upload
    ∷ []

unfoldable pub message_channel : List ℕ → ℕ → Bool → ℕ → ℕ → ℕ → ℕ → ℕ → ℕ → List ℕ
unfolding make_message
message_channel fresh flag punch port channel_id nowtime max_out max_out_free limit_upload =
    make_message channel fresh 0
      (channel_values flag punch port channel_id nowtime max_out max_out_free limit_upload)
