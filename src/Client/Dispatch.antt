-- ===== src/Client/Dispatch.antt =====
-- `HandleUDPMessage` of src/client/client.cpp: the messages of other peers.
pub mod Sound
pub mod Invariant
use tvpp_dev_base.Base.{
  ℕ, ◌+◌, ◌%◌, ◌^◌, Bool, true, false, ◌==◌, if◌then◌else◌, Option, none, some, List, [], ◌∷◌,
  get_or,
}
use tvpp_dev_base.Message.{get_opcode, get_body_size, get_header_values}
use tvpp_dev_base.Messages.{error_sizes}
use tvpp_dev_base.Client.{Client, Outbox, requested_chunk, handle_request, handle_error}
use tvpp_dev_base.Client.Data.{handle_data}
use tvpp_dev_base.Client.Pings.{handle_ping}

-- Where a message came from: the id of the peer, and its IP.
pub record Source : Type 0 where
  pub id : ℕ
  pub ip : ℕ

-- The client, what it sends, and whether the program ends.
abbrev pub Handled : Type 0
Handled = (Client × Outbox) × Bool

abbrev pub going_on : Option (Client × Outbox) → Option Handled
going_on none = none
going_on (some o) = some (o, false)

-- The counts of a data message before it is handled. `downloadPerSecDone` is a `uint32_t`.
abbrev pub counted_data : Client → List ℕ → Client
counted_data c m = record c {
  chunks_recv = c.chunks_recv + 1;
  download_per_sec_done = (c.download_per_sec_done + get_body_size m) % 2 ^ 32;
}

abbrev pub silent : Option Client → Option (Client × Outbox)
silent none = none
silent (some c) = some (c, [])

-- `HandleUDPMessage`. `fresh` is the memory of a reply, `separated` the flag `separatedFreeOutList` and
-- `delay` the time that the handler of data measures. The opcodes are 3 for a request, 4 for data, 5 for
-- an error and 2 for a ping.
unfoldable pub handle_udp : List ℕ → Bool → ℕ → Client → Source → List ℕ → Option Handled
handle_udp fresh separated delay c source m =
    let opcode = get_opcode m in
    if opcode == 3
    then going_on (handle_request fresh c source.id (requested_chunk m))
    else if opcode == 4
    then going_on (handle_data fresh (counted_data c m) source.id m delay)
    else if opcode == 5
    then (let (c', ends) = handle_error c (get_or (get_header_values error_sizes m) 0 0) in
        some ((c', []), ends))
    else if opcode == 2
    then going_on (silent (handle_ping separated c source.id source.ip m))
    else some ((c, []), false)
