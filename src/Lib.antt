-- ===== src/Lib.antt =====
-- TVPP, a peer-to-peer live streaming system: a client (src/client), a bootstrap server
-- (src/bootstrap) and what they share (src/common).
--
-- A stream is cut into chunks, each with a cyclic identifier. The peers of a channel exchange them in
-- UDP messages. The bootstrap server keeps the peers of each channel and tells a peer about others; a
-- client keeps its partners in three lists, sends what its schedulers hold at the rate of a leaky
-- bucket, and keeps the chunks that it received in a cyclic buffer.
--
-- The files and what they model:
--   Base: numbers, lists, sets, maps and signed integers that the others share. A `std::set` and a
--     `std::map` over ordered keys are sorted lists, or a map is a function from keys.
--   ChunkUniqueId: src/common/ChunkUniqueID.cpp. `inc_id` is `IncID`, `subtract` and `difference` the
--     two forms of `operator-`, and `lt_id` to `ge_id` the comparisons, all with the 16 and 32 bits of
--     the fields.
--   Message: src/common/Messages/Message.cpp. A message is its bytes. `assemble_header` and
--     `get_header_values` are the codec of the headers, `set_integrity` and `check_integrity` the
--     checksum, and `get_coded_byte` and `set_coded_byte` the access to one byte.
--   Messages: the subclasses in src/common/Messages. A class is a `Kind` with the sizes of its fields;
--     `make_message` is the body of every constructor.
--   PeerData: src/common/Peer.cpp and src/common/PeerData.cpp, a peer and its TTLs, sizes and counters.
--   PeerManager: src/client/PeerManager.cpp, the partners of a client. `connect_peer`,
--     `disconnect_peer`, `add_peer`, `check_peer_list` and `set_new_max_out` are the methods of those
--     names; `Which` is the pointer to one of the three lists. Round has `CheckPeerList`.
--   Request: src/client/Request.cpp, the request for a chunk and the partners that can answer it.
--   Scheduler: src/common/Scheduler, the queues of messages to send: first in first out, random, by
--     the distance from the playback tip (Cdf), and round robin by address (RoundRobin).
--   LeakyBucket: src/client/Temporizable/LeakyBucket.cpp, the tokens of the upload.
--   MediaBuffer: src/client/MediaBuffer.cpp, the received chunks by position.
--   Channel: src/common/Channel.cpp, the peers of a channel, their expiry, and the selection of peers
--     to tell. Create has the constructor, and Renew `RenewOUTALL` with `NormalizeClasses` and
--     `ConvertePeerClasse`.
--   Bootstrap: src/bootstrap/bootstrap.cpp, the server. `handle_tcp_message` and
--     `handle_channel_request` are `HandleTCPMessage` and `HandleChannelMessage`; Ping has
--     `HandleUDPMessage` and `HandlePingMessage`, and Sweep the rounds of `CheckPeerList`.
--   Client: src/client/client.cpp. `handle_request` and `handle_error` are the handlers of those
--     messages; Data has `HandleDataMessage`, Pings the handlers of pings, Bits the chunk map of a ping,
--     Ask the requests that the client makes (`FazPedidos` and what it calls), and Play the rounds of
--     `FeedPlayer`, `GerarDados`, `UDPSend` and `CyclicTimers`. Share has `HandlePeerlistMessage` and
--     `HandleTCPMessage`, and Dispatch `HandleUDPMessage`.
--   Connector: src/client/Temporizable/Connector.cpp and Disconnector.cpp.
--
-- A method runs under the mutex of what it changes, so it is one step, and interleavings are sequences
-- of steps. The loops are recursions on the lists that they visit; that of the round robin scheduler,
-- which counts to the size of its map, recurs on the rounds that are left. Undefined behaviour and
-- exceptions are a `none` result. The host is little-endian. Texts that are only compared, ids and
-- addresses, are numbers. Outside code is a parameter: `drand48` gives values in [0, 1), `std::sort`
-- and the strategies give some list, and the float product of `Replenish` some number.
--
-- A message that is built is written into the memory `fresh`, and a new channel over the memory of one.
-- The ids of an address with another port, `with_port`, are a parameter too. A loop without an end is
-- given by its round.
--
-- Not modelled: sockets, sessions, threads, log files, printing and command lines, which are calls of
-- the operating system and of boost; `Ping` and `ConnectToBootstrap` of src/client/client.cpp;
-- the strategies; the list of timers; the statistics; and `AddPeer` of a peer list.
pub mod Base
pub mod ChunkUniqueId
pub mod Message
pub mod Messages
pub mod PeerData
pub mod PeerManager
pub mod Request
pub mod Scheduler
pub mod LeakyBucket
pub mod MediaBuffer
pub mod Channel
pub mod Bootstrap
pub mod Connector
pub mod Client
