-- ===== src/Messages/Neighbors.antt =====
-- `MessagePeerlistShare` of src/common/Messages, the answer of the bootstrap server to a peer.
use tvpp_dev_base.Base.{ℕ, List, [], ◌∷◌, ◌++◌}
use tvpp_dev_base.ChunkUniqueId.{ChunkUniqueId}
use tvpp_dev_base.Messages.{peerlist_share, make_message, of_int16, peerlist_values, peers_size}

-- What `MessagePeerlistShare` tells a peer, the octets of its address by `WriteIpStringToArray`.
pub record Share : Type 0 where
  pub octet1 : ℕ
  pub octet2 : ℕ
  pub octet3 : ℕ
  pub octet4 : ℕ
  pub external_port : ℕ
  pub server_tip : ChunkUniqueId
  pub server_stream_rate : ℕ
  pub channel_creation_time : ℕ
  pub nowtime : ℕ
  pub client_time : ℕ
  pub boot_id : ℕ
  pub new_size_out : ℕ
  pub new_size_out_free : ℕ

-- PEERLIST_SHARE is 1.
abbrev pub share_values : ℕ → Share → List ℕ
share_values qtd_peers s =
    peerlist_values 1 qtd_peers
    ++ s.octet1
      ∷ s.octet2
      ∷ s.octet3
      ∷ s.octet4
      ∷ s.external_port
      ∷ s.server_tip.cycle
      ∷ s.server_tip.position
      ∷ s.server_stream_rate
      ∷ s.channel_creation_time
      ∷ s.nowtime
      ∷ s.client_time
      ∷ s.boot_id
      ∷ of_int16 s.new_size_out
      ∷ of_int16 s.new_size_out_free
      ∷ []

unfoldable pub message_peerlist_share : List ℕ → ℕ → Share → List ℕ
unfolding make_message
message_peerlist_share fresh qtd_peers s =
    make_message peerlist_share fresh (peers_size qtd_peers) (share_values qtd_peers s)
