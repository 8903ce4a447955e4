-- ===== src/Bootstrap/Invariant.antt =====
-- The server of src/bootstrap/bootstrap.cpp over any sequence of messages and rounds of its clock.
use tvpp_dev_base.Base.{ℕ, ◌≡◌, inl, inr, ◌==◌, Option, some, List, arith, Option-cases, Bool-cases}
use tvpp_dev_base.Message.{get_opcode}
use tvpp_dev_base.PeerData.{Peer}
use tvpp_dev_base.Channel.{Channel}
use tvpp_dev_base.Channel.Renew.Protected.{KeepsPairs}
use tvpp_dev_base.Bootstrap.{
  Bootstrap, Config, Address, Reply, ChannelRequest, source_peer, channel_request, shared_peer,
  handle_channel_request, handle_tcp_message,
}
use tvpp_dev_base.Bootstrap.Ping.{PingReport, ping_report, handle_udp_message}
use tvpp_dev_base.Bootstrap.Sweep.{check_channels}
use tvpp_dev_base.Bootstrap.Valid.{
  IsValid, IsValidChannel, set_channel-IsValid, created, created-IsValidChannel,
  connect_channel_cases, check_channels-IsValid,
}
use tvpp_dev_base.Bootstrap.Replies.{
  Strategies, IsShared, Outcome, refused, opened, joined, request-Outcome,
}
use tvpp_dev_base.Bootstrap.Pinged.{
  PingOutcome, ignored, heard, ping-PingOutcome, handle_ping_in-IsPinged,
}

shared-IsValid :
    (strategy : Strategies) (cfg : Config) (b : Bootstrap) (r : ChannelRequest) (now : ℕ)
    (made : Channel × Peer) (o : Reply × Bootstrap)
    → IsShared strategy cfg b r now made o
    → IsValid b
    → IsValidChannel made.0
    → IsValid o.1
shared-IsValid strategy cfg b r now made o s v h =
    rw s.4 (set_channel-IsValid b r.channel_id made.0 v h)

outcome-IsValid :
    (strategy : Strategies) (cfg : Config) (b : Bootstrap) (now : ℕ) (p : Peer) (r : ChannelRequest)
    (o : Reply × Bootstrap)
    → Outcome strategy cfg b now p r o
    → IsValid b
    → IsValid o.1
outcome-IsValid strategy cfg b now p r o (refused code h e) v = rw e v
outcome-IsValid strategy cfg b now p r o (opened f s) v =
    let c = created cfg b now r.channel_id p in
    shared-IsValid strategy cfg b r now (c, shared_peer c p) o s v
      (created-IsValidChannel cfg b now r.channel_id p)
outcome-IsValid strategy cfg b now p r o (joined c made f g s) v =
    shared-IsValid strategy cfg b r now made o s v
      (connect_channel_cases b c p made g (v.channels r.channel_id c f)).0

pub handle_channel_request-IsValid :
    (strategy : Strategies) (cfg : Config) (b : Bootstrap) (fresh : Channel) (now : ℕ) (a : Address)
    (r : ChannelRequest) (o : Reply × Bootstrap)
    → handle_channel_request strategy cfg b fresh now a r ≡ some o
    → IsValid b
    → IsValid o.1
handle_channel_request-IsValid strategy cfg b fresh now a r o e v =
    outcome-IsValid strategy cfg b now (source_peer a r) r o
      (request-Outcome strategy cfg b fresh now a r o e) v

ping-IsValid :
    (sort : List (ℕ × ℕ) → List (ℕ × ℕ)) (cfg : Config) (b b' : Bootstrap) (k : ℕ) (r : PingReport)
    → PingOutcome sort cfg b k r b'
    → KeepsPairs sort
    → IsValid b
    → IsValid b'
ping-IsValid sort cfg b b' k r (ignored e) keeps v = rw e v
ping-IsValid sort cfg b b' k r (heard c c' f t g e) keeps v = rw e (
    set_channel-IsValid b r.channel_id c' v
      (handle_ping_in-IsPinged sort cfg b r c c' k g keeps (v.channels r.channel_id c f) t).0)

-- A step of the server: a message over TCP or UDP, or a round of the clock.
pub data Step (strategy : Strategies) (sort : List (ℕ × ℕ) → List (ℕ × ℕ)) (cfg : Config)
    (b b' : Bootstrap) : Type 0 where
  tcp :
      (fresh : Channel) (now : ℕ) (a : Address) (m : List ℕ) (reply : Option Reply)
      → handle_tcp_message strategy cfg b fresh now a m ≡ some (reply, b')
      → Step strategy sort cfg b b'
  udp :
      (source : ℕ) (m : List ℕ)
      → handle_udp_message sort cfg b source m ≡ some b'
      → Step strategy sort cfg b b'
  round : check_channels b ≡ some b' → Step strategy sort cfg b b'

pub data Reach (strategy : Strategies) (sort : List (ℕ × ℕ) → List (ℕ × ℕ)) (cfg : Config)
    (s : Bootstrap) : Bootstrap → Type 0 where
  here : Reach strategy sort cfg s s
  next :
      {b b' : Bootstrap}
      → Reach strategy sort cfg s b
      → Step strategy sort cfg b b'
      → Reach strategy sort cfg s b'

tcp-IsValid :
    (strategy : Strategies) (cfg : Config) (b b' : Bootstrap) (fresh : Channel) (now : ℕ)
    (a : Address) (m : List ℕ) (reply : Option Reply)
    → handle_tcp_message strategy cfg b fresh now a m ≡ some (reply, b')
    → IsValid b
    → IsValid b'
unfolding handle_tcp_message
tcp-IsValid strategy cfg b b' fresh now a m reply e v = elim (Bool-cases (get_opcode m == 0)) [
  | inl t ↦
      elim (Option-cases (handle_channel_request strategy cfg b fresh now a (channel_request m))) [
        | inl f ↦ absurd (ground (arith, rw (handle_tcp_message, t, f) at e))
        | inr (o, f) ↦
            let same : b' ≡ o.1 = ground (arith, rw (handle_tcp_message, t, f) at e) in
            rw same
              (handle_channel_request-IsValid strategy cfg b fresh now a (channel_request m) o f v)
      ]
  | inr t ↦ let same : b' ≡ b = ground (arith, rw (handle_tcp_message, t) at e) in rw same v
]

udp-IsValid :
    (sort : List (ℕ × ℕ) → List (ℕ × ℕ)) (cfg : Config) (b b' : Bootstrap) (k : ℕ) (m : List ℕ)
    → handle_udp_message sort cfg b k m ≡ some b'
    → KeepsPairs sort
    → IsValid b
    → IsValid b'
unfolding handle_udp_message
udp-IsValid sort cfg b b' k m e keeps v = elim (Bool-cases (get_opcode m == 2)) [
  | inl t ↦
      ping-IsValid sort cfg b b' k (ping_report m)
        (ping-PingOutcome sort cfg b b' k (ping_report m) (rw (handle_udp_message, t) at e)) keeps v
  | inr t ↦ let same : b' ≡ b = ground (arith, rw (handle_udp_message, t) at e) in rw same v
]

-- A server that any messages and rounds of the clock reach from a valid one is valid: the channels and
-- the entries of each are in order, each entry has the peer of its id, and each channel has its server
-- among its entries.
pub Reach-IsValid_server :
    (strategy : Strategies) (sort : List (ℕ × ℕ) → List (ℕ × ℕ)) (cfg : Config) (s b : Bootstrap)
    → Reach strategy sort cfg s b
    → KeepsPairs sort
    → IsValid s
    → IsValid b
Reach-IsValid_server strategy sort cfg s b here keeps v = v
Reach-IsValid_server strategy sort cfg s b (next {b = a} r (tcp fresh now from m reply e)) keeps v =
    tcp-IsValid strategy cfg a b fresh now from m reply e
      (Reach-IsValid_server strategy sort cfg s a r keeps v)
Reach-IsValid_server strategy sort cfg s b (next {b = a} r (udp source m e)) keeps v =
    udp-IsValid sort cfg a b source m e keeps (Reach-IsValid_server strategy sort cfg s a r keeps v)
Reach-IsValid_server strategy sort cfg s b (next {b = a} r (round e)) keeps v =
    check_channels-IsValid a b (Reach-IsValid_server strategy sort cfg s a r keeps v) e
