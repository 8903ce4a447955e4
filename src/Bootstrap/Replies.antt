-- ===== src/Bootstrap/Replies.antt =====
-- The replies of `HandleChannelMessage` of src/bootstrap/bootstrap.cpp: what it refuses, and what a peer
-- gets that it lets in.
use tvpp_dev_base.Base.{
  ℕ, ◌≡◌, ◌≢◌, ◌↔◌, ap, sym, ◌∙◌, inl, inr, not, ◌==◌, none, some, List, arith, Option-cases,
  Bool-cases,
}
use tvpp_dev_base.Base.Int.{ℤ}
use tvpp_dev_base.Base.Maps.{find}
use tvpp_dev_base.PeerData.{Peer, PeerData, get_size_out, get_size_out_free}
use tvpp_dev_base.Channel.{Channel}
use tvpp_dev_base.Channel.Renew.{entry_of}
use tvpp_dev_base.Bootstrap.{
  Bootstrap, Config, Address, ChannelRequest, source_peer, Reply, error_reply, share_reply,
  reply_of, select_for, version, set_channel, shared_peer, connect_channel, share_peers,
  handle_channel_request,
}
use tvpp_dev_base.Bootstrap.Valid.{created, create_channel-created}

abbrev pub Strategies : Type 0
Strategies = Peer → ℕ → List PeerData → List PeerData

-- A reply with peers, and the channel stored.
abbrev pub IsShared :
    Strategies
    → Config
    → Bootstrap
    → ChannelRequest
    → ℕ
    → Channel × Peer
    → Reply × Bootstrap
    → Type 0
IsShared strategy cfg b r now (c, source) o =
    (selected : List PeerData) × (out : ℤ) × (out_free : ℤ) × (select_for strategy cfg b c source
      ≡ some selected)
    × (o ≡ (
      share_reply (reply_of b r now c source selected out out_free),
      set_channel b r.channel_id c,
    ))

share_peers-IsShared :
    (strategy : Strategies) (cfg : Config) (b : Bootstrap) (r : ChannelRequest) (now : ℕ)
    (made : Channel × Peer) (o : Reply × Bootstrap)
    → share_peers strategy cfg b r now made ≡ some o
    → IsShared strategy cfg b r now made o
unfolding share_peers
share_peers-IsShared strategy cfg b r now (c, source) o e =
    let d = entry_of c.peer_list source.id in
    elim (Option-cases (select_for strategy cfg b c source)) [
      | inl f ↦ absurd (ground (arith, rw (share_peers, f) at e))
      | inr (selected, f) ↦ elim (Option-cases (get_size_out d)) [
        | inl g ↦ absurd (ground (arith, rw (share_peers, f, g) at e))
        | inr (out, g) ↦ elim (Option-cases (get_size_out_free d)) [
          | inl h ↦ absurd (ground (arith, rw (share_peers, f, g, h) at e))
          | inr (out_free, h) ↦
              (selected, out, out_free, f, ground (arith, rw (share_peers, f, g, h) at e))
        ]
      ]
    ]

-- What the server refuses, with the error of the case: a wrong version, a channel that exists and is to
-- be created, one that is missing and is to be joined, and an unknown flag.
pub data IsRefused (b : Bootstrap) (r : ChannelRequest) : ℕ → Type 0 where
  unknown_version : r.version ≢ version → IsRefused b r 1
  already_there :
      r.version ≡ version
      → r.channel_flag ≡ 0
      → (c : Channel) → find b.channel_list r.channel_id ≡ some c
      → IsRefused b r 2
  not_there :
      r.version ≡ version
      → r.channel_flag ≡ 1
      → find b.channel_list r.channel_id ≡ none
      → IsRefused b r 3
  unknown_flag : r.version ≡ version → r.channel_flag ≢ 0 → r.channel_flag ≢ 1 → IsRefused b r 0

-- How a request ends: refused, with the server as it was, or with a channel made or joined and shared.
pub data Outcome (strategy : Strategies) (cfg : Config) (b : Bootstrap) (now : ℕ) (p : Peer)
    (r : ChannelRequest) (o : Reply × Bootstrap) : Type 0 where
  refused :
      (code : ℕ) → IsRefused b r code → o ≡ (error_reply code, b) → Outcome strategy cfg b now p r o
  opened :
      find b.channel_list r.channel_id ≡ none
      → IsShared strategy cfg b r now
          (created cfg b now r.channel_id p, shared_peer (created cfg b now r.channel_id p) p)
          o
      → Outcome strategy cfg b now p r o
  joined :
      (c : Channel) (made : Channel × Peer)
      → find b.channel_list r.channel_id ≡ some c
      → connect_channel b c p ≡ some made
      → IsShared strategy cfg b r now made o
      → Outcome strategy cfg b now p r o

pub request-Outcome :
    (strategy : Strategies) (cfg : Config) (b : Bootstrap) (fresh : Channel) (now : ℕ) (a : Address)
    (r : ChannelRequest) (o : Reply × Bootstrap)
    → handle_channel_request strategy cfg b fresh now a r ≡ some o
    → Outcome strategy cfg b now (source_peer a r) r o
unfolding handle_channel_request
request-Outcome strategy cfg b fresh now a r o e =
    let p = source_peer a r in
    elim (Bool-cases (not (r.version == version))) [
      | inl v ↦
          refused 1 (unknown_version (ground (arith, v)))
            (ground (arith, rw (handle_channel_request, v) at e))
      | inr v ↦ elim (Bool-cases (r.channel_flag == 0)) [
        | inl z ↦ elim (Option-cases (find b.channel_list r.channel_id)) [
          | inr (c, f) ↦
              refused 2 (already_there (ground (arith, v)) (ground (arith, z)) c f)
                (ground (arith, rw (handle_channel_request, v, z, f) at e))
          | inl f ↦ opened f (
              share_peers-IsShared strategy cfg b r now
                (created cfg b now r.channel_id p, shared_peer (created cfg b now r.channel_id p) p)
                o
                (rw
                  (
                    handle_channel_request,
                    v,
                    z,
                    f,
                    create_channel-created cfg b fresh now r.channel_id p,
                  )
                  at e))
        ]
        | inr z ↦ elim (Bool-cases (r.channel_flag == 1)) [
          | inr w ↦
              refused 0 (unknown_flag (ground (arith, v)) (ground (arith, z)) (ground (arith, w)))
                (ground (arith, rw (handle_channel_request, v, z, w) at e))
          | inl w ↦ elim (Option-cases (find b.channel_list r.channel_id)) [
            | inl f ↦
                refused 3 (not_there (ground (arith, v)) (ground (arith, w)) f)
                  (ground (arith, rw (handle_channel_request, v, z, w, f) at e))
            | inr (c, f) ↦ elim (Option-cases (connect_channel b c p)) [
              | inl g ↦ absurd (ground (arith, rw (handle_channel_request, v, z, w, f, g) at e))
              | inr (made, g) ↦ joined c made f g (
                  share_peers-IsShared strategy cfg b r now made o
                    (rw (handle_channel_request, v, z, w, f, g) at e))
            ]
          ]
        ]
      ]
    ]

refused_reply :
    (strategy : Strategies) (cfg : Config) (b : Bootstrap) (fresh : Channel) (now : ℕ) (a : Address)
    (r : ChannelRequest) (code : ℕ)
    → IsRefused b r code
    → handle_channel_request strategy cfg b fresh now a r ≡ some (error_reply code, b)
unfolding handle_channel_request
refused_reply strategy cfg b fresh now a r code (unknown_version v) = ground (arith, v)
refused_reply strategy cfg b fresh now a r code (already_there v z c g) = ground (arith, v, z, g)
refused_reply strategy cfg b fresh now a r code (not_there v w g) = ground (arith, v, w, g)
refused_reply strategy cfg b fresh now a r code (unknown_flag v z w) = ground (arith, v, z, w)

-- A request gets an error exactly when the server refuses it for that error, and is then left as it was.
pub handle_channel_request-IsRefused :
    (strategy : Strategies) (cfg : Config) (b b' : Bootstrap) (fresh : Channel) (now : ℕ)
    (a : Address) (r : ChannelRequest) (code : ℕ)
    → (handle_channel_request strategy cfg b fresh now a r ≡ some (error_reply code, b'))
      ↔ (IsRefused b r code × (b' ≡ b))
handle_channel_request-IsRefused strategy cfg b b' fresh now a r code = (
  λ e. by_outcome b' (request-Outcome strategy cfg b fresh now a r (error_reply code, b') e),
  λ h.
      refused_reply strategy cfg b fresh now a r code h.0
      ∙ ap (λ x. some (error_reply code, x)) (sym h.1),
)
  where
    by_outcome :
        (b' : Bootstrap)
        → Outcome strategy cfg b now (source_peer a r) r (error_reply code, b')
        → IsRefused b r code × (b' ≡ b)
    by_outcome b' (refused k h e) =
        let same : code ≡ k = ground (arith, e) in (rw same h, ground (arith, e))
    by_outcome b' (opened f s) = absurd (ground (arith, s.4))
    by_outcome b' (joined c made f g s) = absurd (ground (arith, s.4))
