-- ===== src/Bootstrap/Alive.antt =====
-- The clock of src/bootstrap/bootstrap.cpp: a round always returns, and a channel whose server falls silent
-- goes with it.
use tvpp_dev_base.Base.{
  ℕ, zero, suc, ◌+◌, ◌-◌, ◌<◌, ◌≡◌, refl, ap, ◌∙◌, inl, inr, ◌==◌, Option, none, some, List, [],
  ◌∷◌, arith, Bool-cases, if◌then◌else◌, ==_self,
}
use tvpp_dev_base.Base.Int.{pos}
use tvpp_dev_base.Base.Sets.{Above, contains-below}
use tvpp_dev_base.Base.Maps.{keys, find, erase_each, find-missing, find-assign}
use tvpp_dev_base.PeerData.{Peer, PeerData, make_peer_data, set_hit_count}
use tvpp_dev_base.Channel.{Channel, has_peer, check_active_peers}
use tvpp_dev_base.Channel.Create.{set_indicate_class_position}
use tvpp_dev_base.Channel.Expiry.{round-stays, round-leaves, has_peer-none}
use tvpp_dev_base.Bootstrap.{
  Bootstrap, Config, Address, ChannelRequest, source_peer, ShareReply, Reply, share_reply,
  set_channel, handle_channel_request,
}
use tvpp_dev_base.Bootstrap.Sweep.{sweep_channels, check_channels, swept, check_channels-find}
use tvpp_dev_base.Bootstrap.Valid.{
  IsValid, IsValidChannel, has_server-round, swept-server, check_channels-IsValid, found-has_peer,
  check_active_peers-AreNamed, created, server_entry, find-created,
}
use tvpp_dev_base.Bootstrap.Replies.{Strategies, Outcome, refused, opened, joined, request-Outcome}
use tvpp_dev_base.Bootstrap.Invariant.{handle_channel_request-IsValid}

sweep-total :
    (b : ℕ) (m : List (ℕ × Channel))
    → Above b (keys m)
    → ((k : ℕ) (c : Channel) → find m k ≡ some c → IsValidChannel c)
    → (r : List (ℕ × Channel) × List ℕ) × (sweep_channels m ≡ some r)
unfolding sweep_channels
sweep-total b [] o v = (([], []), refl)
sweep-total b (x ∷ m) o v =
    let first = v x.0 x.1 (ground (arith, ==_self x.0)) in
    let rest = sweep-total (suc x.0) m o.1 (λ k c f. v k c (elim (Bool-cases (k == x.0)) [
      | inl y ↦ absurd (
          ground (
            arith,
            f,
            find-missing m k (contains-below k (suc x.0) (keys m) o.1 (ground (arith, y))),
          ))
      | inr y ↦ ground (arith, y, f)
    ])) in
    let stays = has_peer (check_active_peers x.1) first.with_server.0.id in
    (
      ((x.0, check_active_peers x.1) ∷ rest.0.0, if stays then rest.0.1 else x.0 ∷ rest.0.1),
      rw (sweep_channels, has_server-round x.1 first.with_server.0 first.with_server.1, rest.1)
          refl,
    )

-- A round of `CheckPeerList` on a valid server returns.
pub check_channels-total :
    (b : Bootstrap) → IsValid b → (b' : Bootstrap) × (check_channels b ≡ some b')
unfolding check_channels
check_channels-total b v =
    let done = sweep-total 0 b.channel_list v.sorted v.channels in
    (record b { channel_list = erase_each done.0.0 done.0.1 }, rw (check_channels, done.1) refl)

-- `n` rounds.
abbrev pub check_rounds : ℕ → Bootstrap → Option Bootstrap
check_rounds zero b = some b
check_rounds (suc n) b = elim (check_channels b) [ none ↦ none | some b' ↦ check_rounds n b' ]

-- A channel of the server whose own server has some rounds left.
abbrev HasLiveServer : Bootstrap → ℕ → Peer → ℕ → Type 0
HasLiveServer b id s left =
    (c : Channel) × (find b.channel_list id ≡ some c)
    × (c.server ≡ some s)
    × ((d : PeerData) × (find c.peer_list s.id ≡ some d) × (d.ttl_channel ≡ pos left))

pub server_kept : (c : Channel) → (check_active_peers c).server ≡ c.server
unfolding check_active_peers
server_kept c = refl

round_alive :
    (b b' : Bootstrap) (id t : ℕ) (s : Peer)
    → check_channels b ≡ some b'
    → IsValid b
    → HasLiveServer b id s (suc (suc t))
    → HasLiveServer b' id s (suc t)
round_alive b b' id t s e v (c, f, sv, (d, g, l)) =
    let valid = v.channels id c f in
    let stays = round-stays t c s.id d valid.tidy.0 g l in
    let here =
      found-has_peer (check_active_peers c) s.id _ (check_active_peers-AreNamed c valid.tidy.1)
        stays in
    (
      check_active_peers c,
      (check_channels-find b b' id e v.sorted).0
          ∙ ap swept f
          ∙ swept-server c s sv
          ∙ ground (arith, here),
      server_kept c ∙ sv,
      (record d { ttl_channel = pos (suc t) }, stays, refl),
    )

round_gone :
    (b b' : Bootstrap) (id : ℕ) (s : Peer)
    → check_channels b ≡ some b'
    → IsValid b
    → HasLiveServer b id s 1
    → find b'.channel_list id ≡ none
round_gone b b' id s e v (c, f, sv, (d, g, l)) =
    let valid = v.channels id c f in
    let gone = has_peer-none (check_active_peers c) s.id (round-leaves c s.id d valid.tidy.0 g l) in
    (check_channels-find b b' id e v.sorted).0
    ∙ ap swept f
    ∙ swept-server c s sv
    ∙ ground (arith, gone)

rounds_alive :
    (n t : ℕ) (b : Bootstrap) (id : ℕ) (s : Peer)
    → IsValid b
    → HasLiveServer b id s (suc (n + t))
    → (b' : Bootstrap) × (check_rounds n b ≡ some b') × IsValid b' × HasLiveServer b' id s (suc t)
rounds_alive zero t b id s v h =
    let same : suc (0 + t) ≡ suc t = omega arith in (b, refl, v, rw same at h)
rounds_alive (suc n) t b id s v h =
    let same : suc (suc n + t) ≡ suc (suc (n + t)) = omega arith in
    let once = check_channels-total b v in
    let rest =
      rounds_alive n t once.0 id s (check_channels-IsValid b once.0 v once.1)
        (round_alive b once.0 id (n + t) s once.1 v (rw same at h)) in
    (rest.0, ground (arith, once.1, rest.1), rest.2, rest.3)

rounds_gone :
    (n : ℕ) (b : Bootstrap) (id : ℕ) (s : Peer)
    → IsValid b
    → HasLiveServer b id s (suc n)
    → (b' : Bootstrap) × (check_rounds (suc n) b ≡ some b') × (find b'.channel_list id ≡ none)
rounds_gone zero b id s v h =
    let once = check_channels-total b v in
    (once.0, ground (arith, once.1), round_gone b once.0 id s once.1 v h)
rounds_gone (suc n) b id s v h =
    let once = check_channels-total b v in
    let rest =
      rounds_gone n once.0 id s (check_channels-IsValid b once.0 v once.1)
        (round_alive b once.0 id n s once.1 v h) in
    (rest.0, rw (check_rounds, once.1) rest.1, rest.2)

created_server :
    (cfg : Config) (b : Bootstrap) (now id : ℕ) (p : Peer)
    → (created cfg b now id p).server ≡ some p
unfolding set_indicate_class_position
created_server cfg b now id p = refl

server_entry_full : (b : Bootstrap) (p : Peer) → (server_entry b p).ttl_channel ≡ pos 10
unfolding set_hit_count make_peer_data
server_entry_full b p = refl

-- A channel that a request to a valid server just opened, and whose server gives no other sign of life, is
-- there through nine rounds of `CheckPeerList`, which return, and is gone after the tenth, which returns.
pub opened_channel_expires :
    (strategy : Strategies) (cfg : Config) (b b' : Bootstrap) (fresh : Channel) (now n : ℕ)
    (a : Address) (r : ChannelRequest) (reply : ShareReply)
    → handle_channel_request strategy cfg b fresh now a r ≡ some (share_reply reply, b')
    → find b.channel_list r.channel_id ≡ none
    → IsValid b
    → n < 10
    → ((bn : Bootstrap) × (check_rounds n b' ≡ some bn)
        × ((c : Channel) × (find bn.channel_list r.channel_id ≡ some c)))
      × ((bm : Bootstrap) × (check_rounds 10 b' ≡ some bm)
          × (find bm.channel_list r.channel_id ≡ none))
unfolding set_hit_count make_peer_data
opened_channel_expires strategy cfg b b' fresh now n a r reply e f v l =
    let valid =
      handle_channel_request-IsValid strategy cfg b fresh now a r (share_reply reply, b') e v in
    let alive =
      opened_alive (request-Outcome strategy cfg b fresh now a r (share_reply reply, b') e) in
    let same : 10 ≡ suc (n + (9 - n)) = omega arith in
    let lives = rounds_alive n (9 - n) b' r.channel_id (source_peer a r) valid (rw same at alive) in
    let goes = rounds_gone 9 b' r.channel_id (source_peer a r) valid alive in
    ((lives.0, lives.1, (lives.3.0, lives.3.1)), goes)
  where
    opened_alive :
        Outcome strategy cfg b now (source_peer a r) r (share_reply reply, b')
        → HasLiveServer b' r.channel_id (source_peer a r) 10
    opened_alive (refused code h o) = absurd (ground (arith, o))
    opened_alive (joined c made g h s) = absurd (ground (arith, f, g))
    opened_alive (opened g s) =
        let p = source_peer a r in
        let c = created cfg b now r.channel_id p in
        let stored : b' ≡ set_channel b r.channel_id c = ap (λ (x : Reply × Bootstrap). x.1) s.4 in
        (
          c,
          rw stored (
              find-assign b.channel_list r.channel_id r.channel_id c
              ∙ ground (arith, ==_self r.channel_id)),
          created_server cfg b now r.channel_id p,
          (server_entry b p, find-created cfg b now r.channel_id p, server_entry_full b p),
        )
