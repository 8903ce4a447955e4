-- ===== src/Bootstrap/Admitted.antt =====
-- What `HandleChannelMessage` of src/bootstrap/bootstrap.cpp does with a peer that it lets in.
use tvpp_dev_base.Base.{
  ℕ, ◌≤◌, ◌≡◌, ◌≢◌, ap, sym, ◌∙◌, Bool, true, some, List, [], ◌∷◌, length, arith,
}
use tvpp_dev_base.Base.Maps.{find, find-assign}
use tvpp_dev_base.PeerData.{Peer, PeerData}
use tvpp_dev_base.Channel.{Channel, has_peer}
use tvpp_dev_base.Channel.Selection.{
  All, IsOther, HasSize, size_for, minimum_for, Keeps, select_peer_list-eligible,
}
use tvpp_dev_base.Bootstrap.{
  Bootstrap, Config, Address, ChannelRequest, source_peer, ShareReply, Reply, share_reply,
  shared_peer, set_channel, handle_channel_request,
}
use tvpp_dev_base.Bootstrap.Valid.{
  IsValid, created, server_entry, find-created, created-IsValidChannel, connect_channel_cases,
  found-has_peer, shared_peer-id,
}
use tvpp_dev_base.Bootstrap.Replies.{
  Strategies, IsShared, Outcome, refused, opened, joined, request-Outcome,
}

-- Peers with another id.
abbrev pub AreOthers : ℕ → List PeerData → Type 0
AreOthers k ds = All (λ d. (q : Peer) × (d.peer ≡ some q) × (k ≢ q.id)) ds

-- A strategy that adds no peers, whomever it selects for.
abbrev pub AreKeeping : Strategies → Type 1
AreKeeping strategy = (p : Peer) (n : ℕ) → Keeps (strategy p n)

others_of :
    (src : Peer) (v separated : Bool) (n n_free k : ℕ) (ds : List PeerData)
    → src.id ≡ k
    → All
        (λ d.
          IsOther src v d × HasSize (size_for src separated) (minimum_for src separated n n_free) d)
        ds
    → AreOthers k ds
others_of src v separated n n_free k [] e a = tt
others_of src v separated n n_free k (d ∷ ds) e a =
    let other = a.0.0 in
    ((other.0, other.1, λ f. other.2 (e ∙ f)), others_of src v separated n n_free k ds e a.1)

-- What the reply of a server says, and the server keeps, of a peer that was let in.
abbrev pub IsAdmitted : Bootstrap → ChannelRequest → ℕ → ShareReply → Bootstrap → Type 0
IsAdmitted b r peer reply b' =
    ((c : Channel) × (find b'.channel_list r.channel_id ≡ some c) × (has_peer c peer ≡ true))
    × ((k : ℕ) → k ≢ r.channel_id → find b'.channel_list k ≡ find b.channel_list k)
    × AreOthers peer reply.selected
    × (length reply.selected ≤ b.peer_list_shared_size)

shared-IsAdmitted :
    (strategy : Strategies) (cfg : Config) (b : Bootstrap) (r : ChannelRequest) (now peer : ℕ)
    (c : Channel) (source : Peer) (reply : ShareReply) (b' : Bootstrap)
    → AreKeeping strategy
    → has_peer c peer ≡ true
    → source.id ≡ peer
    → IsShared strategy cfg b r now (c, source) (share_reply reply, b')
    → IsAdmitted b r peer reply b'
shared-IsAdmitted strategy cfg b r now peer c source reply b' keeps h e
      (selected, out, free, f, o) =
    let stored : b' ≡ set_channel b r.channel_id c = ap (λ (x : Reply × Bootstrap). x.1) o in
    let same : selected ≡ reply.selected = ground (arith, o) in
    let good =
      select_peer_list-eligible (strategy source b.peer_list_shared_size) c source
        b.peer_list_shared_size cfg.isola_virtual_peer_same_ip b.minimum_bandwidth
        b.minimum_bandwidth_free cfg.separated_free_out_list selected
        (keeps source b.peer_list_shared_size) f in
    (
      rw stored (c, find-assign b.channel_list r.channel_id r.channel_id c ∙ ground arith, h),
      λ k n. rw stored (find-assign b.channel_list r.channel_id k c ∙ ground (arith, n)),
      rw (sym same) (
          others_of source cfg.isola_virtual_peer_same_ip cfg.separated_free_out_list
            b.minimum_bandwidth b.minimum_bandwidth_free peer selected e good.0),
      rw (sym same) good.1,
    )

-- A peer that gets a list of peers, from a valid server with a strategy that adds none, is then in its
-- channel and no other channel has changed; the list has other peers only, and no more than the server
-- shares.
pub handle_channel_request-admits :
    (strategy : Strategies) (cfg : Config) (b b' : Bootstrap) (fresh : Channel) (now : ℕ)
    (a : Address) (r : ChannelRequest) (reply : ShareReply)
    → handle_channel_request strategy cfg b fresh now a r ≡ some (share_reply reply, b')
    → IsValid b
    → AreKeeping strategy
    → IsAdmitted b r (source_peer a r).id reply b'
handle_channel_request-admits strategy cfg b b' fresh now a r reply e v keeps =
    by_outcome (request-Outcome strategy cfg b fresh now a r (share_reply reply, b') e)
  where
    by_outcome :
        Outcome strategy cfg b now (source_peer a r) r (share_reply reply, b')
        → IsAdmitted b r (source_peer a r).id reply b'
    by_outcome (refused code h o) = absurd (ground (arith, o))
    by_outcome (opened f s) =
        let p = source_peer a r in
        let c = created cfg b now r.channel_id p in
        let valid = created-IsValidChannel cfg b now r.channel_id p in
        shared-IsAdmitted strategy cfg b r now p.id c (shared_peer c p) reply b' keeps
          (found-has_peer c p.id (server_entry b p) valid.tidy.1
            (find-created cfg b now r.channel_id p))
          (shared_peer-id c p valid.tidy.1) s
    by_outcome (joined c made f g s) =
        let p = source_peer a r in
        let done = connect_channel_cases b c p made g (v.channels r.channel_id c f) in
        shared-IsAdmitted strategy cfg b r now p.id made.0 made.1 reply b' keeps done.1 done.2 s
