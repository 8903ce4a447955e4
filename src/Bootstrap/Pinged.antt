-- ===== src/Bootstrap/Pinged.antt =====
-- What a ping does to a channel of the server of src/bootstrap/bootstrap.cpp.
use tvpp_dev_base.Base.{
  ℕ, ◌≡◌, ◌≢◌, refl, sym, ◌∙◌, inl, inr, true, ◌&&◌, ◌==◌, ==_self, some, List, arith, Option-cases,
  Bool-cases,
}
use tvpp_dev_base.Base.Maps.{find, assign, find-assign}
use tvpp_dev_base.ChunkUniqueId.{make, std_buffer_size}
use tvpp_dev_base.PeerData.{
  Peer, PeerData, ttl_max, set_mode, set_ttl_channel, set_hit_count, dec_hit_count,
  inc_peer_sent_chunks,
}
use tvpp_dev_base.Channel.{Channel, has_peer}
use tvpp_dev_base.Channel.Create.{set_server_newest_chunk_id, set_server_estimated_stream_rate}
use tvpp_dev_base.Channel.Named.{find-AreNamed}
use tvpp_dev_base.Channel.Renew.{entry_of, renew_out_all}
use tvpp_dev_base.Channel.Renew.Protected.{KeepsPairs, renew_out_all-protected}
use tvpp_dev_base.Channel.Renew.Tidy.{renew_out_all-AreTidy}
use tvpp_dev_base.Bootstrap.{Bootstrap, Config, to_int, set_channel, with_hit_count}
use tvpp_dev_base.Bootstrap.Ping.{
  PingReport, touch, touch_peer, ping_channel, count_peer, report_channel, handle_ping_in,
  handle_ping_report,
}
use tvpp_dev_base.Bootstrap.Valid.{
  IsValid, IsValidChannel, assign-IsValidChannel, has_peer-entry_of,
}

-- An entry with the full TTL.
abbrev HasFullTtl : PeerData → Type 0
HasFullTtl d = d.ttl_channel ≡ ttl_max

-- A valid channel with a peer that just gave a sign of life.
abbrev pub IsPinged : Channel → ℕ → Type 0
IsPinged c k =
    IsValidChannel c × ((d : PeerData) × (find c.peer_list k ≡ some d) × (d.ttl_channel ≡ ttl_max))

-- The entry that is written, with the peer that it had.
written-IsPinged :
    (c : Channel) (k : ℕ) (d : PeerData)
    → IsValidChannel c
    → (p : Peer) × (d.peer ≡ some p) × (p.id ≡ k)
    → HasFullTtl d
    → IsPinged (record c { peer_list = assign c.peer_list k d }) k
written-IsPinged c k d v h t = (
  assign-IsValidChannel c k d h v,
  (d, find-assign c.peer_list k k d ∙ ground (arith, ==_self k), t),
)

-- An entry of a pinged channel, with its peer and its TTL.
pinged-entry_of :
    (c : Channel) (k : ℕ)
    → IsPinged c k
    → ((p : Peer) × ((entry_of c.peer_list k).peer ≡ some p) × (p.id ≡ k))
      × HasFullTtl (entry_of c.peer_list k)
pinged-entry_of c k (v, (d, f, t)) =
    let same : entry_of c.peer_list k ≡ d = ground (arith, f) in
    rw same (find-AreNamed c.peer_list k d v.tidy.1 f, t)

touch_peer-IsPinged :
    (r : PingReport) (c : Channel) (k : ℕ)
    → IsValidChannel c
    → has_peer c k ≡ true
    → IsPinged (touch_peer r c k) k
unfolding set_mode set_ttl_channel
touch_peer-IsPinged r c k v h =
    written-IsPinged c k (touch r (entry_of c.peer_list k)) v (has_peer-entry_of c k h v.tidy.1).1
      refl

ping_channel-IsPinged :
    (r : PingReport) (c c' : Channel) (k : ℕ)
    → ping_channel r c k ≡ some c'
    → IsValidChannel c
    → has_peer c k ≡ true
    → IsPinged c' k
unfolding ping_channel set_server_newest_chunk_id set_server_estimated_stream_rate
ping_channel-IsPinged r c c' k e v h =
    let sv = v.with_server.1 in
    let touched = touch_peer-IsPinged r c k v h in
    elim (Bool-cases (k == v.with_server.0.id)) [
      | inl t ↦
          let same : c' ≡ record (touch_peer r c k) {
            server_newest_chunk_id = make r.tip_cycle r.tip_position std_buffer_size;
            server_estimated_stream_rate = r.stream_rate;
          } =
            ground (arith, rw (ping_channel, sv, t) at e) in
          rw same (record { tidy = touched.0.tidy; with_server = touched.0.with_server }, touched.1)
      | inr t ↦
          let same : c' ≡ touch_peer r c k = ground (arith, rw (ping_channel, sv, t) at e) in
          rw same touched
    ]

count_peer-IsPinged :
    (r : PingReport) (c : Channel) (k : ℕ) → IsPinged c k → IsPinged (count_peer r c k) k
unfolding inc_peer_sent_chunks dec_hit_count
count_peer-IsPinged r c k h =
    let d = entry_of c.peer_list k in
    let entry = pinged-entry_of c k h in
    written-IsPinged c k (inc_peer_sent_chunks (dec_hit_count d) (to_int r.chunks_sent)) h.0
      (entry.0.0, ground (arith, entry.0.1), entry.0.2) (ground (arith, entry.1))

hit_count-IsPinged :
    (c : Channel) (k hits : ℕ) → IsPinged c k → IsPinged (with_hit_count c k hits) k
unfolding set_hit_count
hit_count-IsPinged c k hits h =
    let entry = pinged-entry_of c k h in
    written-IsPinged c k (set_hit_count (entry_of c.peer_list k) hits) h.0 entry.0 entry.1

-- A renewal at the ping of the server.
renewed-IsPinged :
    (sort : List (ℕ × ℕ) → List (ℕ × ℕ)) (c c' : Channel) (s : Peer)
    → renew_out_all sort c ≡ some c'
    → KeepsPairs sort
    → c.server ≡ some s
    → IsPinged c s.id
    → IsPinged c' s.id
renewed-IsPinged sort c c' s e keeps sv (v, (d, f, t)) =
    let tidy = renew_out_all-AreTidy sort c c' s d e v.tidy sv f in
    let kept =
      renew_out_all-protected sort c c' s d s.id d e keeps v.tidy.0 v.tidy.1 sv f f (inl refl) in
    (
      record { tidy = tidy.1; with_server = (s, tidy.0 ∙ sv, (kept.0, kept.1)) },
      (kept.0, kept.1, kept.2.1 ∙ t),
    )

report_channel-IsPinged :
    (sort : List (ℕ × ℕ) → List (ℕ × ℕ)) (b : Bootstrap) (r : PingReport) (c c' : Channel) (k : ℕ)
    → report_channel sort b r c k ≡ some c'
    → KeepsPairs sort
    → IsPinged c k
    → IsPinged c' k
unfolding report_channel
report_channel-IsPinged sort b r c c' k e keeps h =
    let s = h.0.with_server.0 in
    let sv = h.0.with_server.1 in
    let counted = count_peer-IsPinged r c k h in
    elim (Bool-cases (s.id == k && (entry_of (count_peer r c k).peer_list k).hit_count == 0)) [
      | inl t ↦ elim (Option-cases (renew_out_all sort (count_peer r c k))) [
        | inl f ↦ absurd (ground (arith, rw (report_channel, sv, t, f) at e))
        | inr (c1, f) ↦
            let same : c' ≡ with_hit_count c1 k b.hit_count =
              ground (arith, rw (report_channel, sv, t, f) at e) in
            let at_server : s.id ≡ k = ground (arith, t) in
            let renewed =
              renewed-IsPinged sort (count_peer r c k) c1 s f keeps sv (rw at_server counted) in
            rw same (hit_count-IsPinged c1 k b.hit_count (rw (sym at_server) renewed))
      ]
      | inr t ↦
          let same : c' ≡ count_peer r c k = ground (arith, rw (report_channel, sv, t) at e) in
          rw same counted
    ]

pub handle_ping_in-IsPinged :
    (sort : List (ℕ × ℕ) → List (ℕ × ℕ)) (cfg : Config) (b : Bootstrap) (r : PingReport)
    (c c' : Channel) (k : ℕ)
    → handle_ping_in sort cfg b r c k ≡ some c'
    → KeepsPairs sort
    → IsValidChannel c
    → has_peer c k ≡ true
    → IsPinged c' k
unfolding handle_ping_in
handle_ping_in-IsPinged sort cfg b r c c' k e keeps v h = elim (Option-cases (ping_channel r c k)) [
  | inl f ↦ absurd (ground (arith, rw (handle_ping_in, f) at e))
  | inr (c1, f) ↦
      let pinged = ping_channel-IsPinged r c c1 k f v h in
      elim (Bool-cases (r.ping_type == 2 && cfg.dynamic_topology_arrangement)) [
        | inl t ↦
            report_channel-IsPinged sort b r c1 c' k (rw (handle_ping_in, f, t) at e) keeps pinged
        | inr t ↦
            let same : c' ≡ c1 = ground (arith, rw (handle_ping_in, f, t) at e) in rw same pinged
      ]
]

-- How a ping ends.
pub data PingOutcome (sort : List (ℕ × ℕ) → List (ℕ × ℕ)) (cfg : Config) (b : Bootstrap) (k : ℕ)
    (r : PingReport) (b' : Bootstrap) : Type 0 where
  ignored : b' ≡ b → PingOutcome sort cfg b k r b'
  heard :
      (c c' : Channel)
      → find b.channel_list r.channel_id ≡ some c
      → has_peer c k ≡ true
      → handle_ping_in sort cfg b r c k ≡ some c'
      → b' ≡ set_channel b r.channel_id c'
      → PingOutcome sort cfg b k r b'

pub ping-PingOutcome :
    (sort : List (ℕ × ℕ) → List (ℕ × ℕ)) (cfg : Config) (b b' : Bootstrap) (k : ℕ) (r : PingReport)
    → handle_ping_report sort cfg b k r ≡ some b'
    → PingOutcome sort cfg b k r b'
unfolding handle_ping_report
ping-PingOutcome sort cfg b b' k r e = elim (Option-cases (find b.channel_list r.channel_id)) [
  | inl f ↦ ignored (ground (arith, rw (handle_ping_report, f) at e))
  | inr (c, f) ↦ elim (Bool-cases (has_peer c k)) [
    | inr t ↦ ignored (ground (arith, rw (handle_ping_report, f, t) at e))
    | inl t ↦ elim (Option-cases (handle_ping_in sort cfg b r c k)) [
      | inl g ↦ absurd (ground (arith, rw (handle_ping_report, f, t, g) at e))
      | inr (c', g) ↦ heard c c' f t g (ground (arith, rw (handle_ping_report, f, t, g) at e))
    ]
  ]
]

-- A ping of a peer that a channel of a valid server has, handled with a sort that keeps the elements,
-- gives the peer its full TTL in a channel that is still valid, also when the ping is the server's and
-- renews the classes; the other channels are as they were.
pub handle_ping_report-alive :
    (sort : List (ℕ × ℕ) → List (ℕ × ℕ)) (cfg : Config) (b b' : Bootstrap) (k : ℕ) (r : PingReport)
    (c : Channel)
    → handle_ping_report sort cfg b k r ≡ some b'
    → KeepsPairs sort
    → IsValid b
    → find b.channel_list r.channel_id ≡ some c
    → has_peer c k ≡ true
    → ((c' : Channel) × (find b'.channel_list r.channel_id ≡ some c') × IsPinged c' k)
      × ((j : ℕ) → j ≢ r.channel_id → find b'.channel_list j ≡ find b.channel_list j)
unfolding handle_ping_report
handle_ping_report-alive sort cfg b b' k r c e keeps v f t =
    elim (Option-cases (handle_ping_in sort cfg b r c k)) [
      | inl g ↦ absurd (ground (arith, rw (handle_ping_report, f, t, g) at e))
      | inr (c', g) ↦
          let same : b' ≡ set_channel b r.channel_id c' =
            ground (arith, rw (handle_ping_report, f, t, g) at e) in
          (
            (
              c',
              rw same (
                  find-assign b.channel_list r.channel_id r.channel_id c'
                  ∙ ground (arith, ==_self r.channel_id)),
              handle_ping_in-IsPinged sort cfg b r c c' k g keeps (v.channels r.channel_id c f) t,
            ),
            λ j n. rw same (find-assign b.channel_list r.channel_id j c' ∙ ground (arith, n)),
          )
    ]
