-- ===== src/Bootstrap/Swept.antt =====
-- What a round of `CheckPeerList` of src/bootstrap/bootstrap.cpp leaves of each channel.
use tvpp_dev_base.Base.{
  ℕ, ◌≡◌, refl, ap, ◌∙◌, ◌⊎◌, inl, inr, true, false, Option, none, some, arith, Bool-cases,
}
use tvpp_dev_base.Base.Int.{ℤ, pos, negsuc, leb_ℤ, pred_ℤ}
use tvpp_dev_base.Base.Sets.{IsSorted}
use tvpp_dev_base.Base.Maps.{keys, find}
use tvpp_dev_base.PeerData.{Peer, PeerData}
use tvpp_dev_base.Channel.{Channel, check_active_peers}
use tvpp_dev_base.Channel.Expiry.{aged, check_active_peers-find, has_peer-none}
use tvpp_dev_base.Bootstrap.{Bootstrap}
use tvpp_dev_base.Bootstrap.Sweep.{check_channels, swept, check_channels-find}
use tvpp_dev_base.Bootstrap.Valid.{
  IsValid, IsValidChannel, swept-server, found-has_peer, check_active_peers-AreNamed,
}
use tvpp_dev_base.Bootstrap.Alive.{check_channels-total, server_kept}

-- No channel comes up. A channel goes if the entry of its server has a TTL of 1 or less, and else stays
-- with its server and its entries aged.
abbrev pub IsSwept : Option Channel → Option Channel → Type 0
IsSwept none after = after ≡ none
IsSwept (some c) after =
    (s : Peer) × (d : PeerData) × (c.server ≡ some s)
    × (find c.peer_list s.id ≡ some d)
    × (((leb_ℤ d.ttl_channel (pos 1) ≡ true) × (after ≡ none))
        ⊎ ((leb_ℤ d.ttl_channel (pos 1) ≡ false)
            × ((c' : Channel) × (after ≡ some c')
                × (c'.server ≡ some s)
                × ((j : ℕ) → find c'.peer_list j ≡ aged (find c.peer_list j)))))

last_round : (t : ℤ) → leb_ℤ (pred_ℤ t) (pos 0) ≡ leb_ℤ t (pos 1)
last_round (pos n) = ground arith
last_round (negsuc n) = ground arith

swept-IsSwept : (c : Channel) → IsValidChannel c → IsSwept (some c) (swept (some c))
swept-IsSwept c v =
    let (s, sv, (d, f)) = v.with_server in
    let aging = (check_active_peers-find c s.id v.tidy.0).0 ∙ ap aged f in
    elim (Bool-cases (leb_ℤ d.ttl_channel (pos 1))) [
      | inl t ↦
          let gone : find (check_active_peers c).peer_list s.id ≡ none =
            aging ∙ ground (arith, last_round d.ttl_channel, t) in
          (
            s,
            d,
            sv,
            f,
            inl (
              t,
              swept-server c s sv ∙ ground (arith, has_peer-none (check_active_peers c) s.id gone),
            ),
          )
      | inr t ↦
          let kept = aging ∙ still d t in
          let here =
            found-has_peer (check_active_peers c) s.id _ (check_active_peers-AreNamed c v.tidy.1)
              kept in
          (
            s,
            d,
            sv,
            f,
            inr (
              t,
              (
                check_active_peers c,
                swept-server c s sv ∙ ground (arith, here),
                server_kept c ∙ sv,
                λ j. (check_active_peers-find c j v.tidy.0).0,
              ),
            ),
          )
    ]
  where
    still :
        (d : PeerData)
        → leb_ℤ d.ttl_channel (pos 1) ≡ false
        → aged (some d) ≡ some (record d { ttl_channel = pred_ℤ d.ttl_channel })
    still d t = ground (arith, last_round d.ttl_channel, t)

-- A round of `CheckPeerList` on a valid server returns. At each id: where there was no channel there is
-- none; a channel is removed if the TTL of its server's entry was 1 or less; and else it stays with its
-- server, one taken from the TTL of each entry, and those gone whose TTL was 1 or less. The channels' ids
-- still ascend.
pub check_channels-IsSwept :
    (b : Bootstrap) (k : ℕ)
    → IsValid b
    → (b' : Bootstrap) × (check_channels b ≡ some b')
      × IsSwept (find b.channel_list k) (find b'.channel_list k)
      × IsSorted (keys b'.channel_list)
check_channels-IsSwept b k v =
    let (b', e) = check_channels-total b v in
    let (same, sorted) = check_channels-find b b' k e v.sorted in
    (b', e, rw same (by_entry (find b.channel_list k) refl), sorted)
  where
    by_entry : (o : Option Channel) → find b.channel_list k ≡ o → IsSwept o (swept o)
    by_entry none f = refl
    by_entry (some c) f = swept-IsSwept c (v.channels k c f)
