-- ===== src/Channel/Renew/Tidy.antt =====
-- `RenewOUTALL` of src/common/Channel.cpp keeps the members of a channel.
use tvpp_dev_base.Base.{
  ℕ, ◌≡◌, refl, ap, ◌∙◌, inl, inr, false, ◌&&◌, ◌||◌, not, ◌==◌, some, List, [], ◌∷◌, ◌++◌, arith,
  Option-cases, Bool-cases,
}
use tvpp_dev_base.Base.Int.{pos, ltb_ℤ}
use tvpp_dev_base.Base.Maps.{keys, find, assign}
use tvpp_dev_base.PeerData.{Peer, PeerData, set_peer_sent_chunks}
use tvpp_dev_base.Channel.{Channel}
use tvpp_dev_base.Channel.Named.{Entries, AreTidy, AreNamed, find-AreNamed, assign-AreTidy}
use tvpp_dev_base.Channel.Renew.{entry_of, clear_sent, sort_out, ordinary_peers, renew_out_all}
use tvpp_dev_base.Channel.Renew.Protected.{normalize_all-kept}

keys-clear_sent : (m : Entries) → keys (clear_sent m) ≡ keys m
unfolding clear_sent
keys-clear_sent [] = refl
keys-clear_sent (e ∷ m) = ap (λ ks. e.0 ∷ ks) (keys-clear_sent m)

clear_sent-AreNamed : (m : Entries) → AreNamed m → AreNamed (clear_sent m)
unfolding clear_sent set_peer_sent_chunks
clear_sent-AreNamed [] a = tt
clear_sent-AreNamed (e ∷ m) a = (a.0, clear_sent-AreNamed m a.1)

-- The loop over an entry keeps its peer.
sort_out-peer :
    (server k : ℕ) (d : PeerData) (r : PeerData × List (ℕ × ℕ))
    → sort_out server k d ≡ some r
    → r.0.peer ≡ d.peer
unfolding sort_out set_peer_sent_chunks
sort_out-peer server k d r e = elim (Option-cases d.peer) [
  | inl f ↦ absurd (ground (arith, rw (sort_out, f) at e))
  | inr (p, f) ↦
      elim (Bool-cases (
        (ltb_ℤ (pos 0) p.size_out || ltb_ℤ (pos 0) p.size_out_free)
        && (d.hit_count == 0 && not (k == server)))) [
          | inl t ↦
              let same : r ≡ (set_peer_sent_chunks d 0, (p.id, d.peer_sent_chunks) ∷ []) =
                ground (arith, rw (sort_out, f, t) at e) in
              rw same refl
          | inr t ↦
              let same : r ≡ (d, []) = ground (arith, rw (sort_out, f, t) at e) in rw same refl
        ]
]

ordinary_peers-kept :
    (server : ℕ) (m : Entries) (r : Entries × List (ℕ × ℕ))
    → ordinary_peers server m ≡ some r
    → (keys r.0 ≡ keys m) × (AreNamed m → AreNamed r.0)
unfolding ordinary_peers
ordinary_peers-kept server [] r e =
    let same : r ≡ ([], []) = ground (arith, e) in rw same (refl, λ a. a)
ordinary_peers-kept server (x ∷ m) r e = elim (Option-cases (sort_out server x.0 x.1)) [
  | inl f ↦ absurd (ground (arith, rw (ordinary_peers, f) at e))
  | inr (q, f) ↦ elim (Option-cases (ordinary_peers server m)) [
    | inl g ↦ absurd (ground (arith, rw (ordinary_peers, f, g) at e))
    | inr (t, g) ↦
        let same : r ≡ ((x.0, q.0) ∷ t.0, q.1 ++ t.1) =
          ground (arith, rw (ordinary_peers, f, g) at e) in
        let rest = ordinary_peers-kept server m t g in
        rw same (
          ap (λ ks. x.0 ∷ ks) rest.0,
          λ a. ((a.0.0, sort_out-peer server x.0 x.1 q f ∙ a.0.1, a.0.2), rest.1 a.1),
        )
  ]
]

-- A call of `RenewOUTALL` that returns keeps the server and the other settings; the ids of the entries
-- still ascend, and each entry still has the peer of its id.
pub renew_out_all-AreTidy :
    (sort : List (ℕ × ℕ) → List (ℕ × ℕ)) (c c' : Channel) (s : Peer) (d_s : PeerData)
    → renew_out_all sort c ≡ some c'
    → AreTidy c.peer_list
    → c.server ≡ some s
    → find c.peer_list s.id ≡ some d_s
    → (c'.server ≡ c.server) × AreTidy c'.peer_list
unfolding renew_out_all set_peer_sent_chunks
renew_out_all-AreTidy sort c c' s d_s e a sv f_s = elim (Bool-cases c.first_time_overlay) [
  | inl t ↦
      let same : c' ≡ record c { peer_list = clear_sent c.peer_list; first_time_overlay = false } =
        ground (arith, rw (renew_out_all, t) at e) in
      rw same (refl, (rw (keys-clear_sent c.peer_list) a.0, clear_sent-AreNamed c.peer_list a.1))
  | inr t ↦
      let d_0 = set_peer_sent_chunks d_s 0 in
      let m = assign c.peer_list s.id d_0 in
      let same_s : entry_of c.peer_list s.id ≡ d_s = ground (arith, f_s) in
      let tidy =
        assign-AreTidy c.peer_list s.id d_0 (find-AreNamed c.peer_list s.id d_s a.1 f_s) a in
      elim (Option-cases (ordinary_peers s.id m)) [
        | inl g ↦ absurd (ground (arith, rw (renew_out_all, t, sv, same_s, g) at e))
        | inr (r, g) ↦
            let done =
              normalize_all-kept c c' (sort r.1) r.0 (rw (renew_out_all, t, sv, same_s, g) at e) in
            let kept = ordinary_peers-kept s.id m r g in
            rw done.1 (refl, done.2.1 (rw kept.0 tidy.0, kept.1 tidy.1))
      ]
]
