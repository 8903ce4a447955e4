-- ===== src/PeerManager/Cooldown.antt =====
-- The cooldown of src/client/PeerManager.cpp: a partner that was disconnected cannot be connected to
-- the same list before PEER_ACTIVE_COOLDOWN rounds of `CheckPeerList`.
use tvpp_dev_base.Base.{
  ℕ, zero, suc, ◌+◌, ◌-◌, ◌^◌, ◌<◌, ◌≡◌, ◌∙◌, false, Option, none, some, arith,
}
use tvpp_dev_base.Base.Sets.{contains, contains-erase}
use tvpp_dev_base.PeerManager.{
  PeerManager, Which, ins, outs, outs_free, active, get_cooldown, connect_peer, disconnect_peer,
  cool,
}
use tvpp_dev_base.PeerManager.Round.{check_peer_list}
use tvpp_dev_base.PeerManager.Check.{
  AreSorted, disconnect_peer-AreSorted, check_peer_list-AreSorted, check_peer_list-active,
  check_peer_list-cooldown,
}

-- `n` calls of `CheckPeerList`.
abbrev pub rounds : ℕ → PeerManager → PeerManager
rounds zero p = p
rounds (suc n) p = rounds n (check_peer_list p)

-- A peer outside a list, with its counter.
record Cooling (p : PeerManager) (k : ℕ) (w : Which) (c : Option ℕ) : Type 0 where
  sorted : AreSorted p
  outside : contains k (active p w) ≡ false
  counter : get_cooldown p w k ≡ c

check-Cooling :
    (p : PeerManager) (k : ℕ) (w : Which) (c : Option ℕ)
    → Cooling p k w c
    → Cooling (check_peer_list p) k w (cool c)
check-Cooling p k w c h = record {
  sorted = check_peer_list-AreSorted p h.sorted;
  outside = check_peer_list-active p k w h.sorted ∙ rw h.outside;
  counter = check_peer_list-cooldown p k w h.sorted ∙ rw (h.outside, h.counter);
}

cool-suc : (n : ℕ) → n < 2 ^ 16 → cool (some (suc (suc n))) ≡ some (suc n)
cool-suc n h = ground arith

rounds-Cooling :
    (n c : ℕ) (p : PeerManager) (k : ℕ) (w : Which)
    → n + c < 2 ^ 16
    → Cooling p k w (some (suc (n + c)))
    → Cooling (rounds n p) k w (some (suc c))
rounds-Cooling zero c p k w l h = let e : zero + c ≡ c = omega arith in rw e at h
rounds-Cooling (suc n) c p k w l h = rounds-Cooling n c (check_peer_list p) k w (omega arith) (
    rw (cool-suc (n + c) (omega arith)) at
      (check-Cooling p k w (some (suc (suc (n + c)))) (rw e at h)))
  where
    e : suc n + c ≡ suc (n + c)
    e = omega arith

disconnect-Cooling :
    (p : PeerManager) (k : ℕ) (w : Which)
    → AreSorted p
    → (contains k (active (disconnect_peer p k w) w) ≡ false)
      × (get_cooldown (disconnect_peer p k w) w k ≡ some 5)
unfolding disconnect_peer
disconnect-Cooling p k ins o =
    (contains-erase k k 0 p.active_in o.ins_sorted ∙ ground arith, ground arith)
disconnect-Cooling p k outs o =
    (contains-erase k k 0 p.active_out o.outs_sorted ∙ ground arith, ground arith)
disconnect-Cooling p k outs_free o =
    (contains-erase k k 0 p.active_out_free o.outs_free_sorted ∙ ground arith, ground arith)

cooling :
    (p : PeerManager) (k : ℕ) (w : Which)
    → AreSorted p
    → Cooling (disconnect_peer p k w) k w (some 5)
cooling p k w o = record {
  sorted = disconnect_peer-AreSorted p k w o;
  outside = (disconnect-Cooling p k w o).0;
  counter = (disconnect-Cooling p k w o).1;
}

connect-Cooling :
    (p : PeerManager) (k : ℕ) (w : Which) (n : ℕ)
    → get_cooldown p w k ≡ some n
    → connect_peer p k w ≡ some (false, p)
unfolding connect_peer
connect-Cooling p k w n e = rw (e, connect_peer)

-- After `DisconnectPeer` and fewer than five rounds of `CheckPeerList`, `ConnectPeer` refuses the peer
-- for the same list and changes nothing; after the fifth round the peer has no counter there.
pub cooldown_holds :
    (p : PeerManager) (k : ℕ) (w : Which) (n : ℕ)
    → AreSorted p
    → n < 5
    → let left = disconnect_peer p k w in
      (connect_peer (rounds n left) k w ≡ some (false, rounds n left))
      × (get_cooldown (rounds 5 left) w k ≡ none)
cooldown_holds p k w n o h = (
  connect-Cooling (rounds n (disconnect_peer p k w)) k w (suc (4 - n))
      (rounds-Cooling n (4 - n) (disconnect_peer p k w) k w (omega arith)
        (rw full (cooling p k w o))).counter,
  (check-Cooling (rounds 4 (disconnect_peer p k w)) k w (some 1)
      (rounds-Cooling 4 0 (disconnect_peer p k w) k w (omega arith) (cooling p k w o))).counter,
)
  where
    full : suc (n + (4 - n)) ≡ 5
    full = omega arith
