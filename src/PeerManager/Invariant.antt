-- ===== src/PeerManager/Invariant.antt =====
-- What holds of the peer manager of src/client/PeerManager.cpp after any sequence of calls.
use tvpp_dev_base.Base.{ℕ, ◌≡◌, List, Bool, true, some}
use tvpp_dev_base.Base.Int.{ℤ}
use tvpp_dev_base.PeerData.{Peer}
use tvpp_dev_base.PeerManager.{
  PeerManager, Which, add_peer, connect_peer, disconnect_peer, inc_sent_chunks,
}
use tvpp_dev_base.PeerManager.Round.{check_peer_list}
use tvpp_dev_base.PeerManager.Sizes.{set_new_max_out}
use tvpp_dev_base.PeerManager.Narrowed.{Sorts}
use tvpp_dev_base.PeerManager.Sweep.{known}
use tvpp_dev_base.PeerManager.Valid.{
  IsValid, add_peer-IsValid, connect_peer-IsValid, disconnect_peer-IsValid, inc_sent_chunks-IsValid,
  check_peer_list-IsValid, set_new_max_out-IsValid,
}

-- A call of the client on the peer manager that returns. The client adds a peer to the list of known
-- peers before it connects it.
pub data Step : PeerManager → PeerManager → Type 0 where
  adds :
      {p q : PeerManager} (r : Peer) (out out_free : ℤ) (new : Bool)
      → add_peer p r out out_free ≡ some (new, q)
      → Step p q
  connects :
      {p q : PeerManager} (k : ℕ) (w : Which) (done : Bool)
      → known (p.peer_list k) k ≡ true
      → connect_peer p k w ≡ some (done, q)
      → Step p q
  disconnects : {p q : PeerManager} (k : ℕ) (w : Which) → q ≡ disconnect_peer p k w → Step p q
  counts : {p q : PeerManager} (k : ℕ) → q ≡ inc_sent_chunks p k → Step p q
  checks : {p q : PeerManager} → q ≡ check_peer_list p → Step p q
  narrows :
      {p q : PeerManager} (sort : List (ℕ × ℕ) → List (ℕ × ℕ)) (n : ℤ) (w : Which)
      → Sorts sort
      → set_new_max_out sort p n w ≡ some q
      → Step p q

pub data Reach (p : PeerManager) : PeerManager → Type 0 where
  here : Reach p p
  next : {q r : PeerManager} → Reach p q → Step q r → Reach p r

Step-IsValid : {p q : PeerManager} → Step p q → IsValid p → IsValid q
Step-IsValid {p} {q} (adds r a b t e) v = add_peer-IsValid p r a b t q e v
Step-IsValid {p} {q} (connects k w b h e) v = connect_peer-IsValid p k w b q e h v
Step-IsValid {p} (disconnects k w e) v = rw e (disconnect_peer-IsValid p k w v)
Step-IsValid {p} (counts k e) v = rw e (inc_sent_chunks-IsValid p k v)
Step-IsValid {p} (checks e) v = rw e (check_peer_list-IsValid p v)
Step-IsValid {p} {q} (narrows sort n w k e) v = set_new_max_out-IsValid sort p n w q k e v

-- After any calls of `AddPeer`, `ConnectPeer` (of a known peer), `DisconnectPeer`,
-- `Inc_peerSentChunks`, `CheckPeerList` and `SetNewMMaxActivePeersOut` that return, the sets of a valid
-- manager are still sorted and within their limits, and every active peer is known by its id; of
-- `std::sort` it is assumed that the sorted vector has no other ids.
pub Reach-IsValid : {p q : PeerManager} → Reach p q → IsValid p → IsValid q
Reach-IsValid here v = v
Reach-IsValid (next r s) v = Step-IsValid s (Reach-IsValid r v)
