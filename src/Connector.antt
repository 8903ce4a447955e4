-- ===== src/Connector.antt =====
-- src/client/Temporizable/Connector.cpp and Disconnector.cpp: the timers that connect known peers to a
-- list of partners, and that disconnect one. The known peers are given by their ids in the order of the
-- map, and a `PeerData*` by the key of the entry, with the entry.
pub mod Room
pub mod Filled
mod Tests
use tvpp_dev_base.Base.{
  ℕ, zero, suc, ◌+◌, ◌-◌, ◌%◌, ◌^◌, Bool, true, false, ltb, if◌then◌else◌, Option, none, some, List,
  [], ◌∷◌, length,
}
use tvpp_dev_base.PeerData.{Peer, PeerData}
use tvpp_dev_base.PeerManager.{
  PeerManager, Which, active, get_max_active_peers, is_peer_active, connect_peer, disconnect_peer,
  entry,
}
use tvpp_dev_base.Request.{execute_on}

-- The loop over the known peers.
unfoldable pub inactive_peers : PeerManager → Which → List ℕ → List (ℕ × PeerData)
inactive_peers p w [] = []
inactive_peers p w (k ∷ ks) =
    let rest = inactive_peers p w ks in
    if is_peer_active p k w then rest else (k, entry (p.peer_list k)) ∷ rest

-- The vacancies, an `unsigned int`, and no more than there are peers.
unfoldable pub vacancies : PeerManager → Which → ℕ → ℕ
vacancies p w found =
    let free = (get_max_active_peers p w + 2 ^ 32 - length (active p w)) % 2 ^ 32 in
    if ltb found free then found else free

-- The loop over the first peers of the vector. `none` is a call through a NULL peer, or past the end.
unfoldable pub connect_first : ℕ → List (ℕ × PeerData) → PeerManager → Which → Option PeerManager
connect_first zero es p w = some p
connect_first (suc n) [] p w = none
connect_first (suc n) (e ∷ es) p w = elim e.1.peer [
  | none ↦ none
  | some peer ↦ elim (connect_peer p peer.id w) [
    | none ↦ none
    | some (done, q) ↦ connect_first n es q w
  ]
]

-- `Connect`; `strategy` is what the strategy makes of the vector, for a quantity.
unfoldable pub connect :
    (ℕ → List (ℕ × PeerData) → List (ℕ × PeerData))
    → List ℕ
    → PeerManager
    → Which
    → Option PeerManager
connect strategy ids p w =
    let peers = execute_on (strategy (get_max_active_peers p w)) (inactive_peers p w ids) in
    connect_first (vacancies p w (length peers)) peers p w

-- The members of the list with their entries.
unfoldable pub members_of : PeerManager → List ℕ → List (ℕ × PeerData)
members_of p [] = []
members_of p (k ∷ ks) = (k, entry (p.peer_list k)) ∷ members_of p ks

-- `Disconnect`, which disconnects the first that the strategy leaves.
unfoldable pub disconnect :
    (List (ℕ × PeerData) → List (ℕ × PeerData)) → PeerManager → Which → Option PeerManager
disconnect strategy p w = elim (execute_on strategy (members_of p (active p w))) [
  | [] ↦ some p
  | e ∷ es ↦ elim e.1.peer [ none ↦ none | some peer ↦ some (disconnect_peer p peer.id w) ]
]
