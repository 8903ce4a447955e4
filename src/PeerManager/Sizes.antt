-- ===== src/PeerManager/Sizes.antt =====
-- The counts and the change of a limit in src/client/PeerManager.cpp.
use tvpp_dev_base.Base.{
  ℕ, zero, suc, ◌+◌, leb, if◌then◌else◌, Option, none, some, List, [], ◌∷◌, length,
}
use tvpp_dev_base.Base.Int.{ℤ, pos, negsuc}
use tvpp_dev_base.Base.Sets.{contains, insert}
use tvpp_dev_base.PeerData.{get_pair}
use tvpp_dev_base.PeerManager.{
  ins, Which, PeerManager, get_max_active_peers, set_max_active_peers, active, set_active, entry,
}

-- The members of a set that are not in another, as the loops of `GetPeerActiveSizeTotal` count them.
unfoldable pub count_outside : List ℕ → List ℕ → ℕ
count_outside t [] = 0
count_outside t (k ∷ s) = (if contains k t then 0 else 1) + count_outside t s

unfoldable pub get_peer_active_size_total : PeerManager → ℕ
unfolding count_outside
get_peer_active_size_total p =
    length p.active_in
    + count_outside p.active_in p.active_out
    + count_outside p.active_in p.active_out_free

-- The pairs of the members of an active set.
unfoldable pub pairs : PeerManager → List ℕ → Option (List (ℕ × ℕ))
pairs p [] = some []
pairs p (k ∷ s) = elim (get_pair (entry (p.peer_list k))) [
  | none ↦ none
  | some a ↦ elim (pairs p s) [ none ↦ none | some rest ↦ some (a ∷ rest) ]
]

-- The loop that fills the set again with the first `n` of the sorted vector.
unfoldable pub insert_first : ℕ → List (ℕ × ℕ) → List ℕ → List ℕ
insert_first zero v s = s
insert_first (suc n) [] s = s
insert_first (suc n) ((k, sent) ∷ v) s = insert_first n v (insert k s)

-- `SetNewMMaxActivePeersOut`; `sort` is `std::sort` by the chunks sent, the most first.
unfoldable pub set_new_max_out :
    (List (ℕ × ℕ) → List (ℕ × ℕ)) → PeerManager → ℤ → Which → Option PeerManager
set_new_max_out sort p (negsuc n) w = some p
set_new_max_out sort p (pos n) ins = some p
set_new_max_out sort p (pos n) w =
    if leb (get_max_active_peers p w) n
    then some (set_max_active_peers p w n)
    else elim (pairs p (active p w)) [
      | none ↦ none
      | some v ↦ some (set_active (set_max_active_peers p w n) w (insert_first n (sort v) []))
    ]
