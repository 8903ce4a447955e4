-- ===== src/PeerManager.antt =====
-- src/client/PeerManager.hpp and PeerManager.cpp: the peers that a client knows, the lists of its
-- active partners, and the cooldown of those that it left. A method runs under the mutex of what it
-- changes, so it is one step here. A map is a function from ids, a set a sorted list, and a
-- `set<string>*` the list that it points to. `none` as a result is a call through a NULL peer.
pub mod Sizes
pub mod Round
pub mod Valid
pub mod Named
pub mod Invariant
pub mod Limits
pub mod Connection
pub mod Sweep
pub mod Check
pub mod Written
pub mod Narrowed
pub mod Total
pub mod Cooldown
pub mod Entries
mod Tests
use tvpp_dev_base.Base.{
  ℕ, zero, suc, ◌+◌, ◌-◌, ◌%◌, ◌^◌, Bool, true, false, ◌&&◌, ◌||◌, not, ltb, leb, ◌==◌,
  if◌then◌else◌, Option, none, some, List, [], ◌∷◌, length,
}
use tvpp_dev_base.Base.Int.{ℤ, pos, negsuc, ltb_ℤ, leb_ℤ}
use tvpp_dev_base.Base.Sets.{contains, insert, erase, union, eq_set}
use tvpp_dev_base.PeerData.{
  Peer, PeerData, ttl_max, make_peer_data, set_ttl_in, set_ttl_out, get_ttl_out, dec_ttl_in,
  dec_ttl_out, set_size_out, set_size_out_free, get_size_out, get_size_out_free, get_pair,
  inc_peer_sent_chunks,
}

-- The list that a pointer names.
pub data Which : Type 0 where
  ins outs outs_free : Which

pub record PeerManager : Type 0 where
  pub max_in : ℕ
  pub max_out : ℕ
  pub max_out_free : ℕ
  pub out_limit : ℕ
  pub peer_list : ℕ → Option PeerData
  pub active_in : List ℕ
  pub active_out : List ℕ
  pub active_out_free : List ℕ
  pub cooldown_in : ℕ → Option ℕ
  pub cooldown_out : ℕ → Option ℕ
  pub cooldown_out_free : ℕ → Option ℕ
  pub remove_worse : Bool

-- PEER_ACTIVE_COOLDOWN
abbrev pub peer_active_cooldown : ℕ
peer_active_cooldown = 5

abbrev pub get_max_active_peers : PeerManager → Which → ℕ
get_max_active_peers p ins = p.max_in
get_max_active_peers p outs = p.max_out
get_max_active_peers p outs_free = p.max_out_free

abbrev pub set_max_active_peers : PeerManager → Which → ℕ → PeerManager
set_max_active_peers p ins n = record p { max_in = n }
set_max_active_peers p outs n = record p { max_out = n }
set_max_active_peers p outs_free n = record p { max_out_free = n }

-- The set and the cooldown map behind a pointer.
abbrev pub active : PeerManager → Which → List ℕ
active p ins = p.active_in
active p outs = p.active_out
active p outs_free = p.active_out_free

abbrev pub set_active : PeerManager → Which → List ℕ → PeerManager
set_active p ins s = record p { active_in = s }
set_active p outs s = record p { active_out = s }
set_active p outs_free s = record p { active_out_free = s }

abbrev pub get_cooldown : PeerManager → Which → ℕ → Option ℕ
get_cooldown p ins = p.cooldown_in
get_cooldown p outs = p.cooldown_out
get_cooldown p outs_free = p.cooldown_out_free

abbrev pub set_cooldown : PeerManager → Which → (ℕ → Option ℕ) → PeerManager
set_cooldown p ins m = record p { cooldown_in = m }
set_cooldown p outs m = record p { cooldown_out = m }
set_cooldown p outs_free m = record p { cooldown_out_free = m }

abbrev pub is_active_out_free : Which → Bool
is_active_out_free ins = false
is_active_out_free outs = false
is_active_out_free outs_free = true

abbrev pub is_in : Which → Bool
is_in ins = true
is_in outs = false
is_in outs_free = false

unfoldable pub set_max_out_free_to_be_separated : PeerManager → ℕ → PeerManager
set_max_out_free_to_be_separated p n = record p { out_limit = n }

unfoldable pub set_remove_worse_partner : PeerManager → Bool → PeerManager
set_remove_worse_partner p b = record p { remove_worse = b }

-- `GetPeerActiveOut`
abbrev pub get_peer_active_out : PeerManager → Bool → ℕ → Which
get_peer_active_out p separated_free peer_out =
    if separated_free && leb peer_out p.out_limit then outs_free else outs

-- An entry of a map, written and erased.
abbrev pub put {ℓ} : {V : Type ℓ} → (ℕ → Option V) → ℕ → Option V → ℕ → Option V
put m k v j = if j == k then v else m j

-- What `peerList[k]` refers to, which is a new entry if there is none.
abbrev pub entry : Option PeerData → PeerData
entry none = make_peer_data none
entry (some d) = d

abbrev pub set_entry : PeerManager → ℕ → PeerData → PeerManager
set_entry p k d = record p { peer_list = put p.peer_list k (some d) }

-- The two setters that `AddPeer` calls on an entry.
unfoldable pub set_sizes : PeerData → ℤ → ℤ → Option PeerData
set_sizes d out out_free = elim (set_size_out d out) [
  | none ↦ none
  | some d' ↦ set_size_out_free d' out_free
]

-- `AddPeer`: whether the peer is new. The update of a known peer tests `sizePeerListOut` for the
-- first setter only.
unfoldable pub add_peer : PeerManager → Peer → ℤ → ℤ → Option (Bool × PeerManager)
unfolding set_sizes set_size_out set_size_out_free
add_peer p new out out_free = elim (p.peer_list new.id) [
  | none ↦ elim (set_sizes (make_peer_data (some new)) out out_free) [
    | none ↦ none
    | some d ↦ some (true, set_entry p new.id d)
  ]
  | some known ↦ elim (if ltb_ℤ out (pos 0) then some known else set_size_out known out) [
    | none ↦ none
    | some d ↦ elim (set_size_out_free d out_free) [
      | none ↦ none
      | some d' ↦ some (false, set_entry p new.id d')
    ]
  ]
]

-- The loop of `ConnectSpecial` over the active set: the first member whose size is the least.
unfoldable pub smaller_from : (ℕ → Option ℤ) → ℕ → List ℕ → Option ℕ
smaller_from size smaller [] = some smaller
smaller_from size smaller (k ∷ s) = elim (size k) [
  | none ↦ none
  | some n ↦ elim (size smaller) [
    | none ↦ none
    | some least ↦ smaller_from size (if ltb_ℤ n least then k else smaller) s
  ]
]

-- The size that a member of the map informed.
abbrev pub informed : (PeerData → Option ℤ) → PeerManager → ℕ → Option ℤ
informed size p k = size (entry (p.peer_list k))

-- A branch of `ConnectSpecial`, by the size that it compares.
unfoldable pub replace_smaller :
    (PeerData → Option ℤ) → PeerManager → Which → ℕ → ℕ → Option (Bool × PeerManager)
replace_smaller size p w peer smaller = elim (informed size p smaller) [
  | none ↦ none
  | some least ↦ elim (informed size p peer) [
    | none ↦ none
    | some n ↦ some (
        if ltb_ℤ least n
        then (
          true,
          record (set_active p w (insert peer (erase smaller (active p w)))) {
            remove_worse = false;
          },
        )
        else (false, p))
  ]
]

unfoldable pub connect_special_by :
    (PeerData → Option ℤ) → PeerManager → ℕ → Which → List ℕ → Option (Bool × PeerManager)
connect_special_by size p peer w [] = some (false, p)
connect_special_by size p peer w (first ∷ rest) =
    elim (smaller_from (informed size p) first (first ∷ rest)) [
      | none ↦ none
      | some smaller ↦ replace_smaller size p w peer smaller
    ]

-- `ConnectSpecial`. The test compares the contents of two sets, not their addresses. (The entries
-- that `peerList[..]` makes are not kept here: a size of such an entry is a call through NULL.)
unfoldable pub connect_special : PeerManager → ℕ → Which → Option (Bool × PeerManager)
connect_special p peer w =
    if eq_set (active p w) p.active_out_free
    then connect_special_by get_size_out_free p peer w (active p w)
    else connect_special_by get_size_out p peer w (active p w)

-- The TTL that `ConnectPeer` sets, by a comparison of contents too.
unfoldable pub reset_ttl : PeerManager → ℕ → Which → PeerManager
unfolding set_ttl_in set_ttl_out
reset_ttl p peer w =
    let d = entry (p.peer_list peer) in
    if eq_set (active p w) p.active_in
    then set_entry p peer (set_ttl_in d ttl_max)
    else set_entry p peer (set_ttl_out d ttl_max (is_active_out_free w))

-- What `ConnectPeer` tries where the list has room, or not.
unfoldable pub try_insert : PeerManager → ℕ → Which → Option (Bool × PeerManager)
try_insert p peer w =
    if ltb (length (active p w)) (get_max_active_peers p w)
    then some (not (contains peer (active p w)), set_active p w (insert peer (active p w)))
    else if not (is_in w) && p.remove_worse
    then connect_special p peer w
    else some (false, p)

-- `ConnectPeer`
unfoldable pub connect_peer : PeerManager → ℕ → Which → Option (Bool × PeerManager)
connect_peer p peer w = elim (get_cooldown p w peer) [
  | some n ↦ some (false, p)
  | none ↦ elim (try_insert p peer w) [
    | none ↦ none
    | some (inserted, p') ↦ some (inserted, if inserted then reset_ttl p' peer w else p')
  ]
]

-- `DisconnectPeer`
unfoldable pub disconnect_peer : PeerManager → ℕ → Which → PeerManager
disconnect_peer p peer w =
    let q = set_active p w (erase peer (active p w)) in
    set_cooldown q w (put (get_cooldown q w) peer (some peer_active_cooldown))

-- `RemovePeer`
unfoldable pub remove_peer : PeerManager → ℕ → PeerManager
remove_peer p peer = record p { peer_list = put p.peer_list peer none }

unfoldable pub is_peer_active : PeerManager → ℕ → Which → Bool
is_peer_active p peer w = contains peer (active p w)

-- `CheckpeerActiveCooldown` at one entry: the counter falls in `unsigned int`, and 0 is erased.
abbrev pub cool : Option ℕ → Option ℕ
cool none = none
cool (some n) = let left = (n + 2 ^ 32 - 1) % 2 ^ 32 in if left == 0 then none else some left

unfoldable pub check_cooldown : PeerManager → Which → PeerManager
check_cooldown p w = set_cooldown p w (λ k. cool (get_cooldown p w k))

-- `Inc_peerSentChunks`, which calls the method of the entry with its default argument.
unfoldable pub inc_sent_chunks : PeerManager → ℕ → PeerManager
unfolding inc_peer_sent_chunks
inc_sent_chunks p peer = elim (p.peer_list peer) [
  | none ↦ p
  | some d ↦ set_entry p peer (inc_peer_sent_chunks d (pos 1))
]
