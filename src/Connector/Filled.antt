-- ===== src/Connector/Filled.antt =====
-- What `Connect` and `Disconnect` of src/client/Temporizable do to a valid peer manager.
use tvpp_dev_base.Base.{
  ℕ, zero, suc, ◌+◌, ◌-◌, ◌%◌, ◌^◌, ◌≤◌, ◌<◌, ◌≡◌, refl, ◌⊎◌, inl, inr, true, false, ◌||◌, ltb,
  none, some, List, [], ◌∷◌, length, arith, Option-cases, Bool-cases, ltb→lt,
}
use tvpp_dev_base.Base.Sets.{contains, insert, contains-insert, length-insert}
use tvpp_dev_base.PeerData.{Peer, PeerData}
use tvpp_dev_base.PeerManager.{
  PeerManager, Which, ins, outs, outs_free, active, get_max_active_peers, is_peer_active,
  disconnect_peer, entry,
}
use tvpp_dev_base.PeerManager.Sweep.{known}
use tvpp_dev_base.PeerManager.Limits.{IsWithin}
use tvpp_dev_base.PeerManager.Connection.{connect_peer-Connected}
use tvpp_dev_base.PeerManager.Total.{connect_peer-total}
use tvpp_dev_base.PeerManager.Valid.{
  IsValid, AreKnown, members-known, connect_peer-IsValid, disconnect_peer-IsValid,
}
use tvpp_dev_base.Request.{execute_on}
use tvpp_dev_base.Connector.Room.{connect_room}
use tvpp_dev_base.Connector.{
  inactive_peers, vacancies, connect_first, connect, members_of, disconnect,
}

-- A predicate on the elements of a vector.
abbrev pub Each : (ℕ × PeerData → Type 0) → List (ℕ × PeerData) → Type 0
Each P [] = Unit {0}
Each P (e ∷ es) = P e × Each P es

-- A strategy that puts no new element into a vector.
abbrev pub Picks : (List (ℕ × PeerData) → List (ℕ × PeerData)) → Type 1
Picks strategy =
    (P : ℕ × PeerData → Type 0) (v : List (ℕ × PeerData)) → Each P v → Each P (strategy v)

-- Known peers.
abbrev pub AreKnownIds : PeerManager → List ℕ → Type 0
AreKnownIds p [] = Unit {0}
AreKnownIds p (k ∷ ks) = (known (p.peer_list k) k ≡ true) × AreKnownIds p ks

-- An element of the vector that `Connect` fills: its peer has the id, which is known and not active.
abbrev pub IsOffered : PeerManager → Which → ℕ × PeerData → Type 0
IsOffered p w e =
    (known (p.peer_list e.0) e.0 ≡ true)
    × (contains e.0 (active p w) ≡ false)
    × ((r : Peer) × (e.1.peer ≡ some r) × (r.id ≡ e.0))

pub known-peer :
    (p : PeerManager) (k : ℕ)
    → known (p.peer_list k) k ≡ true
    → (r : Peer) × ((entry (p.peer_list k)).peer ≡ some r) × (r.id ≡ k)
known-peer p k h = elim (Option-cases (p.peer_list k)) [
  | inl f ↦ absurd (ground (arith, rw f at h))
  | inr (d, f) ↦ elim (Option-cases d.peer) [
    | inl g ↦ absurd (ground (arith, rw (f, g) at h))
    | inr (r, g) ↦ rw f (r, g, ground (arith, rw (f, g) at h))
  ]
]

pub inactive_peers-IsOffered :
    (p : PeerManager) (w : Which) (ks : List ℕ)
    → AreKnownIds p ks
    → Each (IsOffered p w) (inactive_peers p w ks)
unfolding inactive_peers is_peer_active
inactive_peers-IsOffered p w [] h = tt
inactive_peers-IsOffered p w (k ∷ ks) h = elim (Bool-cases (contains k (active p w))) [
  | inl t ↦ rw t (inactive_peers-IsOffered p w ks h.1)
  | inr t ↦ rw t ((h.0, t, known-peer p k h.0), inactive_peers-IsOffered p w ks h.1)
]

abbrev pub EachId : (ℕ → Type 0) → List ℕ → Type 0
EachId P [] = Unit {0}
EachId P (k ∷ ks) = P k × EachId P ks

-- An element whose entry holds the known peer of its id, with a property of the id.
abbrev pub IsNamed : PeerManager → (ℕ → Type 0) → ℕ × PeerData → Type 0
IsNamed p P e =
    (known (p.peer_list e.0) e.0 ≡ true) × ((r : Peer) × (e.1.peer ≡ some r) × (r.id ≡ e.0)) × P e.0

pub IsNamed-on :
    (p q : PeerManager) (P : ℕ → Type 0) (es : List (ℕ × PeerData))
    → ((j : ℕ) → known (p.peer_list j) j ≡ true → known (q.peer_list j) j ≡ true)
    → Each (IsNamed p P) es
    → Each (IsNamed q P) es
IsNamed-on p q P [] f h = tt
IsNamed-on p q P (e ∷ es) f h = ((f e.0 h.0.0, h.0.1, h.0.2), IsNamed-on p q P es f h.1)

-- What a list becomes: the members that it had, and at most `n` new ones with a property.
abbrev pub Gains : ℕ → (ℕ → Type 0) → List ℕ → List ℕ → Type 0
Gains n P before after =
    (added : List ℕ) × (length added ≤ n)
    × EachId P added
    × ((j : ℕ) → contains j after ≡ (contains j added || contains j before))

Gains-more :
    (n : ℕ) (P : ℕ → Type 0) (k : ℕ) (s t u : List ℕ)
    → P k
    → (t ≡ s) ⊎ (t ≡ insert k s)
    → Gains n P t u
    → Gains (suc n) P s u
Gains-more n P k s t u h (inl e) (added, few, each, members) =
    (added, omega (arith, few), each, λ j. ground (arith, members j, e))
Gains-more n P k s t u h (inr e) (added, few, each, members) = (
  k ∷ added,
  omega (arith, few),
  (h, each),
  λ j. ground (arith, members j, e, contains-insert k j s),
)

room_left :
    (n k top top' : ℕ) (s t : List ℕ)
    → (t ≡ s) ⊎ (t ≡ insert k s)
    → top' ≡ top
    → length s + suc n ≤ top
    → length t + n ≤ top'
room_left n k top top' s t (inl e) f l = rw e (omega (arith, l, f))
room_left n k top top' s t (inr e) f l = rw e (omega (arith, l, f, length-insert k s))

connect_first-Gains :
    (P : ℕ → Type 0) (n : ℕ) (es : List (ℕ × PeerData)) (p : PeerManager) (w : Which)
    → n ≤ length es
    → length (active p w) + n ≤ get_max_active_peers p w
    → IsValid p
    → Each (IsNamed p P) es
    → (q : PeerManager) × (connect_first n es p w ≡ some q)
      × IsValid q
      × Gains n P (active p w) (active q w)
unfolding connect_first
connect_first-Gains P zero es p w l room v h = (p, refl, v, ([], omega arith, tt, λ j. refl))
connect_first-Gains P (suc n) [] p w l room v h = absurd (omega (arith, l))
connect_first-Gains P (suc n) (e ∷ es) p w l room v h =
    let (r, f, i) = h.0.1 in
    let is_known : known (p.peer_list r.id) r.id ≡ true = rw i h.0.0 in
    let (b, q, done) = connect_peer-total p r.id w v is_known in
    let step = connect_room p q r.id w b (ground (arith, room)) done in
    let later =
      connect_first-Gains P n es q w (omega (arith, l))
        (room_left n r.id (get_max_active_peers p w) (get_max_active_peers q w) (active p w)
          (active q w) step.1 step.0 room)
        (connect_peer-IsValid p r.id w b q done is_known v)
        (IsNamed-on p q P es (connect_peer-Connected p r.id w b q done).peers h.1) in
    (
      later.0,
      rw (f, done) later.1,
      later.2,
      Gains-more n P r.id (active p w) (active q w) (active later.0 w) (rw i h.0.2) step.1 later.3,
    )

pub offered-IsNamed :
    (p : PeerManager) (w : Which) (es : List (ℕ × PeerData))
    → Each (IsOffered p w) es
    → Each (IsNamed p (λ k. contains k (active p w) ≡ false)) es
offered-IsNamed p w [] h = tt
offered-IsNamed p w (e ∷ es) h = ((h.0.0, h.0.2, h.0.1), offered-IsNamed p w es h.1)

pub executed :
    (strategy : List (ℕ × PeerData) → List (ℕ × PeerData)) (P : ℕ × PeerData → Type 0)
    (v : List (ℕ × PeerData))
    → Picks strategy
    → Each P v
    → Each P (execute_on strategy v)
executed strategy P [] keeps h = tt
executed strategy P (e ∷ es) keeps h = keeps P (e ∷ es) h

within_max :
    (p : PeerManager) (w : Which) → IsWithin p → length (active p w) ≤ get_max_active_peers p w
within_max p ins h = h.ins_fit
within_max p outs h = h.outs_fit
within_max p outs_free h = h.outs_free_fit

vacancies_room :
    (p : PeerManager) (w : Which) (n : ℕ)
    → length (active p w) ≤ get_max_active_peers p w
    → get_max_active_peers p w < 2 ^ 32
    → (vacancies p w n ≤ n) × (length (active p w) + vacancies p w n ≤ get_max_active_peers p w)
unfolding vacancies
vacancies_room p w n l t =
    let top = get_max_active_peers p w in
    let size = length (active p w) in
    let free : (top + 2 ^ 32 - size) % 2 ^ 32 ≡ top - size = room_of top size l t in
    elim (Bool-cases (ltb n (top - size))) [
      | inl b ↦ rw (free, b) (omega arith, omega (arith, l, ltb→lt n (top - size) b))
      | inr b ↦ rw (free, b) (ground (arith, b), omega (arith, l))
    ]
  where
    room_of :
        (top size : ℕ) → size ≤ top → top < 2 ^ 32 → (top + 2 ^ 32 - size) % 2 ^ 32 ≡ top - size
    room_of top size l t = omega (arith, l, t)

-- `Connect` on a valid manager whose limit is an `unsigned int`, with the ids of known peers and a
-- strategy that picks from its vector, returns: the manager is valid, the list keeps every member, and
-- at most as many peers as it had vacancies join it, all of which were inactive.
pub connect-Gains :
    (strategy : ℕ → List (ℕ × PeerData) → List (ℕ × PeerData)) (ids : List ℕ) (p : PeerManager)
    (w : Which)
    → ((n : ℕ) → Picks (strategy n))
    → AreKnownIds p ids
    → IsValid p
    → get_max_active_peers p w < 2 ^ 32
    → (q : PeerManager) × (connect strategy ids p w ≡ some q)
      × IsValid q
      × Gains
          (get_max_active_peers p w - length (active p w))
          (λ k. contains k (active p w) ≡ false)
          (active p w)
          (active q w)
unfolding connect
connect-Gains strategy ids p w keeps known_ids v t =
    let peers = execute_on (strategy (get_max_active_peers p w)) (inactive_peers p w ids) in
    let fit = within_max p w v.is_within in
    let room = vacancies_room p w (length peers) fit t in
    let offered =
      executed (strategy (get_max_active_peers p w)) (IsOffered p w) (inactive_peers p w ids)
        (keeps (get_max_active_peers p w)) (inactive_peers-IsOffered p w ids known_ids) in
    let (q, done, valid, (added, few, each, members)) =
      connect_first-Gains (λ k. contains k (active p w) ≡ false) (vacancies p w (length peers))
        peers p w room.0 room.1 v (offered-IsNamed p w peers offered) in
    (q, done, valid, (added, omega (arith, few, room.1), each, members))

members-IsNamed :
    (p : PeerManager) (w : Which) (s : List ℕ)
    → ((k : ℕ) → contains k s ≡ true → contains k (active p w) ≡ true)
    → AreKnown p
    → Each (IsNamed p (λ k. contains k (active p w) ≡ true)) (members_of p s)
unfolding members_of
members-IsNamed p w [] f v = tt
members-IsNamed p w (k ∷ s) f v =
    let is_member = f k (ground arith) in
    let is_known = members-known p v w k is_member in
    (
      (is_known, known-peer p k is_known, is_member),
      members-IsNamed p w s (λ j h. f j (ground (arith, h))) v,
    )

-- `Disconnect` on a valid manager, with a strategy that picks from its vector, returns: nothing changes,
-- or one member of the list is disconnected; the manager is valid.
pub disconnect-IsValid :
    (strategy : List (ℕ × PeerData) → List (ℕ × PeerData)) (p : PeerManager) (w : Which)
    → Picks strategy
    → IsValid p
    → (q : PeerManager) × (disconnect strategy p w ≡ some q)
      × IsValid q
      × ((q ≡ p) ⊎ ((k : ℕ) × (contains k (active p w) ≡ true) × (q ≡ disconnect_peer p k w)))
unfolding disconnect
disconnect-IsValid strategy p w keeps v = first (execute_on strategy (members_of p (active p w))) (
    executed strategy (IsNamed p (λ k. contains k (active p w) ≡ true)) (members_of p (active p w))
      keeps (members-IsNamed p w (active p w) (λ k h. h) v.are_known))
  where
    first :
        (es : List (ℕ × PeerData))
        → Each (IsNamed p (λ k. contains k (active p w) ≡ true)) es
        → (q : PeerManager) × ((elim es [
          | [] ↦ some p
          | e ∷ es ↦ elim e.1.peer [ none ↦ none | some peer ↦ some (disconnect_peer p peer.id w) ]
        ])
            ≡ some q)
          × IsValid q
          × ((q ≡ p) ⊎ ((k : ℕ) × (contains k (active p w) ≡ true) × (q ≡ disconnect_peer p k w)))
    first [] h = (p, refl, v, inl refl)
    first (e ∷ es) h =
        let (r, f, i) = h.0.1 in
        (
          disconnect_peer p r.id w,
          ground (arith, f),
          disconnect_peer-IsValid p r.id w v,
          inr (r.id, rw i h.0.2, refl),
        )
