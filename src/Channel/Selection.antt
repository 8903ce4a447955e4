-- ===== src/Channel/Selection.antt =====
-- `SelectPeerList` of src/common/Channel.cpp: the peers that the bootstrap server tells a peer.
use tvpp_dev_base.Base.{
  ℕ, zero, suc, ◌≤◌, ◌<◌, ◌≡◌, refl, inl, inr, ◌≢◌, Bool, true, ◌==◌, leb, leb→le, if◌then◌else◌,
  not, ◌&&◌, ◌||◌, Option, none, some, List, [], ◌∷◌, arith, length, Option-cases, Bool-cases,
}
use tvpp_dev_base.Base.Int.{ℤ, pos, leb_ℤ, ltb_ℤ}
use tvpp_dev_base.PeerData.{Peer, PeerData, get_size_out, get_size_out_free}
use tvpp_dev_base.Channel.{Channel, other_peers, with_size, execute, first_n, select_peer_list}

abbrev pub All : (PeerData → Type 0) → List PeerData → Type 0
All P [] = Unit {0}
All P (d ∷ ds) = P d × All P ds

-- Another peer than `src`, on another IP if `virtual_peer` asks for that.
abbrev pub IsOther : Peer → Bool → PeerData → Type 0
IsOther src virtual_peer d =
    (p : Peer) × (d.peer ≡ some p)
    × (src.id ≢ p.id)
    × ((not virtual_peer || not (src.ip == p.ip)) ≡ true)

abbrev pub HasSize : (PeerData → Option ℤ) → ℕ → PeerData → Type 0
HasSize size minimum d = (n : ℤ) × (size d ≡ some n) × (leb_ℤ (pos minimum) n ≡ true)

-- The size that the request is about.
abbrev pub size_for : Peer → Bool → PeerData → Option ℤ
size_for src separated d =
    if not separated || ltb_ℤ (pos 0) src.size_out then get_size_out d else get_size_out_free d

abbrev pub minimum_for : Peer → Bool → ℕ → ℕ → ℕ
minimum_for src separated minimum minimum_free =
    if not separated || ltb_ℤ (pos 0) src.size_out then minimum else minimum_free

-- A strategy keeps the vector's elements, or drops some.
abbrev pub Keeps : (List PeerData → List PeerData) → Type 1
Keeps select = (P : PeerData → Type 0) (ds : List PeerData) → All P ds → All P (select ds)

-- What a loop of filters leaves: peers with a property, and no more than there were.
abbrev Filtered : (PeerData → Type 0) → ℕ → List PeerData → Type 0
Filtered P n ds = All P ds × (length ds ≤ n)

other_peers-IsOther :
    (src : Peer) (v : Bool) (m : List (ℕ × PeerData)) (ds : List PeerData)
    → other_peers src v m ≡ some ds
    → Filtered (IsOther src v) (length m) ds
unfolding other_peers
other_peers-IsOther src v [] ds e = ground arith
other_peers-IsOther src v (x ∷ m) ds e = elim (Option-cases x.1.peer) [
  | inl h ↦ absurd (ground (arith, rw (other_peers, h) at e))
  | inr (p, h) ↦ elim (Option-cases (other_peers src v m)) [
    | inl g ↦ absurd (ground (arith, rw (other_peers, h, g) at e))
    | inr (rest, g) ↦
        let less = other_peers-IsOther src v m rest g in
        elim (Bool-cases (not (src.id == p.id) && (not v || not (src.ip == p.ip)))) [
          | inl t ↦
              let same : ds ≡ x.1 ∷ rest = ground (arith, t, rw (other_peers, h, g) at e) in
              rw same
                (((p, h, ground (arith, t), ground (arith, t)), less.0), omega (arith, less.1))
          | inr t ↦
              let same : ds ≡ rest = ground (arith, t, rw (other_peers, h, g) at e) in
              rw same (less.0, omega (arith, less.1))
        ]
  ]
]

with_size-HasSize :
    (size : PeerData → Option ℤ) (minimum : ℕ) (P : PeerData → Type 0) (ds es : List PeerData)
    → with_size size minimum ds ≡ some es
    → All P ds
    → Filtered (λ d. P d × HasSize size minimum d) (length ds) es
unfolding with_size
with_size-HasSize size minimum P [] es e a =
    let nil : es ≡ [] = ground arith in rw nil (tt, omega arith)
with_size-HasSize size minimum P (d ∷ ds) es e a = elim (Option-cases (size d)) [
  | inl h ↦ absurd (ground (arith, rw (with_size, h) at e))
  | inr (n, h) ↦ elim (Option-cases (with_size size minimum ds)) [
    | inl g ↦ absurd (ground (arith, rw (with_size, h, g) at e))
    | inr (rest, g) ↦
        let less = with_size-HasSize size minimum P ds rest g a.1 in
        elim (Bool-cases (leb_ℤ (pos minimum) n)) [
          | inl t ↦
              let same : es ≡ d ∷ rest = ground (arith, t, rw (with_size, h, g) at e) in
              rw same (((a.0, (n, h, t)), less.0), omega (arith, less.1))
          | inr t ↦
              let same : es ≡ rest = ground (arith, t, rw (with_size, h, g) at e) in
              rw same (less.0, omega (arith, less.1))
        ]
  ]
]

first_n-Filtered :
    (P : PeerData → Type 0) (n : ℕ) (ds es : List PeerData)
    → first_n n ds ≡ some es
    → All P ds
    → Filtered P n es
unfolding first_n
first_n-Filtered P zero ds es e a = let nil : es ≡ [] = ground arith in rw nil (tt, omega arith)
first_n-Filtered P (suc n) [] es e a = absurd (ground arith)
first_n-Filtered P (suc n) (d ∷ ds) es e a = elim (Option-cases (first_n n ds)) [
  | inl g ↦ absurd (ground (arith, rw (first_n, g) at e))
  | inr (rest, g) ↦
      let less = first_n-Filtered P n ds rest g a.1 in
      let same : es ≡ d ∷ rest = ground (arith, rw (first_n, g) at e) in
      rw same ((a.0, less.0), omega (arith, less.1))
]

execute-All :
    (select : List PeerData → List PeerData) (P : PeerData → Type 0) (ds : List PeerData)
    → Keeps select
    → All P ds
    → All P (execute select ds)
execute-All select P [] k a = a
execute-All select P (d ∷ ds) k a = k P (d ∷ ds) a

-- The two filters together.
eligible-Filtered :
    (src : Peer) (v separated : Bool) (m : List (ℕ × PeerData)) (minimum minimum_free : ℕ)
    (others ds : List PeerData)
    → other_peers src v m ≡ some others
    → (if not separated || ltb_ℤ (pos 0) src.size_out
        then with_size get_size_out minimum others
        else with_size get_size_out_free minimum_free others)
      ≡ some ds
    → Filtered
        (λ d.
          IsOther src v d
          × HasSize (size_for src separated) (minimum_for src separated minimum minimum_free) d)
        (length m)
        ds
eligible-Filtered src v separated m minimum minimum_free others ds g h =
    let few = other_peers-IsOther src v m others g in
    elim (Bool-cases (not separated || ltb_ℤ (pos 0) src.size_out)) [
      | inl t ↦
          let got =
            with_size-HasSize get_size_out minimum (IsOther src v) others ds (rw t at h) few.0 in
          rw t (got.0, omega (arith, got.1, few.1))
      | inr t ↦
          let got =
            with_size-HasSize get_size_out_free minimum_free (IsOther src v) others ds (rw t at h)
              few.0 in
          rw t (got.0, omega (arith, got.1, few.1))
    ]

-- With a strategy that adds no peers, what a call of `SelectPeerList` returns are other peers than the
-- one that asks, on other IPs where that is wanted, whose out list has at least the minimal size: that
-- of the free out list if the lists are separated and the peer that asks has no out list. They are no
-- more than were asked for.
pub select_peer_list-eligible :
    (select : List PeerData → List PeerData) (c : Channel) (src : Peer) (quantity : ℕ) (v : Bool)
    (minimum minimum_free : ℕ) (separated : Bool) (ds : List PeerData)
    → Keeps select
    → select_peer_list select c src quantity v minimum minimum_free separated ≡ some ds
    → All
        (λ d.
          IsOther src v d
          × HasSize (size_for src separated) (minimum_for src separated minimum minimum_free) d)
        ds
      × (length ds ≤ quantity)
unfolding select_peer_list
select_peer_list-eligible select c src quantity v minimum minimum_free separated ds keeps e =
    elim (Option-cases (other_peers src v c.peer_list)) [
      | inl g ↦ absurd (ground (arith, rw (select_peer_list, g) at e))
      | inr (others, g) ↦
          elim (Option-cases (
            if not separated || ltb_ℤ (pos 0) src.size_out
            then with_size get_size_out minimum others
            else with_size get_size_out_free minimum_free others)) [
              | inl h ↦ absurd (ground (arith, h, rw (select_peer_list, g) at e))
              | inr (found, h) ↦
                  let few =
                    eligible-Filtered src v separated c.peer_list minimum minimum_free others found
                      g h in
                  elim (Bool-cases (leb (length c.peer_list) quantity)) [
                    | inl t ↦
                        let same : ds ≡ found =
                          ground (arith, t, h, rw (select_peer_list, g) at e) in
                        rw same
                          (few.0, omega (arith, few.1, leb→le (length c.peer_list) quantity t))
                    | inr t ↦
                        first_n-Filtered
                          (λ d.
                            IsOther src v d
                            × HasSize (size_for src separated)
                                (minimum_for src separated minimum minimum_free) d)
                          quantity (execute select found) ds
                          (ground (arith, t, h, rw (select_peer_list, g) at e))
                          (execute-All select _ found keeps few.0)
                  ]
            ]
    ]

first_n-short : (n : ℕ) (ds : List PeerData) → length ds < n → first_n n ds ≡ none
unfolding first_n
first_n-short zero ds h = absurd (omega arith)
first_n-short (suc n) [] h = refl
first_n-short (suc n) (d ∷ ds) h = ground (arith, first_n-short n ds (omega arith))

-- In a channel with more peers than are asked for, of which fewer are eligible by the size that the flag
-- of separated lists selects, a call of `SelectPeerList` with a strategy that adds no peers copies from
-- beyond the end of the vector.
pub select_peer_list_short :
    (select : List PeerData → List PeerData) (c : Channel) (src : Peer) (quantity : ℕ)
    (v separated : Bool) (minimum minimum_free : ℕ) (others found : List PeerData)
    → other_peers src v c.peer_list ≡ some others
    → (if not separated || ltb_ℤ (pos 0) src.size_out
        then with_size get_size_out minimum others
        else with_size get_size_out_free minimum_free others)
      ≡ some found
    → length (execute select found) ≤ length found
    → length found < quantity
    → quantity < length c.peer_list
    → select_peer_list select c src quantity v minimum minimum_free separated ≡ none
unfolding select_peer_list
select_peer_list_short select c src quantity v separated minimum minimum_free others found g h k l
      n =
    ground (arith, g, h, first_n-short quantity (execute select found) (omega arith))
