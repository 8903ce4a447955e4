-- ===== src/Client/Ask/Sound.antt =====
-- The requests of src/client/client.cpp and the partners that they go to.
use tvpp_dev_base.Base.{
  ℕ, ◌+◌, ◌≡◌, refl, ◌⊎◌, inl, inr, Bool, true, ◌==◌, if◌then◌else◌, some, List, [], ◌∷◌, ◌++◌,
  length, arith, Option-cases, Bool-cases,
}
use tvpp_dev_base.Base.Int.{ℤ}
use tvpp_dev_base.Base.Sets.{contains}
use tvpp_dev_base.PeerData.{Peer, PeerData}
use tvpp_dev_base.PeerManager.{PeerManager, ins, entry}
use tvpp_dev_base.PeerManager.Sweep.{known}
use tvpp_dev_base.Request.{
  Request, add_candidate, search_peers, search_from, can_answer, choose_peer, first_peer,
  execute_on, create_attempt,
}
use tvpp_dev_base.Connector.Filled.{Each, Picks, known-peer, executed}
use tvpp_dev_base.PeerManager.Valid.{AreKnown, members-known}
use tvpp_dev_base.Client.{Client, Outbox}
use tvpp_dev_base.Client.Data.{modify_peer}
use tvpp_dev_base.Client.Ask.{
  Asking, partners_from, active_partners, ask_partner, inc_pending_requests, sealed_request,
}
use tvpp_dev_base.Client.Dispatch.Sound.{IsSound, modify_peer-IsSound}

-- An active partner that can answer a request for the chunk.
abbrev pub CanAnswer : Asking → Client → Request → ℕ → Type 0
CanAnswer a c r k =
    (contains k c.peer_manager.active_in ≡ true)
    × (can_answer a.block_free_riders c.estimated_chunk_rate r.chunk_uid
          (entry (c.peer_manager.peer_list k))
        ≡ true)

-- The partners, each with its own entry.
partners_named :
    (p : PeerManager) (s : List ℕ)
    → ((k : ℕ) → contains k s ≡ true → contains k p.active_in ≡ true)
    → AreKnown p
    → Each
        (λ e.
          (known (p.peer_list e.0) e.0 ≡ true)
          × (e.1 ≡ entry (p.peer_list e.0))
          × (contains e.0 p.active_in ≡ true))
        (partners_from p s)
partners_named p [] f v = tt
partners_named p (k ∷ s) f v =
    let member = f k (ground arith) in
    (
      (members-known p v ins k member, refl, member),
      partners_named p s (λ j h. f j (ground (arith, h))) v,
    )

Each-more :
    (P : ℕ × PeerData → Type 0) (es : List (ℕ × PeerData)) (e : ℕ × PeerData)
    → Each P es
    → P e
    → Each P (es ++ e ∷ [])
Each-more P [] e h g = (g, tt)
Each-more P (d ∷ es) e h g = (h.0, Each-more P es e h.1 g)

-- What `SearchPeers` leaves of the partners.
searched :
    (block : Bool) (rate : ℤ) (P : ℕ × PeerData → Type 0) (r : Request) (es : List (ℕ × PeerData))
    → Each P es
    → Each (λ e. P e × (can_answer block rate r.chunk_uid e.1 ≡ true)) r.peers
    → Each
        (λ e. P e × (can_answer block rate r.chunk_uid e.1 ≡ true))
        (search_from block rate r es).peers
unfolding search_from add_candidate
searched block rate P r [] h g = g
searched block rate P r (e ∷ es) h g = elim (Bool-cases (can_answer block rate r.chunk_uid e.1)) [
  | inr t ↦
      let step : search_from block rate r (e ∷ es) ≡ search_from block rate r es =
        ground (arith, t) in
      rw step (searched block rate P r es h.1 g)
  | inl t ↦
      let step : search_from block rate r (e ∷ es)
          ≡ search_from block rate (add_candidate r e.0 e.1) es =
        ground (arith, t) in
      rw step (
        searched block rate P (add_candidate r e.0 e.1) es h.1 (
          Each-more (λ e. P e × (can_answer block rate r.chunk_uid e.1 ≡ true)) r.peers e g
            (h.0, t)))
]

-- The first of a vector of such partners.
first_of :
    (p : PeerManager) (block : Bool) (rate : ℤ) (r : Request) (es : List (ℕ × PeerData)) (q : Peer)
    → Each
        (λ e.
          ((known (p.peer_list e.0) e.0 ≡ true)
            × (e.1 ≡ entry (p.peer_list e.0))
            × (contains e.0 p.active_in ≡ true))
          × (can_answer block rate r.chunk_uid e.1 ≡ true))
        es
    → first_peer es ≡ some q
    → (known (p.peer_list q.id) q.id ≡ true)
      × (contains q.id p.active_in ≡ true)
      × (can_answer block rate r.chunk_uid (entry (p.peer_list q.id)) ≡ true)
first_of p block rate r [] q h f = absurd (ground (arith, f))
first_of p block rate r (e ∷ es) q h f =
    let (named, same, member) = h.0.0 in
    let (holder, g, i) = known-peer p e.0 named in
    let id : q.id ≡ e.0 = ground (arith, f, same, g, i) in rw id (named, member, rw same at (h.0.1))

-- A request that a client of sound partners makes, with a scheduler that picks from the candidates, goes
-- to an active partner of the in list that can answer it, and is sealed; if none is chosen nothing is
-- sent. The partners stay sound.
pub ask_partner-CanAnswer :
    (fresh : List ℕ) (a : Asking) (c c' : Client) (r r' : Request) (sent : Outbox)
    → ask_partner fresh a c r ≡ some (r', (c', sent))
    → Picks a.scheduler
    → IsSound c.peer_manager
    → IsSound c'.peer_manager
      × ((sent ≡ [])
          ⊎ ((k : ℕ) × CanAnswer a c r k × (sent ≡ (k, sealed_request fresh c r.chunk_uid) ∷ [])))
      × (c'.peer_manager.active_in ≡ c.peer_manager.active_in)
unfolding ask_partner choose_peer search_peers
ask_partner-CanAnswer fresh a c c' r r' sent e keeps s =
    let found =
      search_peers a.block_free_riders c.estimated_chunk_rate r (active_partners c.peer_manager) in
    let counted : Client = record c {
      requests_sent = c.requests_sent + 1;
      request_retries = if length r.attempts == 0 then c.request_retries else c.request_retries + 1;
    } in
    let candidates =
      searched a.block_free_riders c.estimated_chunk_rate _ (record r { peers = [] })
        (active_partners c.peer_manager)
        (partners_named c.peer_manager c.peer_manager.active_in (λ k h. h) s.valid.are_known) tt in
    let picked = executed a.scheduler _ found.peers keeps candidates in
    elim (Option-cases (first_peer (execute_on a.scheduler found.peers))) [
      | inl f ↦
          let same : c' ≡ counted = ground (arith, rw (ask_partner, choose_peer, f) at e) in
          let silent : sent ≡ [] = ground (arith, rw (ask_partner, choose_peer, f) at e) in
          (rw same s, inl silent, rw same refl)
      | inr (q, f) ↦
          let chosen =
            first_of c.peer_manager a.block_free_riders c.estimated_chunk_rate r
              (execute_on a.scheduler found.peers) q picked f in
          let asked = modify_peer counted q.id inc_pending_requests in
          let kept = record found { peers = execute_on a.scheduler found.peers } in
          elim (Option-cases (create_attempt kept (entry (asked.peer_manager.peer_list q.id)))) [
            | inl g ↦ absurd (ground (arith, rw (ask_partner, choose_peer, f, g) at e))
            | inr (tried, g) ↦
                let same : c' ≡ asked = ground (arith, rw (ask_partner, choose_peer, f, g) at e) in
                let told : sent ≡ (q.id, sealed_request fresh c r.chunk_uid) ∷ [] =
                  ground (arith, rw (ask_partner, choose_peer, f, g) at e) in
                (
                  rw same
                      (modify_peer-IsSound counted q.id inc_pending_requests (λ d. refl) chosen.0
                        s).0,
                  inr (q.id, (chosen.1, chosen.2), told),
                  rw same refl,
                )
          ]
    ]

create_attempt-total :
    (r : Request) (d : PeerData) (p : Peer)
    → d.peer ≡ some p
    → (r' : Request) × (create_attempt r d ≡ some r')
unfolding create_attempt
create_attempt-total r d p e = elim (Option-cases (create_attempt r d)) [
  | inl f ↦ absurd (ground (arith, rw (create_attempt, e) at f))
  | inr f ↦ f
]

-- A request that a client of sound partners makes is never put to a NULL peer.
pub ask_partner-total :
    (fresh : List ℕ) (a : Asking) (c : Client) (r : Request)
    → Picks a.scheduler
    → IsSound c.peer_manager
    → (r' : Request) × (c' : Client) × (sent : Outbox) × (ask_partner fresh a c r
        ≡ some (r', (c', sent)))
unfolding ask_partner choose_peer search_peers
ask_partner-total fresh a c r keeps s =
    let found =
      search_peers a.block_free_riders c.estimated_chunk_rate r (active_partners c.peer_manager) in
    let counted : Client = record c {
      requests_sent = c.requests_sent + 1;
      request_retries = if length r.attempts == 0 then c.request_retries else c.request_retries + 1;
    } in
    let candidates =
      searched a.block_free_riders c.estimated_chunk_rate _ (record r { peers = [] })
        (active_partners c.peer_manager)
        (partners_named c.peer_manager c.peer_manager.active_in (λ k h. h) s.valid.are_known) tt in
    let picked = executed a.scheduler _ found.peers keeps candidates in
    let kept = record found { peers = execute_on a.scheduler found.peers } in
    elim (Option-cases (first_peer (execute_on a.scheduler found.peers))) [
      | inl f ↦ (kept, counted, [], rw (ask_partner, choose_peer, f) refl)
      | inr (q, f) ↦
          let chosen =
            first_of c.peer_manager a.block_free_riders c.estimated_chunk_rate r
              (execute_on a.scheduler found.peers) q picked f in
          let asked = modify_peer counted q.id inc_pending_requests in
          let holder = known-peer c.peer_manager q.id chosen.0 in
          let held : (entry (asked.peer_manager.peer_list q.id)).peer ≡ some holder.0 =
            ground (arith, holder.1) in
          let tried =
            create_attempt-total kept (entry (asked.peer_manager.peer_list q.id)) holder.0 held in
          (
            tried.0,
            asked,
            (q.id, sealed_request fresh c r.chunk_uid) ∷ [],
            rw (ask_partner, choose_peer, f, tried.1) refl,
          )
    ]
