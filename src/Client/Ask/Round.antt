-- ===== src/Client/Ask/Round.antt =====
-- The rounds of `MontarListaPedidos` of src/client/client.cpp and the partners.
use tvpp_dev_base.Base.{
  ℕ, ◌≡◌, refl, ◌∙◌, ◌⊎◌, inl, inr, Bool, true, false, ◌&&◌, if◌then◌else◌, some, List, [], ◌∷◌,
  ◌++◌, length, arith, Option-cases, Bool-cases,
}
use tvpp_dev_base.Base.Int.{pos, leb_ℤ}
use tvpp_dev_base.Base.Sets.{contains}
use tvpp_dev_base.PeerManager.{PeerManager}
use tvpp_dev_base.Request.{Request, set_request_ttl}
use tvpp_dev_base.Connector.Filled.{Picks}
use tvpp_dev_base.Client.{Client, Outbox}
use tvpp_dev_base.Client.Data.{put_old_request}
use tvpp_dev_base.Client.Ask.{
  Asking, sealed_request, ask_partner, ask_all, clean_requests, make_requests, add_request,
  request_round,
}
use tvpp_dev_base.Client.Ask.Sound.{CanAnswer, ask_partner-CanAnswer}
use tvpp_dev_base.Client.Dispatch.Sound.{IsSound}

-- Messages that go to members of a set.
abbrev pub GoTo : List ℕ → Outbox → Type 0
GoTo s [] = Unit {0}
GoTo s (o ∷ os) = (contains o.0 s ≡ true) × GoTo s os

GoTo-append : (s : List ℕ) (os ps : Outbox) → GoTo s os → GoTo s ps → GoTo s (os ++ ps)
GoTo-append s [] ps h g = g
GoTo-append s (o ∷ os) ps h g = (h.0, GoTo-append s os ps h.1 g)

-- What asking does: the partners stay sound, the in list is as it was, and what is sent goes to members
-- of it.
abbrev pub IsAsked : PeerManager → PeerManager → Outbox → Type 0
IsAsked p q sent = IsSound q × (q.active_in ≡ p.active_in) × GoTo p.active_in sent

-- One request of the second loop of `FazPedidos`.
ask_if-IsAsked :
    (fresh : List ℕ) (a : Asking) (is_full : Bool) (c c' : Client) (r r' : Request) (sent : Outbox)
    → (if is_full then ask_partner fresh a c r else some (r, (c, []))) ≡ some (r', (c', sent))
    → Picks a.scheduler
    → IsSound c.peer_manager
    → IsAsked c.peer_manager c'.peer_manager sent
ask_if-IsAsked fresh a true c c' r r' sent e keeps s =
    let asked = ask_partner-CanAnswer fresh a c c' r r' sent e keeps s in
    (asked.0, asked.2, goes asked.1)
  where
    goes :
        (sent ≡ [])
          ⊎ ((k : ℕ) × CanAnswer a c r k × (sent ≡ (k, sealed_request fresh c r.chunk_uid) ∷ []))
        → GoTo c.peer_manager.active_in sent
    goes (inl o) = rw o tt
    goes (inr (k, able, o)) = rw o (able.0, tt)
ask_if-IsAsked fresh a false c c' r r' sent e keeps s =
    let same : c' ≡ c = ground (arith, e) in
    let silent : sent ≡ [] = ground (arith, e) in (rw same s, rw same refl, rw silent tt)

ask_all-IsAsked :
    (fresh : List ℕ) (a : Asking) (step : ℕ) (rs rs' : List Request) (c c' : Client) (sent : Outbox)
    → ask_all fresh a step c rs ≡ some (rs', (c', sent))
    → Picks a.scheduler
    → IsSound c.peer_manager
    → IsAsked c.peer_manager c'.peer_manager sent
unfolding ask_all
ask_all-IsAsked fresh a step [] rs' c c' sent e keeps s =
    let same : c' ≡ c = ground (arith, e) in
    let silent : sent ≡ [] = ground (arith, e) in (rw same s, rw same refl, rw silent tt)
ask_all-IsAsked fresh a step (r ∷ rs) rs' c c' sent e keeps s =
    let is_full = leb_ℤ (pos 500) r.ttl && leb_ℤ r.ttl (pos 500) in
    elim (Option-cases (if is_full then ask_partner fresh a c r else some (r, (c, [])))) [
      | inl f ↦ absurd (ground (arith, rw (ask_all, f) at e))
      | inr ((asked, (c1, first)), f) ↦ elim (Option-cases (ask_all fresh a step c1 rs)) [
        | inl g ↦ absurd (ground (arith, rw (ask_all, f, g) at e))
        | inr ((rest, (c2, later)), g) ↦
            let one = ask_if-IsAsked fresh a is_full c c1 r asked first f keeps s in
            let others = ask_all-IsAsked fresh a step rs rest c1 c2 later g keeps one.0 in
            let same : c' ≡ c2 = ground (arith, rw (ask_all, f, g) at e) in
            let told : sent ≡ first ++ later = ground (arith, rw (ask_all, f, g) at e) in
            (
              rw same others.0,
              rw same (others.1 ∙ one.1),
              rw told
                  (GoTo-append c.peer_manager.active_in first later one.2 (rw one.1 at others.2)),
            )
      ]
    ]

clean_keeps : (c : Client) (rs : List Request) → (clean_requests c rs).peer_manager ≡ c.peer_manager
unfolding clean_requests
clean_keeps c [] = refl
clean_keeps c (r ∷ rs) = ground (
  arith,
  clean_keeps c rs,
  clean_keeps
      (record c {
        tries_per_request = c.tries_per_request ++ length r.attempts ∷ [];
        old_request_list =
            put_old_request c.old_request_list r.chunk_uid (set_request_ttl r (pos 500));
      })
      rs,
)

add_keeps :
    (a : Asking) (c c' : Client) (b : Bool)
    → add_request a c ≡ some (b, c')
    → c'.peer_manager ≡ c.peer_manager
unfolding add_request
add_keeps a c c' b e = ground (arith, e)

make_requests-IsAsked :
    (fresh : List ℕ) (a : Asking) (step : ℕ) (c c' : Client) (sent : Outbox)
    → make_requests fresh a step c ≡ some (c', sent)
    → Picks a.scheduler
    → IsSound c.peer_manager
    → IsAsked c.peer_manager c'.peer_manager sent
unfolding make_requests
make_requests-IsAsked fresh a step c c' sent e keeps s =
    let cleaned = clean_requests c c.request_list in
    let same_peers = clean_keeps c c.request_list in
    elim (Option-cases (ask_all fresh a step cleaned cleaned.request_list)) [
      | inl f ↦ absurd (ground (arith, rw (make_requests, f) at e))
      | inr ((asked, (c1, told)), f) ↦
          let all =
            ask_all-IsAsked fresh a step cleaned.request_list asked cleaned c1 told f keeps
              (rw same_peers s) in
          let same : c' ≡ record c1 { request_list = asked } =
            ground (arith, rw (make_requests, f) at e) in
          let outbox : sent ≡ told = ground (arith, rw (make_requests, f) at e) in
          rw (same, outbox) (rw same_peers at all)
    ]

-- A round of `MontarListaPedidos`, with a scheduler that picks from the candidates, keeps the partners
-- sound and the in list as it was, and asks only members of the in list.
pub request_round-IsAsked :
    (fresh : List ℕ) (a : Asking) (n n' : ℕ) (c c' : Client) (sent : Outbox)
    → request_round fresh a (n, c) ≡ some ((n', c'), sent)
    → Picks a.scheduler
    → IsSound c.peer_manager
    → IsAsked c.peer_manager c'.peer_manager sent
unfolding request_round
request_round-IsAsked fresh a n n' c c' sent e keeps s =
    elim (Bool-cases c.receive_request_position) [
      | inl t ↦
          let same : c' ≡ c = ground (arith, rw (request_round, t) at e) in
          let silent : sent ≡ [] = ground (arith, rw (request_round, t) at e) in
          (rw same s, rw same refl, rw silent tt)
      | inr t ↦ elim (Option-cases (add_request a c)) [
        | inl f ↦ absurd (ground (arith, rw (request_round, f, t) at e))
        | inr ((added, c1), f) ↦ elim (Option-cases (make_requests fresh a 5 c1)) [
          | inl g ↦ absurd (ground (arith, rw (request_round, f, g, t) at e))
          | inr ((c2, told), g) ↦
              let kept = add_keeps a c c1 added f in
              let asked = make_requests-IsAsked fresh a 5 c1 c2 told g keeps (rw kept s) in
              let outbox : sent ≡ told = ground (arith, rw (request_round, f, g, t) at e) in
              let same : c'.peer_manager ≡ c2.peer_manager =
                ground (arith, rw (request_round, f, g, t) at e) in
              rw (same, outbox) (rw kept at asked)
        ]
      ]
    ]
