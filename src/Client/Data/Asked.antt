-- ===== src/Client/Data/Asked.antt =====
-- What a chunk answers in `HandleDataMessage` of src/client/client.cpp: a request of the list that was put
-- to its sender.
use tvpp_dev_base.Base.{
  ℕ, ◌≡◌, refl, ap, sym, ◌∙◌, inl, inr, true, ◌==◌, ==→eq, some, List, [], ◌∷◌, ◌++◌, arith,
  Option-cases, Bool-cases,
}
use tvpp_dev_base.Base.Sets.{contains}
use tvpp_dev_base.ChunkUniqueId.{ChunkUniqueId, eq_id}
use tvpp_dev_base.Request.{Request, RequestAttempt}
use tvpp_dev_base.Client.{Client}
use tvpp_dev_base.Client.Data.{take_request, has_attempt}

-- A request for the chunk, and a list without one.
abbrev pub Names : ChunkUniqueId → Request → Type 0
Names chunk r = (r.chunk_uid.cycle ≡ chunk.cycle) × (r.chunk_uid.position ≡ chunk.position)

abbrev pub NoneNames : ChunkUniqueId → List Request → Type 0
NoneNames chunk [] = Unit {0}
NoneNames chunk (r ∷ rs) = (¬ Names chunk r) × NoneNames chunk rs

-- One of the attempts was made with the peer.
abbrev pub WasTried : List RequestAttempt → ℕ → Type 0
WasTried attempts source =
    (xs : List RequestAttempt) × (a : RequestAttempt) × (ys : List RequestAttempt) × (attempts
      ≡ xs ++ a ∷ ys)
    × (a.chosen_peer_id ≡ source)

-- The peer is an active partner of the in list, the request `r` is the first of the list for the chunk,
-- between `before` and `later`, and one of its attempts was made with that peer.
pub record IsAsked (c : Client) (source : ℕ) (chunk : ChunkUniqueId) (before : List Request)
    (r : Request) (later : List Request) : Type 0 where
  pub is_partner : contains source c.peer_manager.active_in ≡ true
  pub listed : c.request_list ≡ before ++ r ∷ later
  pub names : Names chunk r
  pub is_first : NoneNames chunk before
  pub tried : WasTried r.attempts source

eq_id-Names : (chunk : ChunkUniqueId) (r : Request) → eq_id r.chunk_uid chunk ≡ true → Names chunk r
unfolding eq_id
eq_id-Names chunk r h = ground (arith, h)

Names-eq_id : (chunk : ChunkUniqueId) (r : Request) → Names chunk r → eq_id r.chunk_uid chunk ≡ true
unfolding eq_id
Names-eq_id chunk r h = ground (arith, h.0, h.1)

-- What `take_request` takes out of the list.
pub take_request-first :
    (rs : List Request) (chunk : ChunkUniqueId) (r : Request) (rest : List Request)
    → take_request rs chunk ≡ some (r, rest)
    → (before : List Request) × (later : List Request) × (rs ≡ before ++ r ∷ later)
      × (rest ≡ before ++ later)
      × Names chunk r
      × NoneNames chunk before
unfolding take_request
take_request-first [] chunk r rest e = absurd (ground arith)
take_request-first (q ∷ rs) chunk r rest e = elim (Bool-cases (eq_id q.chunk_uid chunk)) [
  | inl t ↦
      let same : q ≡ r = ground (arith, t, e) in
      let left : rs ≡ rest = ground (arith, t, e) in
      ([], rs, rw same refl, sym left, rw same at (eq_id-Names chunk q t), tt)
  | inr t ↦ elim (Option-cases (take_request rs chunk)) [
    | inl f ↦ absurd (ground (arith, t, f, e))
    | inr ((r', rest'), f) ↦
        let same : r' ≡ r = ground (arith, t, f, e) in
        let left : rest ≡ q ∷ rest' = ground (arith, t, f, e) in
        let found = take_request-first rs chunk r rest' (rw same at f) in
        (
          q ∷ found.0,
          found.1,
          ap (λ s. q ∷ s) found.2,
          left ∙ ap (λ s. q ∷ s) found.3,
          found.4,
          (λ n. ground (arith, t, Names-eq_id chunk q n), found.5),
        )
  ]
]

pub first-take_request :
    (before later : List Request) (chunk : ChunkUniqueId) (r : Request)
    → Names chunk r
    → NoneNames chunk before
    → take_request (before ++ r ∷ later) chunk ≡ some (r, before ++ later)
unfolding take_request
first-take_request [] later chunk r n o = ground (arith, Names-eq_id chunk r n)
first-take_request (q ∷ before) later chunk r n o = elim (Bool-cases (eq_id q.chunk_uid chunk)) [
  | inl t ↦ absurd (o.0 (eq_id-Names chunk q t))
  | inr t ↦ ground (arith, t, first-take_request before later chunk r n o.1)
]

pub has_attempt-WasTried :
    (attempts : List RequestAttempt) (source : ℕ)
    → has_attempt attempts source ≡ true
    → WasTried attempts source
unfolding has_attempt
has_attempt-WasTried [] source h = absurd (ground arith)
has_attempt-WasTried (a ∷ later) source h = elim (Bool-cases (source == a.chosen_peer_id)) [
  | inl t ↦ ([], a, later, refl, sym (==→eq source a.chosen_peer_id t))
  | inr t ↦
      let found = has_attempt-WasTried later source (ground (arith, t, h)) in
      (a ∷ found.0, found.1, found.2, ap (λ s. a ∷ s) found.3, found.4)
]

has_attempt-append :
    (xs ys : List RequestAttempt) (a : RequestAttempt) (source : ℕ)
    → a.chosen_peer_id ≡ source
    → has_attempt (xs ++ a ∷ ys) source ≡ true
unfolding has_attempt
has_attempt-append [] ys a source e = ground (arith, e)
has_attempt-append (x ∷ xs) ys a source e = ground (arith, has_attempt-append xs ys a source e)

pub WasTried-has_attempt :
    (attempts : List RequestAttempt) (source : ℕ)
    → WasTried attempts source
    → has_attempt attempts source ≡ true
WasTried-has_attempt attempts source (xs, a, ys, e, h) = rw e (has_attempt-append xs ys a source h)
