-- ===== src/Client/Ask/Expired.antt =====
-- The expired requests of src/client/client.cpp.
use tvpp_dev_base.Base.{
  ℕ, ◌≡◌, refl, ap, ◌∙◌, inl, inr, Bool, true, false, ◌&&◌, if◌then◌else◌, List, [], ◌∷◌, ◌++◌,
  length, arith, Bool-cases,
}
use tvpp_dev_base.Base.Int.{pos, negsuc, leb_ℤ, ltb_ℤ}
use tvpp_dev_base.ChunkUniqueId.{ChunkUniqueId}
use tvpp_dev_base.Request.{Request, set_request_ttl}
use tvpp_dev_base.Client.{Client}
use tvpp_dev_base.Client.Data.{put_old_request}
use tvpp_dev_base.Client.Ask.{gives_up, clean_requests}

-- What becomes of the requests: one whose time is left stays, an expired one starts anew or is given up.
unfoldable pub kept_requests : (Request → Bool) → List Request → List Request
kept_requests giving [] = []
kept_requests giving (r ∷ rs) =
    let rest = kept_requests giving rs in
    if leb_ℤ r.ttl (pos 0)
    then if giving r then rest else set_request_ttl r (pos 500) ∷ rest
    else r ∷ rest

-- The numbers of attempts of those that are given up.
unfoldable pub given_up : (Request → Bool) → List Request → List ℕ
given_up giving [] = []
given_up giving (r ∷ rs) =
    let rest = given_up giving rs in
    if leb_ℤ r.ttl (pos 0) && giving r then length r.attempts ∷ rest else rest

-- Requests with time left.
abbrev pub AreLive : List Request → Type 0
AreLive [] = Unit {0}
AreLive (r ∷ rs) = (leb_ℤ r.ttl (pos 0) ≡ false) × AreLive rs

kept-AreLive : (giving : Request → Bool) (rs : List Request) → AreLive (kept_requests giving rs)
unfolding kept_requests set_request_ttl
kept-AreLive giving [] = tt
kept-AreLive giving (r ∷ rs) = elim (Bool-cases (leb_ℤ r.ttl (pos 0))) [
  | inr t ↦ rw (kept_requests, t) (t, kept-AreLive giving rs)
  | inl t ↦ elim (Bool-cases (giving r)) [
    | inl g ↦ rw (kept_requests, t, g) (kept-AreLive giving rs)
    | inr g ↦ rw (kept_requests, t, g) (refl, kept-AreLive giving rs)
  ]
]

append_cons : (xs ys : List ℕ) (x : ℕ) → (xs ++ x ∷ []) ++ ys ≡ xs ++ x ∷ ys
append_cons [] ys x = refl
append_cons (z ∷ xs) ys x = ap (λ t. z ∷ t) (append_cons xs ys x)

append_nil : (xs : List ℕ) → xs ≡ xs ++ []
append_nil [] = refl
append_nil (x ∷ xs) = ap (λ t. x ∷ t) (append_nil xs)

-- The test does not read what the loop writes.
same_test :
    (c : Client) (tries : List ℕ) (old : List (ChunkUniqueId × Request))
    → gives_up (record c { tries_per_request = tries; old_request_list = old }) ≡ gives_up c
unfolding gives_up
same_test c tries old = refl

kept :
    (c : Client) (rs : List Request)
    → ((clean_requests c rs).request_list ≡ kept_requests (gives_up c) rs)
      × ((clean_requests c rs).tries_per_request ≡ c.tries_per_request ++ given_up (gives_up c) rs)
unfolding clean_requests kept_requests given_up
kept c [] = (refl, append_nil c.tries_per_request)
kept c (r ∷ rs) =
    let renewed = set_request_ttl r (pos 500) in
    let dropped : Client = record c {
      tries_per_request = c.tries_per_request ++ length r.attempts ∷ [];
      old_request_list = put_old_request c.old_request_list r.chunk_uid renewed;
    } in
    let keeping = kept c rs in
    let dropping =
      rw
        (same_test c (c.tries_per_request ++ length r.attempts ∷ [])
          (put_old_request c.old_request_list r.chunk_uid renewed))
        at (kept dropped rs) in
    elim (Bool-cases (leb_ℤ r.ttl (pos 0))) [
      | inr t ↦ rw t (ap (λ l. r ∷ l) keeping.0, keeping.1)
      | inl t ↦ elim (Bool-cases (gives_up c r)) [
        | inl g ↦
            rw (t, g)
              (
                dropping.0,
                dropping.1
                    ∙ append_cons c.tries_per_request (given_up (gives_up c) rs)
                        (length r.attempts),
              )
        | inr g ↦ rw (t, g) (ap (λ l. renewed ∷ l) keeping.0, keeping.1)
      ]
    ]

-- The first loop of `FazPedidos` leaves the requests whose time is left as they are, renews those that
-- expired and are not given up, and takes the others out, counting their attempts in order; all that it
-- leaves have time left.
pub clean_requests-kept :
    (c : Client) (rs : List Request)
    → ((clean_requests c rs).request_list ≡ kept_requests (gives_up c) rs)
      × ((clean_requests c rs).tries_per_request ≡ c.tries_per_request ++ given_up (gives_up c) rs)
      × AreLive (clean_requests c rs).request_list
clean_requests-kept c rs =
    let both = kept c rs in (both.0, both.1, rw both.0 (kept-AreLive (gives_up c) rs))

-- With no limit on the attempts, which is written -1, the test of an expired request always holds.
gives_up_without_limit :
    (c : Client) (r : Request) → c.max_request_attempt ≡ negsuc 0 → gives_up c r ≡ true
unfolding gives_up
gives_up_without_limit c r e = ground (arith, e)

-- The requests whose time is left, and the numbers of attempts of the others.
abbrev pub with_time : List Request → List Request
with_time [] = []
with_time (r ∷ rs) = if ltb_ℤ (pos 0) r.ttl then r ∷ with_time rs else with_time rs

abbrev pub attempts_of_expired : List Request → List ℕ
attempts_of_expired [] = []
attempts_of_expired (r ∷ rs) =
    if ltb_ℤ (pos 0) r.ttl
    then attempts_of_expired rs
    else length r.attempts ∷ attempts_of_expired rs

unlimited :
    (c : Client) (rs : List Request)
    → c.max_request_attempt ≡ negsuc 0
    → (kept_requests (gives_up c) rs ≡ with_time rs)
      × (given_up (gives_up c) rs ≡ attempts_of_expired rs)
unfolding kept_requests given_up
unlimited c [] e = (refl, refl)
unlimited c (r ∷ rs) e =
    let rest = unlimited c rs e in
    let over = gives_up_without_limit c r e in
    (ground (arith, rest.0, over), ground (arith, rest.1, over))

-- With no limit on the attempts, which is written -1, the first loop of `FazPedidos` drops every request
-- whose time is over, none of which starts anew, and counts its attempts; what it leaves are the
-- requests with time left, as they were.
pub clean_requests_without_limit :
    (c : Client) (rs : List Request)
    → c.max_request_attempt ≡ negsuc 0
    → ((clean_requests c rs).request_list ≡ with_time rs)
      × ((clean_requests c rs).tries_per_request ≡ c.tries_per_request ++ attempts_of_expired rs)
clean_requests_without_limit c rs e =
    let both = kept c rs in
    let dropped = unlimited c rs e in
    (both.0 ∙ dropped.0, both.1 ∙ ap (λ l. c.tries_per_request ++ l) dropped.1)
