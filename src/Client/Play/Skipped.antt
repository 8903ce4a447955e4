-- ===== src/Client/Play/Skipped.antt =====
-- The player of src/client/client.cpp gets on: it plays chunks in their order, and gives up a chunk that
-- does not come.
use tvpp_dev_base.Base.{
  ℕ, zero, suc, ◌+◌, ◌*◌, ◌≤◌, ◌≡◌, refl, ◌⊎◌, inl, inr, true, false, ltb, Option, none, some,
  arith, Option-cases, Bool-cases,
}
use tvpp_dev_base.ChunkUniqueId.{ChunkUniqueId, inc_id, difference, eq_id, lt_id, ge_id}
use tvpp_dev_base.MediaBuffer.{is_available}
use tvpp_dev_base.Client.Play.{
  Player, soft_reset, wait_at_tip, play_chunk, miss_chunk, wait_or_miss, get_duration, feed_player,
}

abbrev delivery : Player → ChunkUniqueId
delivery p = p.client.player_delivery_position

-- The player is behind the stream, by less than a cycle, and has not got the chunk that it is at.
pub record IsStuck (p : Player) : Type 0 where
  pub behind : lt_id p.client.player_delivery_position p.client.latest_received_position ≡ true
  pub within :
      (difference p.client.latest_received_position p.client.player_delivery_position).cycle ≡ 0
  pub missing :
      is_available p.client.media_buffer p.client.player_delivery_position.position ≡ some false

no_reset : (p : Player) → IsStuck p → soft_reset p ≡ p
unfolding soft_reset
no_reset p h = ground (arith, h.within)

behind_not_tip : (c d : ChunkUniqueId) → lt_id c d ≡ true → (eq_id d c ≡ false) × (ge_id d c ≡ true)
unfolding lt_id eq_id ge_id
behind_not_tip c d h = ground (arith, h)

-- A round of a stuck player.
stuck_round : (p : Player) → IsStuck p → feed_player p ≡ some (wait_or_miss p)
unfolding feed_player wait_at_tip
stuck_round p h =
    let order = behind_not_tip (delivery p) p.client.latest_received_position h.behind in
    ground (arith, no_reset p h, order.0, order.1, h.missing)

-- Rounds of `FeedPlayer`, while they return.
abbrev pub play_rounds : ℕ → Player → Option Player
play_rounds zero p = some p
play_rounds (suc n) p = elim (feed_player p) [ none ↦ none | some p' ↦ play_rounds n p' ]

-- The player is at the next chunk after at most `n` rounds and one.
abbrev pub GetsOn : ℕ → Player → Type 0
GetsOn n p =
    (j : ℕ) × (j ≤ n)
    × ((p' : Player) × (play_rounds (suc j) p ≡ some p')
        × (p'.client.player_delivery_position ≡ inc_id p.client.player_delivery_position)
        × (p'.wait_time ≡ 0))

-- The wait is over.
gives_up_now :
    (n : ℕ) (p : Player) → IsStuck p → ltb p.wait_time p.max_wait_time ≡ false → GetsOn n p
unfolding wait_or_miss miss_chunk
gives_up_now n p h t =
    (0, omega arith, (miss_chunk p, ground (arith, stuck_round p h, t, h.behind), refl, refl))

-- A player that is behind the stream by less than a cycle, and has not got the chunk that it is at, gives
-- the chunk up: after as many rounds of ten milliseconds as its longest wait has left, and one more at
-- most, it is at the next chunk.
pub feed_player_gives_up :
    (n : ℕ) (p : Player) → IsStuck p → p.max_wait_time ≤ p.wait_time + 10 * n → GetsOn n p
unfolding wait_or_miss
feed_player_gives_up zero p h l = gives_up_now 0 p h (ground (arith, l))
feed_player_gives_up (suc n) p h l = elim (Bool-cases (ltb p.wait_time p.max_wait_time)) [
  | inr t ↦ gives_up_now (suc n) p h t
  | inl t ↦
      let waited : Player = record p { wait_time = p.wait_time + 10 } in
      let once : feed_player p ≡ some waited = ground (arith, stuck_round p h, t) in
      let (j, few, (p', done, at, fresh)) =
        feed_player_gives_up n waited
          (record { behind = h.behind; within = h.within; missing = h.missing })
          (omega (arith, l)) in
      (suc j, omega (arith, few), (p', rw (play_rounds, once) done, at, fresh))
]

-- What a round does, from the player after its reset: it stays at the chunk, or goes to the next one,
-- because the chunk was there or because the wait for it was over with later chunks received.
abbrev pub Advances : Player → Player → Type 0
Advances q p' =
    (p'.client.player_delivery_position ≡ q.client.player_delivery_position)
    ⊎ ((p'.client.player_delivery_position ≡ inc_id q.client.player_delivery_position)
        × ((is_available q.client.media_buffer q.client.player_delivery_position.position
              ≡ some true)
            ⊎ ((q.max_wait_time ≤ q.wait_time)
                × (lt_id q.client.player_delivery_position q.client.latest_received_position
                    ≡ true))))

wait_or_miss-Advances : (q : Player) → Advances q (wait_or_miss q)
unfolding wait_or_miss miss_chunk
wait_or_miss-Advances q = elim (Bool-cases (ltb q.wait_time q.max_wait_time)) [
  | inl t ↦ inl (ground (arith, t))
  | inr t ↦
      elim (Bool-cases
        (lt_id q.client.player_delivery_position q.client.latest_received_position)) [
          | inl b ↦ inr (ground (arith, t, b), inr (ground (arith, t), b))
          | inr b ↦ inl (ground (arith, t, b))
        ]
]

-- Every round of `FeedPlayer`, after its reset, stays at the chunk or goes to the next one: because the
-- chunk was there, or because the wait for it was over while later chunks were received.
pub feed_player-Advances :
    (p p' : Player) → feed_player p ≡ some p' → Advances (wait_at_tip (soft_reset p)) p'
unfolding feed_player play_chunk
feed_player-Advances p p' e =
    let q = wait_at_tip (soft_reset p) in
    let c = q.client in
    elim (Bool-cases (ge_id c.latest_received_position c.player_delivery_position)) [
      | inr t ↦
          let same : p' ≡ wait_or_miss q = ground (arith, rw (feed_player, t) at e) in
          rw same (wait_or_miss-Advances q)
      | inl t ↦
          elim (Option-cases (is_available c.media_buffer c.player_delivery_position.position)) [
            | inl f ↦ absurd (ground (arith, rw (feed_player, t, f) at e))
            | inr (false, f) ↦
                let same : p' ≡ wait_or_miss q = ground (arith, rw (feed_player, t, f) at e) in
                rw same (wait_or_miss-Advances q)
            | inr (true, f) ↦
                elim (Option-cases
                  (get_duration c.media_buffer c.player_delivery_position.position)) [
                    | inl g ↦ absurd (ground (arith, rw (feed_player, t, f, g) at e))
                    | inr (duration, g) ↦
                        let same : p' ≡ play_chunk q duration =
                          ground (arith, rw (feed_player, t, f, g) at e) in
                        rw same (inr (refl, inl f))
                  ]
          ]
    ]
